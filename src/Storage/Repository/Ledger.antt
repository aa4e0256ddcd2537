-- ===== src/Storage/Repository/Ledger.antt =====
-- The accounts of a repository as one function from addresses, with the caches forgotten.
use gsenetwork.Prelude.{
  ℕ, List, [], ◌∷◌, true, false, ◌≡◌, refl, sym, ap, ◌∙◌, arith, ◌==◌, if◌then◌else◌,
}
use gsenetwork.Prelude.Map.{Map}
use gsenetwork.Core.Account.{Account, empty_account, account_eq}
use gsenetwork.Core.Producer.{Producer}
use gsenetwork.Storage.Cache.{read}
use gsenetwork.Storage.Cache.Sound.{AllSound, IsKeyed, put-IsSound}
use gsenetwork.Storage.Cache.View.{norm, view, read-view, view-put_top}
use gsenetwork.Storage.Database.{account_entity, db_account}
use gsenetwork.Storage.Repository.{
  to_list, of_list, Repository, found_account, after_account, store_account, after_producer,
  store_producer, is_empty,
}

-- What the repository shows for an address, as `operator=` copies it.
abbrev pub shown : Repository → ℕ → Account
shown r j = norm (view (db_account r.db) j (to_list r.accounts))

-- The caches are in order, and the repository shows the book `f`, where every account that is not
-- empty is alive.
pub record Shows (r : Repository) (f : ℕ → Account) : Type 0 where
  pub sound : AllSound (to_list r.accounts)
  pub keyed : IsKeyed (db_account r.db)
  pub shows : (j : ℕ) → shown r j ≡ f j
  pub lives : (j : ℕ) → is_empty (f j) ≡ false → (f j).alive ≡ true

abbrev pub update : (ℕ → Account) → ℕ → Account → ℕ → Account
update f k v j = if k == j then v else f j

pub alive-is_empty : (v : Account) → v.alive ≡ true → is_empty v ≡ false
unfolding account_eq
alive-is_empty v h = ground arith

view-of_list :
    (db : ℕ → Account) (j : ℕ) (ms : List (Map Account))
    → view db j (to_list (of_list ms)) ≡ view db j ms
view-of_list db j [] = refl
view-of_list db j (m ∷ ms) = refl

of_list-AllSound : (ms : List (Map Account)) → AllSound ms → AllSound (to_list (of_list ms))
of_list-AllSound [] s = ((tt, tt), tt)
of_list-AllSound (m ∷ ms) s = s

-- A read shows the same book, and returns its account.
abbrev pub Finds : ℕ → (ℕ → Account) → Account → Type 0
Finds a f v =
    (is_empty v ≡ is_empty (f a)) × (is_empty v ≡ false → (v.address ≡ a) × (norm v ≡ f a))

module _ (a : ℕ) (r : Repository) (f : ℕ → Account) (s : Shows r f) where
  pub found_account-Finds : Finds a f (found_account a r)
  unfolding found_account
  found_account-Finds =
      let (_, _, same, found) =
        read-view (db_account r.db) s.keyed a r.accounts.cache r.accounts.parents s.sound in
      (
        same ∙ sym (account_entity.is_empty-assign empty_account _) ∙ ap is_empty (s.shows a),
        λ h. ((found h).0, (found h).1 ∙ s.shows a),
      )

  pub after_account-Shows : Shows (after_account a r) f
  unfolding after_account
  after_account-Shows =
      let (sound, keep, _, _) =
        read-view (db_account r.db) s.keyed a r.accounts.cache r.accounts.parents s.sound in
      record {
        sound = of_list-AllSound _ sound;
        keyed = s.keyed;
        shows = λ j.
            ap norm
              (view-of_list (db_account r.db) j (read (db_account r.db) a (to_list r.accounts)).1)
            ∙ keep j
            ∙ s.shows j;
        lives = s.lives;
      }

-- A put updates the book.
pub store_account-Shows :
    (v : Account) (r : Repository) (f : ℕ → Account)
    → v.alive ≡ true
    → Shows r f
    → Shows (store_account v r) (update f v.address (norm v))
unfolding store_account
store_account-Shows v r f h s = record {
  sound = (put-IsSound v r.accounts.cache (alive-is_empty v h) s.sound.0, s.sound.1);
  keyed = s.keyed;
  shows = λ j.
      view-put_top (db_account r.db) v j r.accounts.cache r.accounts.parents
      ∙ ground (arith, s.shows j);
  lives = λ j. ground (arith, s.lives j, h);
}

-- What is done to producers does not touch the accounts.
pub after_producer-Shows :
    (a : ℕ) (r : Repository) (f : ℕ → Account) → Shows r f → Shows (after_producer a r) f
unfolding after_producer
after_producer-Shows a r f s = record {
  sound = s.sound;
  keyed = s.keyed;
  shows = s.shows;
  lives = s.lives;
}

pub store_producer-Shows :
    (p : Producer) (r : Repository) (f : ℕ → Account) → Shows r f → Shows (store_producer p r) f
unfolding store_producer
store_producer-Shows p r f s = record {
  sound = s.sound;
  keyed = s.keyed;
  shows = s.shows;
  lives = s.lives;
}
