-- ===== src/Storage/Repository/Roster.antt =====
-- The producers of a repository as one function from addresses, with the caches forgotten.
use gsenetwork.Prelude.{ℕ, List, [], ◌∷◌, false, ◌≡◌, refl, ap, ◌∙◌, arith, ◌==◌, if◌then◌else◌}
use gsenetwork.Prelude.Map.{Map}
use gsenetwork.Core.Account.{Account}
use gsenetwork.Core.Producer.{Producer}
use gsenetwork.Storage.Cache.{read}
use gsenetwork.Storage.Cache.Sound.{AllSound, IsKeyed, put-IsSound}
use gsenetwork.Storage.Cache.View.{view, read-view, view-put_top}
use gsenetwork.Storage.Database.{producer_entity, db_producer}
use gsenetwork.Storage.Repository.{
  Repository, to_list, of_list, found_producer, after_producer, store_producer, after_account,
  store_account, no_such,
}

abbrev pub listed : Repository → ℕ → Producer
listed r j = view (db_producer r.db) j (to_list r.producers)

-- The caches of producers are in order and show the roster `g`.
pub record Lists (r : Repository) (g : ℕ → Producer) : Type 0 where
  pub sound : AllSound (to_list r.producers)
  pub keyed : IsKeyed (db_producer r.db)
  pub lists : (j : ℕ) → listed r j ≡ g j

abbrev pub enlist : (ℕ → Producer) → ℕ → Producer → ℕ → Producer
enlist g k v j = if k == j then v else g j

view-of_list :
    (db : ℕ → Producer) (j : ℕ) (ms : List (Map Producer))
    → view db j (to_list (of_list ms)) ≡ view db j ms
view-of_list db j [] = refl
view-of_list db j (m ∷ ms) = refl

of_list-AllSound : (ms : List (Map Producer)) → AllSound ms → AllSound (to_list (of_list ms))
of_list-AllSound [] s = ((tt, tt), tt)
of_list-AllSound (m ∷ ms) s = s

abbrev pub Finds : ℕ → (ℕ → Producer) → Producer → Type 0
Finds a g v = (no_such v ≡ no_such (g a)) × (no_such v ≡ false → (v.address ≡ a) × (v ≡ g a))

module _ (a : ℕ) (r : Repository) (g : ℕ → Producer) (s : Lists r g) where
  pub found_producer-Finds : Finds a g (found_producer a r)
  unfolding found_producer
  found_producer-Finds =
      let (_, _, same, found) =
        read-view (db_producer r.db) s.keyed a r.producers.cache r.producers.parents s.sound in
      (same ∙ ap no_such (s.lists a), λ h. ((found h).0, (found h).1 ∙ s.lists a))

  pub after_producer-Lists : Lists (after_producer a r) g
  unfolding after_producer
  after_producer-Lists =
      let (sound, keep, _, _) =
        read-view (db_producer r.db) s.keyed a r.producers.cache r.producers.parents s.sound in
      record {
        sound = of_list-AllSound _ sound;
        keyed = s.keyed;
        lists = λ j.
            view-of_list (db_producer r.db) j (read (db_producer r.db) a (to_list r.producers)).1
            ∙ keep j
            ∙ s.lists j;
      }

  -- What is done to accounts does not touch the producers.
  pub after_account-Lists : Lists (after_account a r) g
  unfolding after_account
  after_account-Lists = record { sound = s.sound; keyed = s.keyed; lists = s.lists }

  pub store_account-Lists : (v : Account) → Lists (store_account v r) g
  unfolding store_account
  store_account-Lists v = record { sound = s.sound; keyed = s.keyed; lists = s.lists }

pub store_producer-Lists :
    (v : Producer) (r : Repository) (g : ℕ → Producer)
    → no_such v ≡ false
    → Lists r g
    → Lists (store_producer v r) (enlist g v.address v)
unfolding store_producer
store_producer-Lists v r g h s = record {
  sound = (put-IsSound v r.producers.cache h s.sound.0, s.sound.1);
  keyed = s.keyed;
  lists = λ j.
      view-put_top (db_producer r.db) v j r.producers.cache r.producers.parents
      ∙ ground (arith, s.lists j);
}
