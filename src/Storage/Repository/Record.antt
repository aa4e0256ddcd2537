-- ===== src/Storage/Repository/Record.antt =====
-- The transactions that a repository knows.
use gsenetwork.Prelude.{
  ℕ, List, [], ◌∷◌, Bool, false, ◌≡◌, refl, sym, ap, ◌∙◌, arith, if◌then◌else◌, ◌==◌,
}
use mathlib.Core.Path.{subst, subst₂}
use gsenetwork.Core.Transaction.{Transaction, empty_transaction, transaction_eq}
use gsenetwork.Storage.Database.{transaction_entity, db_transaction}
use gsenetwork.Storage.Cache.{read}
use gsenetwork.Prelude.Map.{Map}
use gsenetwork.Storage.Cache.Sound.{AllSound, IsKeyed, put-IsSound}
use gsenetwork.Storage.Cache.View.{view, read-view, view-put_top}
use gsenetwork.Storage.Repository.{
  Repository, to_list, of_list, found_transaction, after_transaction, store_transaction,
}
use gsenetwork.Storage.Repository.Frame.{Keeps}

abbrev pub is_none : Transaction → Bool
is_none t = transaction_eq t empty_transaction

-- The transaction that the caches show for a hash is not the empty one.
abbrev pub Known : ℕ → Repository → Type 0
Known h r = is_none (view (db_transaction r.db) h (to_list r.transactions)) ≡ false

pub record IsOrderly (r : Repository) : Type 0 where
  pub sound : AllSound (to_list r.transactions)
  pub keyed : IsKeyed (db_transaction r.db)

module _ (t : Transaction) (r : Repository) (full : is_none t ≡ false) where
  shown_stored :
      (h : ℕ)
      → view (db_transaction r.db) h (to_list (store_transaction t r).transactions)
        ≡ (if t.hash == h then t else view (db_transaction r.db) h (to_list r.transactions))
  unfolding store_transaction
  shown_stored h =
      view-put_top (db_transaction r.db) t h r.transactions.cache r.transactions.parents

  same_db : (store_transaction t r).db ≡ r.db
  unfolding store_transaction
  same_db = refl

  pub store_transaction-Known : Known t.hash (store_transaction t r)
  unfolding store_transaction
  store_transaction-Known = ap is_none (shown_stored t.hash) ∙ ground arith

  pub store_transaction_keeps : (h : ℕ) → Known h r → Known h (store_transaction t r)
  unfolding store_transaction
  store_transaction_keeps h k = ap is_none (shown_stored h) ∙ ground arith

  pub store_transaction-IsOrderly : IsOrderly r → IsOrderly (store_transaction t r)
  unfolding store_transaction
  store_transaction-IsOrderly o = record {
    sound = (put-IsSound t r.transactions.cache full o.sound.0, o.sound.1);
    keyed = o.keyed;
  }

pub Keeps-Known : {r s : Repository} (h : ℕ) → Keeps r s → Known h r → Known h s
Keeps-Known h k =
    subst₂ (λ ts db. is_none (view (db_transaction db) h (to_list ts)) ≡ false) (sym k.transactions)
      (sym k.db)

pub Keeps-IsOrderly : {r s : Repository} → Keeps r s → IsOrderly r → IsOrderly s
Keeps-IsOrderly k o = record {
  sound = subst (λ ts. AllSound (to_list ts)) (sym k.transactions) o.sound;
  keyed = subst (λ db. IsKeyed (db_transaction db)) (sym k.db) o.keyed;
}

-- A lookup finds what the caches show.
pub found_transaction-Known :
    (h : ℕ) (r : Repository) → IsOrderly r → Known h r → is_none (found_transaction h r) ≡ false
unfolding found_transaction
found_transaction-Known h r o k =
    (read-view (db_transaction r.db) o.keyed h r.transactions.cache r.transactions.parents
      o.sound).2
    ∙ k

view-of_list :
    (db : ℕ → Transaction) (j : ℕ) (ms : List (Map Transaction))
    → view db j (to_list (of_list ms)) ≡ view db j ms
view-of_list db j [] = refl
view-of_list db j (m ∷ ms) = refl

of_list-AllSound : (ms : List (Map Transaction)) → AllSound ms → AllSound (to_list (of_list ms))
of_list-AllSound [] s = ((tt, tt), tt)
of_list-AllSound (m ∷ ms) s = s

-- A lookup leaves the caches in order and what is known known.
pub after_transaction-IsOrderly :
    (h : ℕ) (r : Repository)
    → IsOrderly r
    → IsOrderly (after_transaction h r) × ((j : ℕ) → Known j r → Known j (after_transaction h r))
unfolding after_transaction
after_transaction-IsOrderly h r o =
    let (sound, keep, _, _) =
      read-view (db_transaction r.db) o.keyed h r.transactions.cache r.transactions.parents
        o.sound in
    let ms = (read (db_transaction r.db) h (to_list r.transactions)).1 in
    (
      record { sound = of_list-AllSound ms sound; keyed = o.keyed },
      λ j k. ap is_none (view-of_list (db_transaction r.db) j ms ∙ keep j) ∙ k,
    )
