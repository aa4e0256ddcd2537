-- ===== src/Chain/Queue/Supply.antt =====
-- On `doProcessBlock` of chain/BlockChain.cpp: blocks make no more money than their bonuses.
use mathlib.Core.Path.{subst}
use gsenetwork.Storage.Cache.Sound.{AllSound, IsKeyed}
use gsenetwork.Storage.Cache.View.{norm, view}
use gsenetwork.Prelude.{
  ℕ, ◌+◌, ◌≤◌, List, [], ◌∷◌, true, false, Option, ◌≡◌, refl, sym, ap, ◌∙◌, inl, inr, Bool-cases,
  arith, All, add64,
}
use gsenetwork.Core.Account.{Account, set_balance}
use gsenetwork.Core.Transaction.{Candidate}
use gsenetwork.Core.Block.{Block}
use gsenetwork.Storage.Database.{account_entity, db_account}
use gsenetwork.Storage.Repository.{Repository, bonus, is_empty}
use gsenetwork.Storage.Repository.Ledger.{Shows}
use gsenetwork.Storage.Repository.Book.{Book, spec_bonus}
use gsenetwork.Storage.Repository.Balance.{bonus-Refines}
use gsenetwork.Storage.Repository.Total.{
  update-Bounded, total, has, AreDistinct, Bounded, total-inside, total-outside,
}
use gsenetwork.Runtime.{run}
use gsenetwork.Runtime.Supply.{IsOrdinary, run-NoGain}
use gsenetwork.Chain.Execute.{
  back_db, back_accounts, Back, no_item, item, any_exists, add_memory_item, block_bonus,
  do_process_block,
}
use gsenetwork.Chain.Execute.Once.{Result-cases}
use gsenetwork.Chain.Execute.Shown.{account_of, same_view}
use gsenetwork.Chain.Queue.{Queue, account_caches, back_of, process, process_all}
use gsenetwork.Chain.Queue.Undone.{refilled, under_back, under_stack}
use gsenetwork.Chain.Solidify.{MemoryItem}
use gsenetwork.Prelude.Map.{Map}
use gsenetwork.Storage.Database.{Database}
use gsenetwork.Storage.Repository.{to_list}
use gsenetwork.Storage.Repository.Beneath.{ChainKept}
use gsenetwork.Chain.Queue.Step.{do_process_block-Step, any_exists-SameBack}

-- Chains of caches of accounts, over a keyed database, that show a book of living accounts with 64-bit
-- balances.
pub record Holds (db : Database) (ms : List (Map Account)) (f : Book) : Type 0 where
  pub sound : AllSound ms
  pub keyed : IsKeyed (db_account db)
  pub shows : (j : ℕ) → norm (view (db_account db) j ms) ≡ f j
  pub lives : (j : ℕ) → is_empty (f j) ≡ false → (f j).alive ≡ true
  pub bounded : Bounded f

-- The bonuses of blocks.
abbrev pub bonuses : List Block → ℕ
bonuses [] = 0
bonuses (b ∷ bs) = block_bonus b.timestamp + bonuses bs

-- The accounts that the back of a queue shows.
abbrev pub book_of : Queue → Book
book_of q = λ j. account_of j (back_of q.items q.db)

-- What the back of a queue shows is what the items' caches show.
back_shows :
    (is : List MemoryItem) (db : Database) (j : ℕ)
    → account_of j (back_of is db) ≡ norm (view (db_account db) j (account_caches is))
back_shows [] db j = refl
back_shows (i ∷ is) db j = refl

Holds-kept :
    (d d' : Database) (ms ns : List (Map Account)) (f : Book)
    → d' ≡ d
    → ChainKept (db_account d) ms ns
    → Holds d ms f
    → Holds d' ns f
Holds-kept d d' ms ns f e k h =
    let (keyed, sound, same) = same_view db_account ms ns e h.keyed h.sound k in
    record {
      sound = sound;
      keyed = keyed;
      shows = λ j. same j ∙ h.shows j;
      lives = h.lives;
      bounded = h.bounded;
    }

total-same : (xs : List ℕ) (f g : Book) → ((j : ℕ) → f j ≡ g j) → total xs f ≡ total xs g
total-same [] f g h = refl
total-same (x ∷ xs) f g h =
    omega (arith, ap (λ (v : Account). v.balance) (h x), total-same xs f g h)

-- A bonus raises the total by its value at most.
add64-le : (a b : ℕ) → add64 a b ≤ a + b
add64-le a b = omega arith

total_bonus :
    (xs : List ℕ) (f : Book) (a value : ℕ)
    → AreDistinct xs
    → total xs (spec_bonus a value f).1 ≤ total xs f + value
total_bonus xs f a value d = elim (Bool-cases (is_empty (f a))) [
  | inl gone ↦ rw gone (omega arith)
  | inr full ↦ rw full (elim (Bool-cases (has a xs)) [
    | inl counts ↦
        let into = total-inside xs f a (set_balance (add64 (f a).balance value) (f a)) d counts in
        omega (arith, into, add64-le (f a).balance value)
    | inr other ↦
        let same = total-outside xs f a (set_balance (add64 (f a).balance value) (f a)) other in
        omega (arith, same)
  ])
]

spec_bonus-Bounded : (a value : ℕ) (f : Book) → Bounded f → Bounded (spec_bonus a value f).1
spec_bonus-Bounded a value f b = elim (Bool-cases (is_empty (f a))) [
  | inl gone ↦ rw gone b
  | inr full ↦
      rw full (update-Bounded f a (set_balance (add64 (f a).balance value) (f a)) b (omega arith))
]

child-Shows :
    (b : Block) (m : Back) (f : Book)
    → Holds (back_db m) (back_accounts m) f
    → Shows (add_memory_item b m) f
child-Shows b (no_item db) f h = record {
  sound = ((tt, tt), h.sound);
  keyed = h.keyed;
  shows = h.shows;
  lives = h.lives;
}
child-Shows b (item r) f h = record {
  sound = ((tt, tt), h.sound);
  keyed = h.keyed;
  shows = h.shows;
  lives = h.lives;
}

module _ (ballot_of : List ℕ → Option (List Candidate)) where
  -- The repository of an executed block.
  executed_as :
      (b : Block) (m : Back) (s : Repository)
      → do_process_block ballot_of b m ≡ (true, item s)
      → let m1 = (any_exists b.transactions m).1 in
        s
        ≡ (bonus b.producer
            (block_bonus b.timestamp)
            (run ballot_of b.transactions (add_memory_item b m1)).1).1
  unfolding do_process_block
  executed_as b m s done =
      let m1 = (any_exists b.transactions m).1 in
      let r = add_memory_item b m1 in
      let paid = bonus b.producer (block_bonus b.timestamp) (run ballot_of b.transactions r).1 in
      elim (Bool-cases (any_exists b.transactions m).0) [
        | inl e ↦ absurd (cc (rw (do_process_block, e) at done))
        | inr e ↦ elim (Result-cases (run ballot_of b.transactions r).0) [
          | inr (x, f) ↦ absurd (cc (rw (do_process_block, e, f) at done))
          | inl f ↦ elim (Result-cases paid.0) [
            | inr (x, g) ↦ absurd (cc (rw (do_process_block, e, f, g) at done))
            | inl g ↦ cc (rw (do_process_block, e, f, g) at done)
          ]
        ]
      ]

  -- The book that an executed block leaves.
  executed_book :
      (xs : List ℕ) (b : Block) (m1 : Back) (f : Book)
      → AreDistinct xs
      → All (IsOrdinary xs) b.transactions
      → Holds (back_db m1) (back_accounts m1) f
      → let s =
          (bonus b.producer
            (block_bonus b.timestamp)
            (run ballot_of b.transactions (add_memory_item b m1)).1).1 in
        (g : Book) × Holds s.db (to_list s.accounts) g
        × (total xs g ≤ total xs f + block_bonus b.timestamp)
  executed_book xs b m1 f d may h =
      let value = block_bonus b.timestamp in
      let r = (run ballot_of b.transactions (add_memory_item b m1)).1 in
      let (g, sg, small, le) =
        run-NoGain xs d ballot_of b.transactions (add_memory_item b m1) may f (child-Shows b m1 f h)
          h.bounded in
      let paid = (bonus-Refines b.producer value r g sg).1 in
      (
        (spec_bonus b.producer value g).1,
        record {
          sound = paid.sound;
          keyed = paid.keyed;
          shows = paid.shows;
          lives = paid.lives;
          bounded = spec_bonus-Bounded b.producer value g small;
        },
        omega (arith, le, total_bonus xs g b.producer value d),
      )

  process_book :
      (xs : List ℕ) (b : Block) (q : Queue) (f : Book)
      → AreDistinct xs
      → All (IsOrdinary xs) b.transactions
      → Holds q.db (account_caches q.items) f
      → let q1 = (process ballot_of b q).1 in
        (g : Book) × Holds q1.db (account_caches q1.items) g
        × (total xs g ≤ total xs f + block_bonus b.timestamp)
  unfolding process
  process_book xs b q f d may h =
      let m = back_of q.items q.db in
      elim (do_process_block-Step ballot_of b m) [
        | inl (e, same) ↦
            let m' = (do_process_block ballot_of b m).1 in
            let (ed, k) = under_back q.items q.db m' same in
            let (ea, _, _, _) = refilled q.db q.items _ _ _ k in
            let there = Holds-kept q.db (back_db m') _ _ f ed k.accounts h in
            rw (e, process) (f, subst (λ ms. Holds (back_db m') ms f) (sym ea) there, omega arith)
        | inr (s, e, over) ↦
            let m1 = (any_exists b.transactions m).1 in
            let (e1, k1) = under_back q.items q.db m1 (any_exists-SameBack b.transactions m) in
            let h1 = Holds-kept q.db (back_db m1) _ (back_accounts m1) f e1 k1.accounts h in
            let (g, hg, le) = executed_book xs b m1 f d may h1 in
            let hs =
              subst (λ r. Holds r.db (to_list r.accounts) g) (sym (executed_as b m s e)) hg in
            let (_, k) = under_stack q.items q.db s over in
            let (ea, _, _, _) = refilled q.db q.items _ _ _ k in
            rw (e, process) (g, subst (λ ms. Holds s.db (s.accounts.cache ∷ ms) g) (sym ea) hs, le)
      ]

  process_all_book :
      (xs : List ℕ) (bs : List Block) (q : Queue) (f : Book)
      → AreDistinct xs
      → All (λ b. All (IsOrdinary xs) b.transactions) bs
      → Holds q.db (account_caches q.items) f
      → let q' = (process_all ballot_of bs q).1 in
        (g : Book) × Holds q'.db (account_caches q'.items) g
        × (total xs g ≤ total xs f + bonuses bs)
  unfolding process_all
  process_all_book xs [] q f d may h = (f, h, omega arith)
  process_all_book xs (b ∷ bs) q f d may h =
      let (g, hg, le) = process_book xs b q f d may.0 h in
      let (i, hi, le') = process_all_book xs bs (process ballot_of b q).1 g d may.1 hg in
      (i, hi, omega (arith, le, le'))

  -- Where the caches of accounts in a memory queue are sound over a keyed database and show living
  -- accounts of 64-bit balances, then whatever blocks are processed, in any order, executed or refused,
  -- any distinct addresses together hold at most the bonuses of these blocks more than before: if each
  -- transfer in the blocks is of a 64-bit value, from one of the addresses, to another address.
  pub process_all-total :
      (xs : List ℕ) (bs : List Block) (q : Queue)
      → AreDistinct xs
      → All (λ b. All (IsOrdinary xs) b.transactions) bs
      → Holds q.db (account_caches q.items) (book_of q)
      → total xs (book_of (process_all ballot_of bs q).1) ≤ total xs (book_of q) + bonuses bs
  process_all-total xs bs q d may h =
      let q' = (process_all ballot_of bs q).1 in
      let (g, hg, le) = process_all_book xs bs q (book_of q) d may h in
      let same = total-same xs (book_of q') g (λ j. back_shows q'.items q'.db j ∙ hg.shows j) in
      omega (arith, le, same)
