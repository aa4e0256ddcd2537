-- ===== src/Storage/Repository/Votes.antt =====
-- On `voteIncrease` of runtime/storage/Repository.cpp, against a plain book and roster.
use gsenetwork.Prelude.{
  ℕ, Bool, true, false, ◌≡◌, refl, ap, ◌∙◌, ltb, sub64, mul64, inl, inr, Bool-cases, if◌then◌else◌,
}
use mathlib.Core.Path.{subst₂}
use gsenetwork.Prelude.Action.{Result, ok, err, no_account, no_producer, not_enough}
use gsenetwork.Core.Account.{Account, add_voter as note_vote}
use gsenetwork.Core.Producer.{Producer, producer_eq, add_voter}
use gsenetwork.Storage.Cache.View.{norm}
use gsenetwork.Storage.Database.{account_entity}
use gsenetwork.Storage.Repository.{
  Repository, found_account, after_account, get_account, store_account, put_account, found_producer,
  after_producer, get_producer, store_producer, put_producer, is_empty, no_such, vote_increase,
}
use gsenetwork.Storage.Repository.Ledger.{
  Shows, update, after_account-Shows, store_account-Shows, after_producer-Shows,
  store_producer-Shows,
}
use gsenetwork.Storage.Repository.Book.{Book, found}
use gsenetwork.Storage.Repository.Roster.{
  Lists, enlist, found_producer-Finds, after_producer-Lists, after_account-Lists,
  store_account-Lists, store_producer-Lists,
}

abbrev pub Roster : Type 0
Roster = ℕ → Producer

-- The outcome on both the accounts and the producers.
abbrev pub Refines : Result (Unit {0}) × Repository → Result (Unit {0}) × Book × Roster → Type 0
Refines (res, r) (res', f, g) = (res ≡ res') × Shows r f × Lists r g

-- A vote is a million of the units of the balance.
abbrev pub unbacked : ℕ → Account → Bool
unbacked value v = ltb (sub64 v.balance (mul64 v.votes 1_000_000)) (mul64 value 1_000_000)

abbrev pub spec_vote : ℕ → ℕ → ℕ → Book → Roster → Result (Unit {0}) × Book × Roster
spec_vote voter candidate value f g =
    if is_empty (f voter)
    then (err no_account, f, g)
    else if no_such (g candidate)
    then (err no_producer, f, g)
    else if unbacked value (f voter)
    then (err not_enough, f, g)
    else (
      ok tt,
      update f voter (note_vote candidate value (f voter)),
      enlist g candidate (add_voter voter value (g candidate)),
    )

add_voter-no_such : (voter value : ℕ) (p : Producer) → no_such (add_voter voter value p) ≡ no_such p
unfolding add_voter producer_eq
add_voter-no_such voter value p = refl

add_voter-address : (voter value : ℕ) (p : Producer) → (add_voter voter value p).address ≡ p.address
unfolding add_voter
add_voter-address voter value p = refl

store_vote :
    (a c value : ℕ) (v w : Account) (r : Repository) (f : Book)
    → v.address ≡ a
    → norm v ≡ w
    → v.alive ≡ true
    → Shows r f
    → Shows (store_account (note_vote c value v) r) (update f a (note_vote c value w))
store_vote a c value v w r f own same live s =
    subst₂ (λ k x. Shows (store_account (note_vote c value v) r) (update f k x)) own
      (ap (note_vote c value) same) (store_account-Shows (note_vote c value v) r f live s)

pub store_producer_same :
    (c : ℕ) (v w : Producer) (r : Repository) (g : Roster)
    → v.address ≡ c
    → v ≡ w
    → no_such v ≡ false
    → Lists r g
    → Lists (store_producer v r) (enlist g c w)
store_producer_same c v w r g own same full s =
    subst₂ (λ k x. Lists (store_producer v r) (enlist g k x)) own same
      (store_producer-Lists v r g full s)

-- On a repository whose sound caches show a book and a roster, `voteIncrease` gives the result, the book
-- and the roster of its specification: it refuses an unknown voter, an unknown producer and a vote beyond the balance as computed
-- in 64 bits, and otherwise records the vote on both sides.
pub vote_increase-Refines :
    (voter candidate value : ℕ) (r : Repository) (f : Book) (g : Roster)
    → Shows r f
    → Lists r g
    → Refines (vote_increase voter candidate value r) (spec_vote voter candidate value f g)
unfolding vote_increase get_account put_account get_producer put_producer
vote_increase-Refines voter candidate value r f g s l =
    let r1 = after_account voter r in
    let h = found voter r f s in
    let l1 = after_account-Lists voter r g l in
    let s1 = after_account-Shows voter r f s in
    let s2 = after_producer-Shows candidate r1 f s1 in
    let l2 = after_producer-Lists candidate r1 g l1 in
    let (none_same, rest) = found_producer-Finds candidate r1 g l1 in
    elim (Bool-cases (is_empty (f voter))) [
      | inl gone ↦ rw (h.empty_same, gone) (refl, s1, l1)
      | inr full ↦
          rw (h.empty_same, full)
            (elim (Bool-cases (no_such (g candidate))) [
              | inl unknown ↦ rw (none_same, unknown) (refl, s2, l2)
              | inr known ↦
                  rw (none_same, known, ap (unbacked value) (h.same full))
                    (elim (Bool-cases (unbacked value (f voter))) [
                      | inl short ↦ rw short (refl, s2, l2)
                      | inr enough ↦
                          let p = found_producer candidate r1 in
                          let v = found_account voter r in
                          rw enough (
                            refl,
                            store_producer-Shows (add_voter voter value p) _ _ (
                                store_vote voter candidate value v (f voter)
                                  (after_producer candidate r1) f (h.own full) (h.same full)
                                  (h.is_alive full) s2),
                            store_producer_same candidate (add_voter voter value p)
                                (add_voter voter value (g candidate)) _ g
                                (add_voter-address voter value p ∙ (rest (none_same ∙ known)).0)
                                (ap (add_voter voter value) (rest (none_same ∙ known)).1)
                                (add_voter-no_such voter value p ∙ none_same ∙ known)
                                (store_account-Lists 0 _ g l2 (note_vote candidate value v)),
                          )
                    ])
            ])
    ]
