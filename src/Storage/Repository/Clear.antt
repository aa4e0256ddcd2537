-- ===== src/Storage/Repository/Clear.antt =====
-- On `clearVote` of runtime/storage/Repository.cpp, against a plain book and roster.
use gsenetwork.Prelude.{
  ℕ, [], ◌∷◌, true, false, ◌≡◌, refl, ap, ◌∙◌, arith, inl, inr, Bool-cases, if◌then◌else◌,
}
use mathlib.Core.Path.{subst₂}
use gsenetwork.Prelude.Action.{Result, ok, err, no_account, no_producer}
use gsenetwork.Prelude.Map.{Map}
use gsenetwork.Core.Account.{Account, clear_vote as forget_votes}
use gsenetwork.Core.Producer.{Producer, producer_eq, erase_voter}
use gsenetwork.Storage.Cache.View.{norm}
use gsenetwork.Storage.Database.{account_entity}
use gsenetwork.Storage.Repository.{
  Repository, found_account, after_account, get_account, store_account, put_account, found_producer,
  after_producer, get_producer, store_producer, put_producer, is_empty, no_such, erase_votes,
  clear_vote,
}
use gsenetwork.Storage.Repository.Ledger.{
  Shows, update, after_account-Shows, store_account-Shows, after_producer-Shows,
  store_producer-Shows,
}
use gsenetwork.Storage.Repository.Book.{Book, found}
use gsenetwork.Storage.Repository.Roster.{
  Lists, enlist, found_producer-Finds, after_producer-Lists, after_account-Lists,
  store_account-Lists,
}
use gsenetwork.Storage.Repository.Votes.{Roster, Refines, store_producer_same}

abbrev pub spec_erase : ℕ → Map ℕ → Roster → Result (Unit {0}) × Roster
spec_erase a [] g = (ok tt, g)
spec_erase a ((c, _) ∷ cs) g =
    let rest = spec_erase a cs (enlist g c (erase_voter a (g c))) in
    if no_such (g c) then (err no_producer, g) else rest

-- The account forgets its votes once every candidate has been dealt with.
abbrev pub cleared : ℕ → Book → Result (Unit {0}) × Roster → Result (Unit {0}) × Book × Roster
cleared a f (ok _, g) = (ok tt, update f a (forget_votes (f a)), g)
cleared a f (err e, g) = (err e, f, g)

abbrev pub spec_clear : ℕ → Book → Roster → Result (Unit {0}) × Book × Roster
spec_clear a f g =
    if is_empty (f a) then (err no_account, f, g) else cleared a f (spec_erase a (f a).candidates g)

erase_voter-no_such : (voter : ℕ) (p : Producer) → no_such (erase_voter voter p) ≡ no_such p
unfolding erase_voter producer_eq
erase_voter-no_such voter p = ground arith

erase_voter-address : (voter : ℕ) (p : Producer) → (erase_voter voter p).address ≡ p.address
unfolding erase_voter
erase_voter-address voter p = ground arith

erase_votes-Refines :
    (a : ℕ) (cs : Map ℕ) (r : Repository) (f : Book) (g : Roster)
    → Shows r f
    → Lists r g
    → let (res, r') = erase_votes a cs r in
      let (res', g') = spec_erase a cs g in (res ≡ res') × Shows r' f × Lists r' g'
unfolding erase_votes get_producer put_producer
erase_votes-Refines a [] r f g s l = (refl, s, l)
erase_votes-Refines a ((c, w) ∷ cs) r f g s l =
    let (none_same, rest) = found_producer-Finds c r g l in
    let s1 = after_producer-Shows c r f s in
    let l1 = after_producer-Lists c r g l in
    let p = found_producer c r in
    elim (Bool-cases (no_such (g c))) [
      | inl unknown ↦ rw (none_same, unknown) (refl, s1, l1)
      | inr known ↦
          rw (none_same, known)
            (erase_votes-Refines a cs (store_producer (erase_voter a p) (after_producer c r)) f
              (enlist g c (erase_voter a (g c))) (store_producer-Shows (erase_voter a p) _ f s1)
              (store_producer_same c (erase_voter a p) (erase_voter a (g c)) _ g
                (erase_voter-address a p ∙ (rest (none_same ∙ known)).0)
                (ap (erase_voter a) (rest (none_same ∙ known)).1)
                (erase_voter-no_such a p ∙ none_same ∙ known) l1))
    ]

store_cleared :
    (a : ℕ) (v w : Account) (r : Repository) (f : Book)
    → v.address ≡ a
    → norm v ≡ w
    → v.alive ≡ true
    → Shows r f
    → Shows (store_account (forget_votes v) r) (update f a (forget_votes w))
store_cleared a v w r f own same live s =
    subst₂ (λ k x. Shows (store_account (forget_votes v) r) (update f k x)) own
      (ap forget_votes same) (store_account-Shows (forget_votes v) r f live s)

-- The end of `clearVote`, on what the loop left.
unfoldable pub finish : Account → Result (Unit {0}) × Repository → Result (Unit {0}) × Repository
finish v (ok _, r) = (ok tt, store_account (forget_votes v) r)
finish v (err e, r) = (err e, r)

finish-Refines :
    (a : ℕ) (v : Account) (f : Book)
    → v.address ≡ a
    → norm v ≡ f a
    → v.alive ≡ true
    → (res res' : Result (Unit {0})) (r : Repository) (g : Roster)
    → (res ≡ res') × Shows r f × Lists r g
    → Refines (finish v (res, r)) (cleared a f (res', g))
unfolding finish
finish-Refines a v f own same live (ok _) (ok _) r g (_, s, l) = (
  refl,
  store_cleared a v (f a) r f own same live s,
  store_account-Lists 0 r g l (forget_votes v),
)
finish-Refines a v f own same live (err e) (err e') r g h = h
finish-Refines a v f own same live (ok _) (err e') r g h = absurd (cc (h.0))
finish-Refines a v f own same live (err e) (ok _) r g h = absurd (cc (h.0))

pub clear_vote_lem :
    (a : ℕ) (r : Repository)
    → is_empty (found_account a r) ≡ false
    → clear_vote a r
      ≡ finish
          (found_account a r)
          (erase_votes a (found_account a r).candidates (after_account a r))
unfolding clear_vote get_account put_account finish
clear_vote_lem a r full = rw full (ground arith)

pub clear_vote_unknown :
    (a : ℕ) (r : Repository)
    → is_empty (found_account a r) ≡ true
    → clear_vote a r ≡ (err no_account, after_account a r)
unfolding clear_vote get_account
clear_vote_unknown a r gone = rw gone

-- On a repository whose sound caches show a book and a roster, `clearVote` gives the result, the book
-- and the roster of its specification: it refuses an unknown account, takes the account's
-- vote from each of its candidates, stops at the first that is no producer, and then forgets the
-- account's votes.
pub clear_vote-Refines :
    (a : ℕ) (r : Repository) (f : Book) (g : Roster)
    → Shows r f
    → Lists r g
    → Refines (clear_vote a r) (spec_clear a f g)
clear_vote-Refines a r f g s l =
    let h = found a r f s in
    let s1 = after_account-Shows a r f s in
    let l1 = after_account-Lists a r g l in
    elim (Bool-cases (is_empty (f a))) [
      | inl gone ↦ rw (clear_vote_unknown a r (h.empty_same ∙ gone), gone) (refl, s1, l1)
      | inr full ↦
          rw (clear_vote_lem a r (h.empty_same ∙ full), full)
            (finish-Refines a (found_account a r) f (h.own full) (h.same full) (h.is_alive full) _ _
              _ _
              (rw (← ap (λ (v : Account). v.candidates) (h.same full))
                (erase_votes-Refines a _ _ f g s1 l1)))
    ]
