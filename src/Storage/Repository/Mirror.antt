-- ===== src/Storage/Repository/Mirror.antt =====
-- On `voteIncrease` and `clearVote` of runtime/storage/Repository.cpp: the two records of a vote.
use gsenetwork.Prelude.{
  ℕ, [], ◌∷◌, Bool, true, false, ◌&&◌, none, some, ◌≡◌, refl, sym, ap, ◌∙◌, arith, inl, inr,
  Bool-cases, Option-cases, if◌then◌else◌, ◌==◌,
}
use mathlib.Core.Path.{subst}
use gsenetwork.Prelude.Action.{Result, ok, err}
use gsenetwork.Prelude.Map.{
  Map, lookup, Above, lookup-insert, lookup-erase, insert-Above, erase-Above,
}
use gsenetwork.Core.Account.{Account}
use gsenetwork.Core.Producer.{Producer, add_voter, erase_voter}
use gsenetwork.Storage.Repository.{Repository, is_empty, no_such, vote_increase, clear_vote}
use gsenetwork.Storage.Repository.Ledger.{Shows, shown}
use gsenetwork.Storage.Repository.Book.{Book}
use gsenetwork.Storage.Repository.Roster.{Lists, listed, enlist}
use gsenetwork.Storage.Repository.Votes.{Roster, spec_vote, vote_increase-Refines}
use gsenetwork.Storage.Repository.Clear.{spec_erase, spec_clear, cleared, clear_vote-Refines}

abbrev pub Sorted : Roster → Type 0
Sorted g = (c : ℕ) → Above 0 (g c).voters

-- What an account records for a producer is what the producer records for the account.
abbrev pub Mirror : Book → Roster → Type 0
Mirror f g = (a c : ℕ) → lookup c (f a).candidates ≡ lookup a (g c).voters

voters-add :
    (a b value : ℕ) (p : Producer)
    → lookup b (add_voter a value p).voters ≡ (if a == b then some value else lookup b p.voters)
unfolding add_voter
voters-add a b value p = lookup-insert a value b p.voters

add_voter-Above :
    (a value : ℕ) (p : Producer) → Above 0 p.voters → Above 0 (add_voter a value p).voters
unfolding add_voter
add_voter-Above a value p s = insert-Above 0 a value p.voters (omega arith) s

voters-erase :
    (a b : ℕ) (p : Producer)
    → Above 0 p.voters
    → lookup b (erase_voter a p).voters ≡ (if a == b then none else lookup b p.voters)
unfolding erase_voter
voters-erase a b p s = elim (Option-cases (lookup a p.voters)) [
  | inl e ↦ rw (e, erase_voter) (ground arith)
  | inr (v, e) ↦ rw (e, erase_voter) (lookup-erase 0 a b p.voters s)
]

erase_voter-Above : (a : ℕ) (p : Producer) → Above 0 p.voters → Above 0 (erase_voter a p).voters
unfolding erase_voter
erase_voter-Above a p s = elim (Option-cases (lookup a p.voters)) [
  | inl e ↦ rw (e, erase_voter) s
  | inr (v, e) ↦ rw (e, erase_voter) (erase-Above 0 a p.voters s)
]

spec_vote-Mirror :
    (voter candidate value : ℕ) (f : Book) (g : Roster)
    → Mirror f g
    → (spec_vote voter candidate value f g).0 ≡ ok tt
    → let (_, f', g') = spec_vote voter candidate value f g in Mirror f' g'
spec_vote-Mirror voter candidate value f g m done a c = ground (
  arith,
  m a c,
  lookup-insert candidate value c (f voter).candidates,
  voters-add voter a value (g candidate),
)

abbrev has : ℕ → Map ℕ → Bool
has c cs = elim (lookup c cs) [ none ↦ false | some _ ↦ true ]

enlist-Sorted :
    (c : ℕ) (p : Producer) (g : Roster) → Above 0 p.voters → Sorted g → Sorted (enlist g c p)
enlist-Sorted c p g h s j = ground (arith, s j)

spec_erase_lem :
    (a : ℕ) (cs : Map ℕ) (g : Roster)
    → Sorted g
    → (spec_erase a cs g).0 ≡ ok tt
    → Sorted (spec_erase a cs g).1
      × ((b c : ℕ)
          → lookup b ((spec_erase a cs g).1 c).voters
            ≡ (if a == b && has c cs then none else lookup b (g c).voters))
spec_erase_lem a [] g s done = (s, λ b c. ground arith)
spec_erase_lem a ((k, w) ∷ cs) g s done =
    let g1 = enlist g k (erase_voter a (g k)) in
    let s1 = enlist-Sorted k (erase_voter a (g k)) g (erase_voter-Above a (g k) (s k)) s in
    elim (Bool-cases (no_such (g k))) [
      | inl unknown ↦ absurd (cc ((rw unknown at done)))
      | inr known ↦
          let (s2, keep) = spec_erase_lem a cs g1 s1 (rw known at done) in
          rw known (s2, λ b c. keep b c ∙ ground (arith, voters-erase a b (g k) (s k)))
    ]

spec_vote-Sorted :
    (voter candidate value : ℕ) (f : Book) (g : Roster)
    → Sorted g
    → Sorted (spec_vote voter candidate value f g).2
spec_vote-Sorted voter candidate value f g s c =
    ground (arith, s c, add_voter-Above voter value (g candidate) (s candidate))

spec_clear-Mirror :
    (a : ℕ) (f : Book) (g : Roster)
    → Sorted g
    → Mirror f g
    → (spec_clear a f g).0 ≡ ok tt
    → let (_, f', g') = spec_clear a f g in Sorted g' × Mirror f' g'
spec_clear-Mirror a f g s m done = elim (Bool-cases (is_empty (f a))) [
  | inl gone ↦ absurd (cc (rw gone at done))
  | inr full ↦ rw full (
      ends (spec_erase a (f a).candidates g) (spec_erase_lem a (f a).candidates g s)
        (rw full at done))
]
  where
    ends :
        (o : Result (Unit {0}) × Roster)
        → (o.0 ≡ ok tt
            → Sorted o.1
              × ((b c : ℕ)
                  → lookup b (o.1 c).voters
                    ≡ (if a == b && has c (f a).candidates then none else lookup b (g c).voters)))
        → (cleared a f o).0 ≡ ok tt
        → Sorted (cleared a f o).2 × Mirror (cleared a f o).1 (cleared a f o).2
    ends (ok u, g') after fine =
        let (s', keep) = after refl in (s', λ b c. ground (arith, keep b c, m b c, m a c))
    ends (err e, g') after fine = absurd (cc fine)

-- The repository's caches are in order, and the votes in the accounts and the producers that it
-- shows mirror each other.
pub record VotesAgree (r : Repository) : Type 0 where
  pub book : Shows r (shown r)
  pub roster : Lists r (listed r)
  pub sorted : Sorted (listed r)
  pub mirror : Mirror (shown r) (listed r)

pub agree :
    (r : Repository) (f : Book) (g : Roster)
    → Shows r f
    → Lists r g
    → Sorted g
    → Mirror f g
    → VotesAgree r
agree r f g s l so m = record {
  book = record {
    sound = s.sound;
    keyed = s.keyed;
    shows = λ j. refl;
    lives = λ j. subst (λ v. is_empty v ≡ false → v.alive ≡ true) (sym (s.shows j)) (s.lives j);
  };
  roster = record { sound = l.sound; keyed = l.keyed; lists = λ j. refl };
  sorted = λ c. subst (λ p. Above 0 p.voters) (sym (l.lists c)) (so c);
  mirror = λ a c.
      ap (λ (v : Account). lookup c v.candidates) (s.shows a)
      ∙ m a c
      ∙ sym (ap (λ (p : Producer). lookup a p.voters) (l.lists c));
}

-- Where what every account records for a producer is what the producer records for the account, the
-- caches being sound and the voters' keys in order, that holds still after a vote that goes through.
pub vote_increase-VotesAgree :
    (voter candidate value : ℕ) (r : Repository)
    → VotesAgree r
    → (vote_increase voter candidate value r).0 ≡ ok tt
    → VotesAgree (vote_increase voter candidate value r).1
vote_increase-VotesAgree voter candidate value r v done =
    let (same, s', l') =
      vote_increase-Refines voter candidate value r (shown r) (listed r) v.book v.roster in
    agree _ _ _ s' l' (spec_vote-Sorted voter candidate value (shown r) (listed r) v.sorted)
      (spec_vote-Mirror voter candidate value (shown r) (listed r) v.mirror (sym same ∙ done))

-- Where what every account records for a producer is what the producer records for the account, the
-- caches being sound and the voters' keys in order, that holds still after `clearVote` goes through.
pub clear_vote-VotesAgree :
    (a : ℕ) (r : Repository)
    → VotesAgree r
    → (clear_vote a r).0 ≡ ok tt
    → VotesAgree (clear_vote a r).1
clear_vote-VotesAgree a r v done =
    let (same, s', l') = clear_vote-Refines a r (shown r) (listed r) v.book v.roster in
    let (so, m) = spec_clear-Mirror a (shown r) (listed r) v.sorted v.mirror (sym same ∙ done) in
    agree _ _ _ s' l' so m
