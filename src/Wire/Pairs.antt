-- ===== src/Wire/Pairs.antt =====
-- The loops of core/Account.cpp and core/Producer.cpp that write a std::map of votes as one list, each key
-- before its vote, and read it back.
use gsenetwork.Prelude.{
  ℕ, ◌+◌, ◌^◌, ◌<◌, ◌≤◌, List, [], ◌∷◌, ◌++◌, Option, none, some, ◌≡◌, refl, ◌∙◌, All, arith,
}
use mathlib.Core.List.{append-nil, append_assoc}
use gsenetwork.Prelude.Map.{Map, insert, Above}
use gsenetwork.Wire.Rlp.{Bytes, Rlp, IsRlp, ◌>>=◌}

unfoldable pub write_pairs : Rlp → Map ℕ → List Bytes
write_pairs r [] = []
write_pairs r ((k, v) ∷ m) = r.put_hash 160 k ∷ r.put_number v ∷ write_pairs r m

-- `get` is the conversion that the class takes for the votes. A key with nothing behind it throws.
unfoldable pub read_pairs : Rlp → (Bytes → Option ℕ) → List Bytes → Map ℕ → Option (Map ℕ)
read_pairs r get [] m = some m
read_pairs r get (_ ∷ []) m = none
read_pairs r get (x ∷ y ∷ rest) m = do
  k ← r.get_hash 160 x
  v ← get y
  read_pairs r get rest (insert k v m)

-- Keys are addresses, and the votes lie below the bound.
abbrev pub Fit : ℕ → Map ℕ → Type 0
Fit bound m = All (λ (p : ℕ × ℕ). (p.0 < 2 ^ 160) × (p.1 < bound)) m

-- A key above all others goes to the end of the map.
insert_last :
    (b k v : ℕ) (acc rest : Map ℕ)
    → Above b (acc ++ (k, v) ∷ rest)
    → insert k v acc ≡ acc ++ (k, v) ∷ []
insert_last b k v [] rest s = refl
insert_last b k v ((j, w) ∷ acc) rest s =
    ground (arith, insert_last (j + 1) k v acc rest, below (j + 1) k v acc rest s.1)
  where
    below : (b k v : ℕ) (acc rest : Map ℕ) → Above b (acc ++ (k, v) ∷ rest) → b ≤ k
    below b k v [] rest s = s.0
    below b k v ((j, w) ∷ acc) rest s = omega (arith, below (j + 1) k v acc rest s.1)

module _ (r : Rlp) (laws : IsRlp r) where
  pub All-write_pairs : (m : Map ℕ) → All laws.IsItem (write_pairs r m)
  unfolding write_pairs
  All-write_pairs [] = tt
  All-write_pairs ((k, v) ∷ m) = (laws.hash_item 160 k, (laws.number_item v, All-write_pairs m))

  -- What was written is read back, where the conversion takes the votes back.
  pub read_pairs-write_pairs :
      (bound : ℕ) (get : Bytes → Option ℕ)
      → ((n : ℕ) → n < bound → get (r.put_number n) ≡ some n)
      → (m acc : Map ℕ) → Fit bound m
      → Above 0 (acc ++ m)
      → read_pairs r get (write_pairs r m) acc ≡ some (acc ++ m)
  unfolding read_pairs write_pairs
  read_pairs-write_pairs bound get back [] acc h s = rw append-nil
  read_pairs-write_pairs bound get back ((k, v) ∷ m) acc ((hk, hv), hs) s =
      rw (laws.hash 160 k hk, back v hv, insert_last 0 k v acc m s)
        (read_pairs-write_pairs bound get back m (acc ++ (k, v) ∷ []) hs (rw append_assoc s)
          ∙ rw append_assoc)
