-- ===== src/Wire/Model.antt =====
-- A code over lists of numbers that keeps the laws of `IsRlp`: each item is its length, a mark for its
-- kind, and what it holds.
use gsenetwork.Prelude.{
  ℕ, zero, suc, ◌+◌, ◌^◌, ◌≤◌, List, [], ◌∷◌, ◌++◌, Option, none, some, ◌≡◌, refl, ap, All, arith,
  ltb, ◌==◌, ◌&&◌, if◌then◌else◌, length, take, length-append,
}
use gsenetwork.Prelude.Int.{ℤ, pos, negsuc}
use gsenetwork.Wire.Rlp.{Bytes, Parsed, text, items, Rlp, IsRlp, IsTime}

abbrev drop : ℕ → Bytes → Bytes
drop zero xs = xs
drop (suc n) [] = []
drop (suc n) (x ∷ xs) = drop n xs

abbrev concat : List Bytes → Bytes
concat [] = []
concat (x ∷ xs) = x ++ concat xs

abbrev item : ℕ → Bytes → Bytes
item mark b = (1 + length b) ∷ mark ∷ b

abbrev split : ℕ → Bytes → List Bytes
split zero b = []
split (suc f) [] = []
split (suc f) (n ∷ b) = (n ∷ take n b) ∷ split f (drop n b)

abbrev parse_item : Bytes → Parsed
parse_item (_ ∷ mark ∷ b) = if mark == 4 then items (split (length b) b) else text
parse_item _ = text

abbrev number_of : ℕ → ℕ → Bytes → Option ℕ
number_of mark bound (_ ∷ k ∷ n ∷ []) = if k == mark && ltb n bound then some n else none
number_of mark bound _ = none

abbrev put_signed : ℤ → Bytes
put_signed (pos n) = item 0 (n ∷ [])
put_signed (negsuc n) = item 1 (n ∷ [])

abbrev signed_of : Bytes → Option ℤ
signed_of b = elim (number_of 0 (2 ^ 63) b) [ none ↦ none | some n ↦ some (pos n) ]

abbrev bytes_of : Bytes → Bytes
bytes_of (_ ∷ _ ∷ b) = b
bytes_of _ = []

abbrev size_of : Bytes → ℕ
size_of (_ ∷ k ∷ n ∷ []) =
    if k == 2 then 32 else if ltb n (2 ^ 24) then 3 else if ltb n (2 ^ 32) then 4 else 8
size_of _ = 0

abbrev pub plain : Rlp
plain = record {
  put_list = λ xs. item 4 (concat xs);
  put_number = λ n. item 0 (n ∷ []);
  put_int64 = put_signed;
  put_hash = λ w h. item 2 (h ∷ []);
  put_bytes = item 3;
  parse = parse_item;
  get_number = λ w. number_of 0 (2 ^ w);
  get_int64 = signed_of;
  get_positive = number_of 0 (2 ^ 63);
  get_hash = λ w. number_of 2 (2 ^ w);
  get_bytes = bytes_of;
  get_size = size_of;
}

abbrev IsWhole : Bytes → Type 0
IsWhole [] = ⊥
IsWhole (n ∷ b) = n ≡ length b

take_front : (b c : Bytes) → take (length b) (b ++ c) ≡ b
take_front [] c = refl
take_front (x ∷ b) c = ap (λ r. x ∷ r) (take_front b c)

drop_front : (b c : Bytes) → drop (length b) (b ++ c) ≡ c
drop_front [] c = refl
drop_front (x ∷ b) c = drop_front b c

split-concat :
    (f : ℕ) (xs : List Bytes) → All IsWhole xs → length (concat xs) ≤ f → split f (concat xs) ≡ xs
split-concat zero [] h le = refl
split-concat zero ([] ∷ xs) h le = absurd h.0
split-concat zero ((n ∷ b) ∷ xs) h le = absurd (omega arith)
split-concat (suc f) [] h le = refl
split-concat (suc f) ([] ∷ xs) h le = absurd h.0
split-concat (suc f) ((n ∷ b) ∷ xs) (e, hs) le =
    rw (e, take_front b (concat xs), drop_front b (concat xs), split-concat f xs hs (short le))
  where
    short : suc (length (b ++ concat xs)) ≤ suc f → length (concat xs) ≤ f
    short h = omega (arith, length-append b (concat xs))

signed_item : (t : ℤ) → IsWhole (put_signed t)
signed_item (pos n) = omega arith
signed_item (negsuc n) = omega arith

signed_back : (t : ℤ) → IsTime t → signed_of (put_signed t) ≡ some t
signed_back (pos n) h = ground arith
signed_back (negsuc n) h = absurd h

pub plain_laws : IsRlp plain
plain_laws = record {
  IsItem = IsWhole;
  list_item = λ xs h. omega arith;
  number_item = λ n. omega arith;
  int64_item = signed_item;
  hash_item = λ w h. omega arith;
  bytes_item = λ b. omega arith;
  parse_list = λ xs h. ap items (split-concat (length (concat xs)) xs h (omega arith));
  null = refl;
  number = λ w n h. ground arith;
  int64 = signed_back;
  positive = λ n h. ground arith;
  negative = λ n low high. ground arith;
  hash = λ w n h. ground arith;
  bytes = λ b. refl;
  small_size = λ n h. ground arith;
  four_size = λ n low high. ground arith;
  hash_size = λ h. refl;
}
