-- ===== src/Wire/Rlp.antt =====
-- The calls of the RLP library (core/RLP.cpp) that the objects make. `Rlp` has its functions as
-- arguments of the model, and `IsRlp` what is documented of them.
use gsenetwork.Prelude.{
  ℕ, ◌^◌, ◌≤◌, ◌<◌, List, [], ◌∷◌, ◌++◌, Option, none, some, ◌≡◌, refl, sym, ◌∙◌, All,
}
use mathlib.Core.List.{append-nil, append_assoc}
use gsenetwork.Prelude.Int.{ℤ, pos, negsuc}

abbrev pub Bytes : Type 0
Bytes = List ℕ

-- What `RLP rlp(data)` is: it throws, `isList()` is false, or it is a list of items, each with its bytes,
-- `rlp[i].data()`.
pub data Parsed : Type 0 where
  broken text : Parsed
  items : List Bytes → Parsed

-- A conversion that throws is `none`.
pub record Rlp : Type 0 where
  -- `appendList(n)`, and the n items behind it, each appended as it is
  pub put_list : List Bytes → Bytes
  -- `<<` of a bool, an enumerator, an unsigned number or a `bigint` made of one
  pub put_number : ℕ → Bytes
  -- `<<` of a `bigint` made of an int64_t
  pub put_int64 : ℤ → Bytes
  -- `<<` of a FixedHash, with its number of bits
  pub put_hash : ℕ → ℕ → Bytes
  -- `<<` of bytes
  pub put_bytes : Bytes → Bytes
  pub parse : Bytes → Parsed
  -- `toInt` of an unsigned type, with its number of bits
  pub get_number : ℕ → Bytes → Option ℕ
  -- `toInt<int64_t>`
  pub get_int64 : Bytes → Option ℤ
  -- `toPositiveInt64`
  pub get_positive : Bytes → Option ℕ
  -- `toHash(RLP::VeryStrict)`
  pub get_hash : ℕ → Bytes → Option ℕ
  -- `toBytes()`
  pub get_bytes : Bytes → Bytes
  -- `size()`: how many bytes an item that is no list holds
  pub get_size : Bytes → ℕ

-- A time that an int64_t holds and that is not before 1970.
abbrev pub IsTime : ℤ → Type 0
IsTime (pos n) = n < 2 ^ 63
IsTime (negsuc n) = ⊥

pub record IsRlp (r : Rlp) : Type 1 where
  -- One item, as `appendRaw` wants it.
  pub IsItem : Bytes → Type 0
  pub list_item : (xs : List Bytes) → All IsItem xs → IsItem (r.put_list xs)
  pub number_item : (n : ℕ) → IsItem (r.put_number n)
  pub int64_item : (t : ℤ) → IsItem (r.put_int64 t)
  pub hash_item : (w h : ℕ) → IsItem (r.put_hash w h)
  pub bytes_item : (b : Bytes) → IsItem (r.put_bytes b)
  pub parse_list : (xs : List Bytes) → All IsItem xs → r.parse (r.put_list xs) ≡ items xs
  -- No bytes at all are the null node, which is no list.
  pub null : r.parse [] ≡ text
  pub number : (w n : ℕ) → n < 2 ^ w → r.get_number w (r.put_number n) ≡ some n
  pub int64 : (t : ℤ) → IsTime t → r.get_int64 (r.put_int64 t) ≡ some t
  -- `toPositiveInt64` throws at what an int64_t takes for a negative number.
  pub positive : (n : ℕ) → n < 2 ^ 63 → r.get_positive (r.put_number n) ≡ some n
  pub negative : (n : ℕ) → 2 ^ 63 ≤ n → n < 2 ^ 64 → r.get_positive (r.put_number n) ≡ none
  pub hash : (w h : ℕ) → h < 2 ^ w → r.get_hash w (r.put_hash w h) ≡ some h
  pub bytes : (b : Bytes) → r.get_bytes (r.put_bytes b) ≡ b
  -- A number takes as many bytes as it has, without leading zeros.
  pub small_size : (n : ℕ) → n < 2 ^ 24 → r.get_size (r.put_number n) < 4
  pub four_size : (n : ℕ) → 2 ^ 24 ≤ n → n < 2 ^ 32 → r.get_size (r.put_number n) ≡ 4
  pub hash_size : (h : ℕ) → r.get_size (r.put_hash 256 h) ≡ 32

-- A conversion and what follows it, which does not run when the conversion throws.
infixl 5 ◌>>=◌
abbrev pub ◌>>=◌ : {A B : Type 0} → Option A → (A → Option B) → Option B
none >>= f = none
some a >>= f = f a

-- A loop that appends the bytes of each object.
abbrev pub write_all : {A : Type 0} → (A → Bytes) → List A → List Bytes
write_all write [] = []
write_all write (a ∷ rest) = write a ∷ write_all write rest

module _ {A : Type 0} (read : Bytes → Option A) where
  -- A loop that constructs an object of each item and pushes it; an exception ends the whole.
  unfoldable pub read_all : List Bytes → Option (List A)
  read_all [] = some []
  read_all (x ∷ xs) = do a ← read x; rest ← read_all xs; some (a ∷ rest)

  -- What such a loop has pushed when an exception ends it, or when it is through.
  unfoldable pub read_until : List Bytes → List A → List A
  read_until [] acc = acc
  read_until (x ∷ xs) acc = elim (read x) [ none ↦ acc | some a ↦ read_until xs (acc ++ a ∷ []) ]

module _ {A : Type 0} (write : A → Bytes) (read : Bytes → Option A) (Fits : A → Type 0)
    (back : (a : A) → Fits a → read (write a) ≡ some a) where
  pub read_all-write_all :
      (xs : List A) → All Fits xs → read_all read (write_all write xs) ≡ some xs
  unfolding read_all
  read_all-write_all [] h = refl
  read_all-write_all (x ∷ xs) (h, hs) = rw (back x h, read_all-write_all xs hs)

  pub read_until-write_all :
      (xs acc : List A) → All Fits xs → read_until read (write_all write xs) acc ≡ acc ++ xs
  unfolding read_until
  read_until-write_all [] acc h = sym (append-nil acc)
  read_until-write_all (x ∷ xs) acc (h, hs) =
      rw (back x h) (read_until-write_all xs (acc ++ x ∷ []) hs ∙ append_assoc acc (x ∷ []) xs)

pub All-write_all :
    {A : Type 0} (write : A → Bytes) (P : Bytes → Type 0)
    → ((a : A) → P (write a))
    → (xs : List A) → All P (write_all write xs)
All-write_all write P h [] = tt
All-write_all write P h (x ∷ xs) = (h x, All-write_all write P h xs)
