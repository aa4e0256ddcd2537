-- ===== src/Core/Snapshot.antt =====
-- `ProducerSnapshot` of core/Producer.cpp; `ActiveProducerSnapshot` is the same class once more.
pub mod Distinct
use gsenetwork.Prelude.{ℕ, List, [], ◌∷◌, ◌++◌, Bool, true, false, ◌==◌, if◌then◌else◌, length}
use gsenetwork.Prelude.Int.{ℤ}
use gsenetwork.Core.Producer.{Producer, producer_eq}

pub record ProducerSnapshot : Type 0 where
  pub timestamp : ℤ
  pub producers : List Producer

-- The loop of `isExist`.
abbrev pub has_address : ℕ → List Producer → Bool
has_address a [] = false
has_address a (p ∷ ps) = if p.address == a then true else has_address a ps

abbrev pub is_exist : ℕ → ProducerSnapshot → Bool
is_exist a s = has_address a s.producers

abbrev pub size : ProducerSnapshot → ℕ
size s = length s.producers

unfoldable pub add_producer : Producer → ProducerSnapshot → ProducerSnapshot
add_producer p s =
    if is_exist p.address s then s else record s { producers = s.producers ++ p ∷ [] }

-- `std::find` and `erase`: the first equal producer goes.
abbrev pub remove_first : Producer → List Producer → List Producer
remove_first p [] = []
remove_first p (q ∷ qs) = if producer_eq q p then qs else q ∷ remove_first p qs

unfoldable pub delete_producer : Producer → ProducerSnapshot → ProducerSnapshot
delete_producer p s = record s { producers = remove_first p s.producers }

abbrev pub clear : ProducerSnapshot → ProducerSnapshot
clear s = record s { producers = [] }
