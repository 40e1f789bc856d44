-- ===== src/BitMap.antt =====
-- include/Bitmap.h: a bitmap in words of 64 bits, each written as the list of its bits from the lowest.
pub mod Free
pub mod Tests
use hybrid_heterogeneous_mem.Prelude.{
  ℕ, ◌+◌, ◌*◌, ◌/◌, ◌%◌, Bool, true, false, Option, none, some, List, [], ◌∷◌, get_or, set,
  replicate,
}

-- A `uint64_t`.
abbrev pub Word : Type 0
Word = List Bool

abbrev pub BitMap : Type 0
BitMap = List Word

unfoldable pub make_bit_map : ℕ → BitMap
make_bit_map n = replicate (n / 64) (replicate 64 false)

unfoldable pub get_bit : ℕ → BitMap → Bool
get_bit pos bits = get_or (get_or bits (pos / 64) []) (pos % 64) false

-- `v | (0x1ull << (pos % 64))`
unfoldable pub set_bit : ℕ → BitMap → BitMap
set_bit pos bits = set bits (pos / 64) (set (get_or bits (pos / 64) []) (pos % 64) true)

-- `v & ~(0x1ull << (pos % 64))`
unfoldable pub clear_bit : ℕ → BitMap → BitMap
clear_bit pos bits = set bits (pos / 64) (set (get_or bits (pos / 64) []) (pos % 64) false)

-- `__builtin_ctzll(~v)`, none for `~v` being 0.
unfoldable pub first_zero : Word → Option ℕ
first_zero [] = none
first_zero (false ∷ bs) = some 0
first_zero (true ∷ bs) = elim (first_zero bs) [ none ↦ none | some p ↦ some (p + 1) ]

-- The loop of `setZeroPos` from the word `i` on; `none` is the failing assertion behind it.
unfoldable pub set_zero_from : ℕ → BitMap → Option (ℕ × BitMap)
set_zero_from i [] = none
set_zero_from i (v ∷ vs) =
    let rest = set_zero_from (i + 1) vs in
    elim (first_zero v) [
      | some pos ↦ some (i * 64 + pos, set v pos true ∷ vs)
      | none ↦ elim rest [ none ↦ none | some (p, vs') ↦ some (p, v ∷ vs') ]
    ]

unfoldable pub set_zero_pos : BitMap → Option (ℕ × BitMap)
set_zero_pos bits = set_zero_from 0 bits
