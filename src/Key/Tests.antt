-- ===== src/Key/Tests.antt =====
-- Keys of include/Key.h at concrete values.
use hybrid_heterogeneous_mem.Prelude.{
  ℕ, ◌+◌, ◌-◌, ◌%◌, ◌^◌, ◌≤◌, ◌<◌, ◌≡◌, ◌≢◌, ◌↔◌, refl, [], ◌∷◌, some, take, arith,
}
use hybrid_heterogeneous_mem.Key.{
  Key, IsKey, get_partial, get_leftmost, get_rightmost, longest_common_prefix, minus, int2key,
  key2int,
}
use hybrid_heterogeneous_mem.Key.Value.{int2key-key2int}
use hybrid_heterogeneous_mem.Key.Arith.{key2int-minus}
use hybrid_heterogeneous_mem.Key.Range.{get_leftmost-get_rightmost}
use hybrid_heterogeneous_mem.Key.Prefix.{longest_common_prefix_lem}

abbrev near_end : Key
near_end = 7 ∷ 0 ∷ 0 ∷ 0 ∷ 0 ∷ 0 ∷ 255 ∷ 255 ∷ []

abbrev other : Key
other = 7 ∷ 0 ∷ 0 ∷ 9 ∷ 0 ∷ 0 ∷ 0 ∷ 0 ∷ []

near_end-IsKey : IsKey near_end
near_end-IsKey = record { size = refl; bytes = omega arith }

other-IsKey : IsKey other
other-IsKey = record { size = refl; bytes = omega arith }

int2key-key2int_example : int2key (key2int near_end) ≡ near_end
int2key-key2int_example = int2key-key2int near_end near_end-IsKey

key2int-minus_example :
    (r : Key) × (minus other 200 ≡ some r)
    × IsKey r
    × (key2int r ≡ (key2int other + 2 ^ 64 - 200) % 2 ^ 64)
key2int-minus_example = key2int-minus other 200 other-IsKey (omega arith)

get_leftmost-get_rightmost_example :
    ((key2int (get_leftmost near_end 3) ≤ key2int other)
      × (key2int other ≤ key2int (get_rightmost near_end 3)))
    ↔ (take 3 other ≡ take 3 near_end)
get_leftmost-get_rightmost_example =
    get_leftmost-get_rightmost near_end 3 other near_end-IsKey (omega arith) other-IsKey

longest_common_prefix_lem_example :
    (idx : ℕ) × (longest_common_prefix near_end other 1 ≡ some idx)
    × (idx ≤ 9 - 1)
    × ((j : ℕ) → 1 ≤ j → j < 1 + idx → get_partial near_end j ≡ get_partial other j)
    × (1 + idx ≤ 8 → get_partial near_end (1 + idx) ≢ get_partial other (1 + idx))
longest_common_prefix_lem_example =
    longest_common_prefix_lem near_end other near_end-IsKey other-IsKey 1 (omega arith)
