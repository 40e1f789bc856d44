-- ===== src/BitMap/Tests.antt =====
-- A bitmap of one word, whose first three positions are taken.
use hybrid_heterogeneous_mem.Prelude.{◌≡◌, refl, true, false, [], ◌∷◌, replicate}
use hybrid_heterogeneous_mem.BitMap.{
  BitMap, get_bit, set_bit, first_zero, set_zero_from, set_zero_pos,
}
use hybrid_heterogeneous_mem.BitMap.Free.{set_zero_pos_lem}

abbrev three_taken : BitMap
three_taken = (true ∷ true ∷ true ∷ replicate 61 false) ∷ []

abbrev four_taken : BitMap
four_taken = (true ∷ true ∷ true ∷ true ∷ replicate 60 false) ∷ []

set_zero_pos_lem_example : (get_bit 3 three_taken ≡ false) × (four_taken ≡ set_bit 3 three_taken)
unfolding set_zero_pos set_zero_from first_zero
set_zero_pos_lem_example = set_zero_pos_lem three_taken four_taken 3 (refl, tt) refl
