-- ===== src/Leaf/Read.antt =====
-- What a call of `read_leaf` ends with.
use hybrid_heterogeneous_mem.Prelude.{
  ℕ, ◌≡◌, refl, Bool, true, false, not, some, List, [], ◌∷◌, ◌++◌, ◌||◌, Bool-cases, inl, inr,
  arith,
}
use hybrid_heterogeneous_mem.Address.{GlobalAddress}
use hybrid_heterogeneous_mem.Key.{Key}
use hybrid_heterogeneous_mem.Leaf.{
  Leaf, is_valid, is_consistent, fix_rev_ptr, sent_first, read_leaf,
}

-- A leaf at which `read_leaf` stops: one that is invalid or consistent.
abbrev pub stops : (Key → ℕ → ℕ) → GlobalAddress → Bool → Leaf → Bool
stops crc p_ptr from_cache leaf = not (is_valid p_ptr from_cache leaf) || is_consistent crc leaf

abbrev pub AllTorn : (Key → ℕ → ℕ) → GlobalAddress → Bool → List Leaf → Type 0
AllTorn crc p_ptr from_cache [] = Unit
AllTorn crc p_ptr from_cache (x ∷ xs) =
    (stops crc p_ptr from_cache x ≡ false) × AllTorn crc p_ptr from_cache xs

-- However many inconsistent but valid leaves the reads see first: the call ends with the first leaf
-- that is invalid or consistent, and its result says whether that leaf is valid.
pub read_leaf_lem :
    (crc : Key → ℕ → ℕ) (p_ptr : GlobalAddress) (from_cache : Bool) (torn images : List Leaf)
    (leaf : Leaf)
    → AllTorn crc p_ptr from_cache torn
    → stops crc p_ptr from_cache leaf ≡ true
    → (cas : List (GlobalAddress × GlobalAddress)) × (read_leaf crc p_ptr from_cache
          (torn ++ leaf ∷ images)
        ≡ some (is_valid p_ptr from_cache leaf, leaf, cas))
unfolding read_leaf sent_first
read_leaf_lem crc p_ptr from_cache [] images leaf h st =
    elim (Bool-cases (is_valid p_ptr from_cache leaf)) [
      | inl valid ↦ elim (Bool-cases (is_consistent crc leaf)) [
        | inl whole ↦ (fix_rev_ptr p_ptr from_cache leaf, rw (valid, whole) refl)
        | inr torn ↦ absurd (ground arith)
      ]
      | inr gone ↦ (fix_rev_ptr p_ptr from_cache leaf, rw gone refl)
    ]
read_leaf_lem crc p_ptr from_cache (x ∷ xs) images leaf (h, hs) st =
    let (cas, e) = read_leaf_lem crc p_ptr from_cache xs images leaf hs st in
    elim (Bool-cases (is_valid p_ptr from_cache x)) [
      | inl valid ↦ elim (Bool-cases (is_consistent crc x)) [
        | inl whole ↦ absurd (ground arith)
        | inr torn ↦ (fix_rev_ptr p_ptr from_cache x ++ cas, rw (valid, torn, e) refl)
      ]
      | inr gone ↦ absurd (ground arith)
    ]
