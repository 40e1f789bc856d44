-- ===== src/BitMap/Free.antt =====
-- The positions that `setZeroPos` gives.
use hybrid_heterogeneous_mem.Prelude.{
  ℕ, suc, ◌+◌, ◌*◌, ◌/◌, ◌%◌, ◌<◌, ◌≡◌, ap, sym, ◌∙◌, true, false, some, [], ◌∷◌, get_or, set,
  length, Option-cases, inl, inr, arith,
}
use hybrid_heterogeneous_mem.BitMap.{
  Word, BitMap, get_bit, set_bit, first_zero, set_zero_from, set_zero_pos,
}

-- All words have 64 bits.
abbrev pub AreWords : BitMap → Type 0
AreWords [] = Unit
AreWords (v ∷ vs) = (length v ≡ 64) × AreWords vs

some-eq : {a b : ℕ} → some a ≡ some b → a ≡ b
some-eq e = cc

first_zero_lem :
    (v : Word) (p : ℕ) → first_zero v ≡ some p → (p < length v) × (get_or v p false ≡ false)
unfolding first_zero
first_zero_lem [] p g = cc
first_zero_lem (false ∷ bs) p g =
    let here : 0 ≡ p = some-eq g in (omega arith, ap (λ q. get_or (false ∷ bs) q false) (sym here))
first_zero_lem (true ∷ bs) p g = elim (Option-cases (first_zero bs)) [
  | inl no_zero ↦ absurd (ground (arith, no_zero))
  | inr (q, h) ↦
      let (lt, e) = first_zero_lem bs q h in
      let next : suc q ≡ p = ground (arith, h) in
      (omega arith, ap (λ r. get_or (true ∷ bs) r false) (sym next) ∙ e)
]

-- The bit `q` of word `w` of `vs` is the position `p`, is 0, and is set in `vs'`.
record IsSpot (i : ℕ) (vs : BitMap) (p : ℕ) (vs' : BitMap) : Type 0 where
  w : ℕ
  q : ℕ
  place : p ≡ (i + w) * 64 + q
  low : q < 64
  free : get_or (get_or vs w []) q false ≡ false
  taken : vs' ≡ set vs w (set (get_or vs w []) q true)

set_zero_from_lem :
    (i : ℕ) (vs : BitMap) (p : ℕ) (vs' : BitMap)
    → AreWords vs
    → set_zero_from i vs ≡ some (p, vs')
    → IsSpot i vs p vs'
unfolding set_zero_from
set_zero_from_lem i [] p vs' h g = cc
set_zero_from_lem i (v ∷ vs) p vs' (l, ls) g = elim (Option-cases (first_zero v)) [
  | inr (q, e) ↦
      let (lt, f) = first_zero_lem v q e in
      record {
        w = 0;
        q = q;
        place = ground (arith, e);
        low = omega arith;
        free = f;
        taken = ground (arith, e);
      }
  | inl full ↦ elim (Option-cases (set_zero_from (i + 1) vs)) [
    | inl no_zero ↦ absurd (ground (arith, full, no_zero))
    | inr ((p', rest), e) ↦
        let r = set_zero_from_lem (i + 1) vs p' rest ls e in
        let same : p' ≡ p = ground (arith, full, e) in
        let tail : v ∷ rest ≡ vs' = ground (arith, full, e) in
        record {
          w = suc r.w;
          q = r.q;
          place = omega (arith, r.place, same);
          low = r.low;
          free = r.free;
          taken = sym tail ∙ ap (λ x. v ∷ x) r.taken;
        }
  ]
]

-- Words of 64 bits: the position that `setZeroPos` gives was free, and what the call does is to set
-- that position.
pub set_zero_pos_lem :
    (bits bits' : BitMap) (pos : ℕ)
    → AreWords bits
    → set_zero_pos bits ≡ some (pos, bits')
    → (get_bit pos bits ≡ false) × (bits' ≡ set_bit pos bits)
unfolding set_zero_pos get_bit set_bit
set_zero_pos_lem bits bits' pos h g =
    let r = set_zero_from_lem 0 bits pos bits' h g in
    let w : pos / 64 ≡ r.w = omega (arith, r.place, r.low) in
    let q : pos % 64 ≡ r.q = omega (arith, r.place, r.low) in (rw (w, q) r.free, rw (w, q) r.taken)
