-- ===== src/Node/Header/Match.antt =====
-- Headers and the keys that follow their compressed path.
use hybrid_heterogeneous_mem.Prelude.{
  ℕ, zero, suc, ◌+◌, ◌<◌, ◌≤◌, ◌≡◌, ◌≢◌, ◌↔◌, refl, ◌∙◌, Bool, true, false, List, some, get_or, set,
  length, length-set, get_or-set_self, get_or-set_ne, ◌==◌, ==_iff, arith, inl, inr, Bool-cases,
  ℕ_discrete,
}
use hybrid_heterogeneous_mem.Key.{Key, IsKey, get_partial}
use hybrid_heterogeneous_mem.Key.Prefix.{partial, get_partial-partial}
use hybrid_heterogeneous_mem.Node.Header.{
  Header, fill, mismatch_from, mismatch, is_match_from, is_match,
}

-- The key agrees with the header from index `lo` up to, and not at, `hi`.
abbrev pub Follows : Key → Header → ℕ → ℕ → Type 0
Follows k h lo hi = (j : ℕ) → lo ≤ j → j < hi → partial k (h.depth + j) ≡ get_or h.partial j 0

pub Follows-cons :
    (k : Key) (h : Header) (lo hi : ℕ)
    → partial k (h.depth + lo) ≡ get_or h.partial lo 0
    → Follows k h (lo + 1) hi
    → Follows k h lo hi
Follows-cons k h lo hi e f j p q = elim (ℕ_discrete j lo) [
  | yes same ↦ rw same e
  | no other ↦ f j (omega arith) q
]

module _ (k : Key) (h : Header) (w : IsKey k) where
  read : (i : ℕ) → h.depth + i ≤ 8 → get_partial k (h.depth + i) ≡ some (partial k (h.depth + i))
  read i le = get_partial-partial k (h.depth + i) (omega (arith, w.size))

  mismatch_from_lem :
      (i rounds : ℕ)
      → h.depth + i + rounds ≤ 8
      → (r : ℕ) × (mismatch_from k h i rounds ≡ some r)
        × (i ≤ r)
        × (r ≤ i + rounds)
        × Follows k h i r
        × (r < i + rounds → partial k (h.depth + r) ≢ get_or h.partial r 0)
  unfolding mismatch_from
  mismatch_from_lem i zero le =
      (i, refl, omega arith, omega arith, λ j p q. absurd (omega arith), λ p. absurd (omega arith))
  mismatch_from_lem i (suc rounds) le =
      elim (Bool-cases (partial k (h.depth + i) == get_or h.partial i 0)) [
        | inl same ↦
            let (r, run, lo, hi, f, stop) = mismatch_from_lem (i + 1) rounds (omega arith) in
            (
              r,
              rw (read i (omega arith), same, mismatch_from) run,
              omega arith,
              omega arith,
              Follows-cons k h i r ((==_iff _ _).0 same) f,
              λ p. stop (omega arith),
            )
        | inr other ↦ (
          i,
          rw (read i (omega arith), other, mismatch_from),
          omega arith,
          omega arith,
          λ j p q. absurd (omega arith),
          λ p. ground arith,
        )
      ]

  -- For a header that ends within the key, the first byte that differs is found without a fault:
  -- the key follows the header up to it, and differs there unless it is behind the last byte.
  pub mismatch_lem :
      h.depth + h.partial_len ≤ 8
      → (r : ℕ) × (mismatch k h ≡ some r)
        × (r ≤ h.partial_len)
        × Follows k h 0 r
        × (r < h.partial_len → partial k (h.depth + r) ≢ get_or h.partial r 0)
  unfolding mismatch
  mismatch_lem le =
      let (r, run, lo, hi, f, stop) = mismatch_from_lem 0 h.partial_len (omega arith) in
      (r, run, omega arith, f, λ p. stop (omega arith))

  is_match_from_lem :
      (i rounds : ℕ)
      → h.depth + i + rounds ≤ 8
      → (b : Bool) × (is_match_from k h i rounds ≡ some b)
        × ((b ≡ true) ↔ Follows k h i (i + rounds))
  unfolding is_match_from
  is_match_from_lem i zero le = (true, refl, (λ e j p q. absurd (omega arith), λ f. refl))
  is_match_from_lem i (suc rounds) le =
      elim (Bool-cases (partial k (h.depth + i) == get_or h.partial i 0)) [
        | inl same ↦
            let (b, run, iff) = is_match_from_lem (i + 1) rounds (omega arith) in
            (
              b,
              rw (read i (omega arith), same, is_match_from) run,
              (
                λ e.
                    Follows-cons k h i _ ((==_iff _ _).0 same) (λ j p q. iff.0 e j p (omega arith)),
                λ f. iff.1 (λ j p q. f j (omega arith) (omega arith)),
              ),
            )
        | inr other ↦ (
          false,
          rw (read i (omega arith), other, is_match_from),
          (λ e. cc, λ f. ground (arith, f i (omega arith) (omega arith))),
        )
      ]

  -- The test ends without a fault, and passes exactly for the keys that follow the whole header.
  pub is_match_lem :
      h.depth + h.partial_len ≤ 8
      → (b : Bool) × (is_match k h ≡ some b) × ((b ≡ true) ↔ Follows k h 0 h.partial_len)
  unfolding is_match
  is_match_lem le =
      let (b, run, iff) = is_match_from_lem 0 h.partial_len (omega arith) in
      (b, run, (λ e j p q. iff.0 e j p (omega arith), λ f. iff.1 (λ j p q. f j p (omega arith))))

pub fill_lem :
    (k : Key) (depth i rounds : ℕ) (bytes : List ℕ)
    → IsKey k
    → depth + i + rounds ≤ 9
    → i + rounds ≤ length bytes
    → (r : List ℕ) × (fill k depth i rounds bytes ≡ some r)
      × (length r ≡ length bytes)
      × ((j : ℕ) → j < i → get_or r j 0 ≡ get_or bytes j 0)
      × ((j : ℕ) → i ≤ j → j < i + rounds → get_or r j 0 ≡ partial k (depth + j))
unfolding fill
fill_lem k depth i zero bytes w le fits =
    (bytes, refl, refl, λ j p. refl, λ j p q. absurd (omega arith))
fill_lem k depth i (suc rounds) bytes w le fits =
    let b = partial k (depth + i) in
    let (r, run, size, before, after) =
      fill_lem k depth (i + 1) rounds (set bytes i b) w (omega arith)
        (omega (arith, length-set bytes i b)) in
    (
      r,
      rw (get_partial-partial k (depth + i) (omega (arith, w.size)), fill) run,
      size ∙ length-set bytes i b,
      λ j p. before j (omega arith) ∙ get_or-set_ne bytes i j b 0 (λ e. absurd (omega arith)),
      λ j p q. elim (ℕ_discrete j i) [
        | yes same ↦ rw same (before i (omega arith) ∙ get_or-set_self bytes i b 0 (omega arith))
        | no other ↦ after j (omega arith) (omega arith)
      ],
    )
