-- ===== src/Key/Prefix.antt =====
-- The common prefix of two keys from a depth on.
use hybrid_heterogeneous_mem.Prelude.{
  ℕ, zero, suc, ◌+◌, ◌-◌, ◌≤◌, ◌<◌, ◌≡◌, ◌≢◌, refl, some, length, get_or, ℕ_discrete,
  get_elem?-get_or, arith, inl, inr, Bool-cases, le→leb, ◌==◌, ==_iff,
}
use hybrid_heterogeneous_mem.Key.{Key, IsKey, get_partial, lcp_loop, longest_common_prefix}

-- The partial key as a number, for a depth within the key.
unfoldable pub partial : Key → ℕ → ℕ
partial key zero = 0
partial key (suc i) = get_or key i 0

-- No depth up to the length of the key is out of range.
pub get_partial-partial : (k : Key) (d : ℕ) → d ≤ length k → get_partial k d ≡ some (partial k d)
unfolding get_partial partial
get_partial-partial k zero h = refl
get_partial-partial k (suc i) h = get_elem?-get_or k i 0 h

-- Equal partial keys from `lo` up to, and not at, `hi`.
abbrev Agree : Key → Key → ℕ → ℕ → Type 0
Agree k1 k2 lo hi = (j : ℕ) → lo ≤ j → j < hi → partial k1 j ≡ partial k2 j

Agree-suc :
    (k1 k2 : Key) (lo hi : ℕ)
    → Agree k1 k2 lo hi
    → partial k1 hi ≡ partial k2 hi
    → Agree k1 k2 lo (hi + 1)
Agree-suc k1 k2 lo hi a e j p q = elim (ℕ_discrete j hi) [
  | yes same ↦ rw same e
  | no other ↦ a j p (omega arith)
]

module _ (k1 k2 : Key) (h1 : IsKey k1) (h2 : IsKey k2) (depth : ℕ) where
  abbrev Result : ℕ → Type 0
  Result idx =
      (idx ≤ 9 - depth)
      × Agree k1 k2 depth (depth + idx)
      × (depth + idx ≤ 8 → partial k1 (depth + idx) ≢ partial k2 (depth + idx))

  lcp_loop-Result :
      (rounds idx : ℕ)
      → depth ≤ 8
      → depth + idx + rounds ≡ 9
      → Agree k1 k2 depth (depth + idx)
      → (r : ℕ) × (lcp_loop k1 k2 depth idx rounds ≡ some r) × Result r
  unfolding lcp_loop
  lcp_loop-Result zero idx le e a = (idx, refl, (omega arith, a, λ x. absurd (omega arith)))
  lcp_loop-Result (suc rounds) idx le e a =
      let p1 = get_partial-partial k1 (depth + idx) (omega (arith, h1.size)) in
      let p2 = get_partial-partial k2 (depth + idx) (omega (arith, h2.size)) in
      elim (Bool-cases (partial k1 (depth + idx) == partial k2 (depth + idx))) [
        | inl same ↦
            let (r, run, res) = lcp_loop-Result rounds (idx + 1) le (omega arith) (λ j p q.
              Agree-suc k1 k2 depth (depth + idx) a ((==_iff _ _).0 same) j p (omega arith)) in
            (r, rw (p1, p2, same, lcp_loop) run, res)
        | inr other ↦ (idx, rw (p1, p2, other, lcp_loop), (omega arith, a, λ _. ground arith))
      ]

  -- From a depth within the key the common prefix is found without a fault: the partial keys agree
  -- on its length, at most to the end of the key, and differ right behind it if the key goes on.
  pub longest_common_prefix_lem :
      depth ≤ 8
      → (idx : ℕ) × (longest_common_prefix k1 k2 depth ≡ some idx)
        × (idx ≤ 9 - depth)
        × ((j : ℕ) → depth ≤ j → j < depth + idx → get_partial k1 j ≡ get_partial k2 j)
        × (depth + idx ≤ 8 → get_partial k1 (depth + idx) ≢ get_partial k2 (depth + idx))
  unfolding longest_common_prefix
  longest_common_prefix_lem le =
      let (idx, run, (short, agree, stop)) =
        lcp_loop-Result (8 - depth + 1) 0 le (omega arith) (λ j p q. absurd (omega arith)) in
      let at1 = λ (j : ℕ) (b : j ≤ 8). get_partial-partial k1 j (omega (arith, h1.size)) in
      let at2 = λ (j : ℕ) (b : j ≤ 8). get_partial-partial k2 j (omega (arith, h2.size)) in
      (
        idx,
        rw (le→leb depth 8 le) run,
        short,
        λ j p q. rw (at1 j (omega arith), at2 j (omega arith), agree j p q),
        λ b e. let e' = rw (at1 (depth + idx) b, at2 (depth + idx) b) at e in stop b (cc),
      )
