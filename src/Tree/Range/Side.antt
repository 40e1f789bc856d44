-- ===== src/Tree/Range/Side.antt =====
-- How a key lies to a bound of a range query, by the first byte in which they differ.
use hybrid_heterogeneous_mem.Prelude.{
  ℕ, ◌+◌, ◌-◌, ◌≤◌, ◌<◌, ◌≡◌, ◌≢◌, refl, sym, ap, ◌∙◌, subst, Bool, true, false, some, ◌==◌, ==_iff,
  if◌then◌else◌, get_or, arith, Bool-cases, inl, inr, ℕ_discrete, dec_lt,
}
use hybrid_heterogeneous_mem.Key.{Key, IsKey}
use hybrid_heterogeneous_mem.Key.Prefix.{partial, get_partial-partial}
use hybrid_heterogeneous_mem.Node.Header.{Header}
use hybrid_heterogeneous_mem.Node.Header.Match.{Follows, mismatch_lem}
use hybrid_heterogeneous_mem.Tree.Range.{State, inside, border, outside, header_state, entry_state}

-- Equal partial keys up to, and not at, `d`.
abbrev pub Agree : Key → Key → ℕ → Type 0
Agree f k d = (j : ℕ) → j < d → partial f j ≡ partial k j

-- How the first `d` partial keys of `k` lie to those of the bound `f`.
pub data Lies (within : ℕ → ℕ → Bool) (f k : Key) (d : ℕ) : State → Type 0 where
  at_bound : Agree f k d → Lies within f k d border
  in_bound :
      (i : ℕ)
      → i < d
      → Agree f k i
      → within (partial f i) (partial k i) ≡ true
      → Lies within f k d inside
  behind :
      (i : ℕ)
      → i < d
      → Agree f k i
      → partial k i ≢ partial f i
      → within (partial f i) (partial k i) ≡ false
      → Lies within f k d outside

module _ (within : ℕ → ℕ → Bool) (f k : Key) where
  -- The first difference decides at every depth behind it.
  Lies-later :
      (d d' : ℕ) (i : ℕ) (b : Bool)
      → i < d'
      → Agree f k i
      → partial k i ≢ partial f i
      → within (partial f i) (partial k i) ≡ b
      → Lies within f k d' (if b then inside else outside)
  Lies-later d d' i true lt agree other test = in_bound i lt agree test
  Lies-later d d' i false lt agree other test = behind i lt agree other test

  pub entry_state_lem :
      (d : ℕ) (s : State)
      → Lies within f k d s
      → Lies within f k (d + 1) (entry_state within (partial f d) (partial k d) s)
  unfolding entry_state
  entry_state_lem d border (at_bound agree) = elim (Bool-cases (partial k d == partial f d)) [
    | inl same ↦ rw same (
        at_bound (λ j lt. elim (ℕ_discrete j d) [
          | yes e ↦ rw e (sym ((==_iff (partial k d) (partial f d)).0 same))
          | no e ↦ agree j (omega arith)
        ]))
    | inr other ↦
        let differ : partial k d ≢ partial f d = ground (arith, other) in
        rw other (
          Lies-later d (d + 1) d (within (partial f d) (partial k d)) (omega arith) agree differ
            refl)
  ]
  entry_state_lem d inside (in_bound i lt agree test) = in_bound i (omega arith) agree test
  entry_state_lem d outside (behind i lt agree other test) = behind i (omega arith) agree other test

  pub header_state_lem :
      (hdr : Header) (s : State)
      → IsKey f
      → hdr.depth + hdr.partial_len ≤ 8
      → Follows k hdr 0 hdr.partial_len
      → Lies within f k hdr.depth s
      → (s' : State) × ((header_state within f hdr s ≡ some s')
          × Lies within f k (hdr.depth + hdr.partial_len) s')
  unfolding header_state
  header_state_lem hdr inside key fit path (in_bound i lt agree test) =
      (inside, (refl, in_bound i (omega arith) agree test))
  header_state_lem hdr outside key fit path (behind i lt agree other test) =
      (outside, (refl, behind i (omega arith) agree other test))
  header_state_lem hdr border key fit path (at_bound agree) =
      let (r, found, le, follows, stop) = mismatch_lem f hdr key fit in
      let up_to : Agree f k (hdr.depth + r) = λ j lt. elim (dec_lt j hdr.depth) [
        | yes early ↦ agree j early
        | no late ↦
            let e : hdr.depth + (j - hdr.depth) ≡ j = omega arith in
            subst (λ x. partial f x ≡ partial k x) e
              (follows (j - hdr.depth) (omega arith) (omega arith)
                ∙ sym (path (j - hdr.depth) (omega arith) (omega arith)))
      ] in
      elim (Bool-cases (r == hdr.partial_len)) [
        | inl all ↦
            let e : r ≡ hdr.partial_len = (==_iff r hdr.partial_len).0 all in
            (
              border,
              (
                rw (header_state, found, all) refl,
                at_bound (subst (λ x. Agree f k (hdr.depth + x)) e up_to),
              ),
            )
        | inr some_left ↦
            let lt : r < hdr.partial_len = omega (arith, not_eq r hdr.partial_len some_left) in
            let byte = path r (omega arith) lt in
            let read = get_partial-partial f (hdr.depth + r) (omega (arith, key.size)) in
            let differ : partial k (hdr.depth + r) ≢ partial f (hdr.depth + r) =
              λ e. stop lt (sym e ∙ byte) in
            let test = within (partial f (hdr.depth + r)) (get_or hdr.partial r 0) in
            (
              (if test then inside else outside),
              (
                rw (header_state, found, some_left, read) refl,
                Lies-later hdr.depth (hdr.depth + hdr.partial_len) (hdr.depth + r) test
                    (omega arith) up_to differ
                    (ap (λ x. within (partial f (hdr.depth + r)) x) byte),
              ),
            )
      ]
    where
      not_eq : (a b : ℕ) → (a == b) ≡ false → a ≢ b
      not_eq a b e = ground (arith, e)

  -- A key that lies to the bound in two ways does not lie within it and behind it.
  pub within-outside :
      ((n : ℕ) → within n n ≡ false)
      → (d d' : ℕ) (s : State) → d ≤ d'
      → Lies within f k d outside
      → Lies within f k d' s
      → s ≢ outside
      → ⊥
  within-outside self d d' outside le (behind i lt agree other test) h kept = kept refl
  within-outside self d d' border le (behind i lt agree other test) (at_bound all) kept =
      other (sym (all i (omega arith)))
  within-outside self d d' inside le (behind i lt agree other test) (in_bound j lt' agree' test')
        kept =
      elim (dec_lt i j) [
        | yes first ↦ other (sym (agree' i first))
        | no late ↦ elim (dec_lt j i) [
          | yes first ↦
              let e = ap (λ x. within x (partial k j)) (agree j first) ∙ self (partial k j) in
              clash (sym test' ∙ e)
          | no same ↦
              let e : i ≡ j = omega arith in
              clash (sym test' ∙ (ap (λ x. within (partial f x) (partial k x)) (sym e) ∙ test))
        ]
      ]
    where
      clash : true ≡ false → ⊥
      clash e = cc
