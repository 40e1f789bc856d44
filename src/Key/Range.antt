-- ===== src/Key/Range.antt =====
-- The bounds of the keys below an entry: the leftmost and the rightmost key with a prefix.
use hybrid_heterogeneous_mem.Prelude.{
  ℕ, zero, suc, ◌+◌, ◌-◌, ◌*◌, ◌^◌, ◌≤◌, ◌<◌, ◌≡◌, ◌↔◌, sym, ap, ◌∙◌, List, [], ◌∷◌, ◌++◌, reverse,
  reverse-append, length, length-reverse, length-append, length-take, length-drop, length-replicate,
  take, drop, replicate, take-append-drop, arith,
}
use native.Mathlib.Nat.{le_antisymm, pow-suc, mul-le-mul_left}
use native.Mathlib.Decide.{dec_lt}
use hybrid_heterogeneous_mem.Key.{Key, AllBytes, IsKey, key2int, get_leftmost, get_rightmost}
use hybrid_heterogeneous_mem.Key.Value.{
  le_value, be_value, be_value-nil, be_value-cons, be_value-lt, be_value-injective, le_value-append,
  AllBytes-append, key2int-be_value,
}

pub AllBytes-take : (d : ℕ) (xs : List ℕ) → AllBytes xs → AllBytes (take d xs)
AllBytes-take zero xs h = tt
AllBytes-take (suc d) [] h = tt
AllBytes-take (suc d) (x ∷ xs) h = (h.0, AllBytes-take d xs h.1)

AllBytes-drop : (d : ℕ) (xs : List ℕ) → AllBytes xs → AllBytes (drop d xs)
AllBytes-drop zero xs h = h
AllBytes-drop (suc d) [] h = tt
AllBytes-drop (suc d) (x ∷ xs) h = AllBytes-drop d xs h.1

pub AllBytes-replicate : (n c : ℕ) → c < 256 → AllBytes (replicate n c)
AllBytes-replicate zero c h = tt
AllBytes-replicate (suc n) c h = (h, AllBytes-replicate n c h)

be_value-append :
    (xs ys : List ℕ) → be_value (xs ++ ys) ≡ be_value ys + 256 ^ length ys * be_value xs
unfolding be_value
be_value-append xs ys =
    ap le_value (reverse-append xs ys)
    ∙ le_value-append (reverse ys) (reverse xs)
    ∙ rw (length-reverse ys)

length-pad : (n c : ℕ) → length (replicate n c) ≡ n
length-pad n c = length-replicate n c

be_value-zeros : (n : ℕ) → be_value (replicate n 0) ≡ 0
be_value-zeros zero = be_value-nil
be_value-zeros (suc n) = omega (arith, be_value-cons 0 (replicate n 0), be_value-zeros n)

be_value-ones : (n : ℕ) → be_value (replicate n 255) + 1 ≡ 256 ^ n
be_value-ones zero = omega (arith, be_value-nil)
be_value-ones (suc n) =
    rw (be_value-cons 255 (replicate n 255), length-pad n 255, pow-suc 256 n)
      (omega (arith, be_value-ones n))

-- Two numbers in base `p` with the same leading part, and a remainder each.
leading_le : (a b p r : ℕ) → r < p → p * a ≤ r + p * b → a ≤ b
leading_le a b p r small h = elim (dec_lt b a) [
  | yes lt ↦ absurd (omega (arith, mul-le-mul_left p lt))
  | no ge ↦ omega arith
]

module _ (k : Key) (d : ℕ) (h : IsKey k) (le : d ≤ 8) where
  pad : ℕ → Key
  pad c = take d k ++ replicate (length k - d) c

  pad-IsKey : (c : ℕ) → c < 256 → IsKey (pad c)
  unfolding pad
  pad-IsKey c small = record {
    size = omega (
      arith,
      h.size,
      length-append (take d k) (replicate (length k - d) c),
      length-take d k,
      length-replicate (length k - d) c,
    );
    bytes =
        AllBytes-append (take d k) (replicate (length k - d) c) (AllBytes-take d k h.bytes)
          (AllBytes-replicate (length k - d) c small);
  }

  pub get_leftmost-IsKey : IsKey (get_leftmost k d)
  unfolding get_leftmost pad
  get_leftmost-IsKey = pad-IsKey 0 (omega arith)

  pub get_rightmost-IsKey : IsKey (get_rightmost k d)
  unfolding get_rightmost pad
  get_rightmost-IsKey = pad-IsKey 255 (omega arith)

  leftmost_value : key2int (get_leftmost k d) ≡ 256 ^ (length k - d) * be_value (take d k)
  unfolding get_leftmost
  leftmost_value =
      key2int-be_value (get_leftmost k d) get_leftmost-IsKey
      ∙ be_value-append (take d k) (replicate (length k - d) 0)
      ∙ rw (be_value-zeros, length-pad (length k - d) 0) (omega arith)

  rightmost_value :
      key2int (get_rightmost k d) + 1
      ≡ 256 ^ (length k - d) + 256 ^ (length k - d) * be_value (take d k)
  unfolding get_rightmost
  rightmost_value =
      let v = be_value-append (take d k) (replicate (length k - d) 255) in
      omega (
        arith,
        key2int-be_value (get_rightmost k d) get_rightmost-IsKey,
        rw (length-pad (length k - d) 255) at v,
        be_value-ones (length k - d),
      )

  -- The number of a key: its first `d` bytes in front of the number of the others.
  split_value :
      (q : Key)
      → IsKey q
      → (r : ℕ) × (r < 256 ^ (length k - d))
        × (key2int q ≡ r + 256 ^ (length k - d) * be_value (take d q))
  split_value q w =
      let same : length (drop d q) ≡ length k - d =
        omega (arith, length-drop d q, h.size, w.size) in
      (
        be_value (drop d q),
        rw same at (be_value-lt (drop d q) (AllBytes-drop d q w.bytes)),
        key2int-be_value q w
            ∙ ap be_value (sym (take-append-drop d q))
            ∙ be_value-append (take d q) (drop d q)
            ∙ rw same,
      )

  take_eq : (q : Key) → IsKey q → be_value (take d q) ≡ be_value (take d k) → take d q ≡ take d k
  take_eq q w e =
      be_value-injective (take d q) (take d k) (AllBytes-take d q w.bytes)
        (AllBytes-take d k h.bytes)
        (omega (arith, length-take d q, length-take d k, h.size, w.size)) e

-- Between the leftmost and the rightmost key of a depth stand exactly the keys that share the
-- first `depth` bytes.
pub get_leftmost-get_rightmost :
    (k : Key) (depth : ℕ) (q : Key)
    → IsKey k
    → depth ≤ 8
    → IsKey q
    → ((key2int (get_leftmost k depth) ≤ key2int q) × (key2int q ≤ key2int (get_rightmost k depth)))
      ↔ (take depth q ≡ take depth k)
get_leftmost-get_rightmost k d q h le w =
    let (r, small, e) = split_value k d h le q w in
    let p : ℕ = 256 ^ (length k - d) in
    (
      λ b. take_eq k d h le q w (
          le_antisymm
            (leading_le _ _ p (p - 1) (omega (arith, small))
              (omega (arith, b.1, e, rightmost_value k d h le)))
            (leading_le _ _ p r small (omega (arith, b.0, e, leftmost_value k d h le)))),
      λ e'. (
        omega (arith, e, leftmost_value k d h le, ap (λ t. p * be_value t) e'),
        omega (arith, e, rightmost_value k d h le, small, ap (λ t. p * be_value t) e'),
      ),
    )
