-- ===== src/RadixCache/Header.antt =====
-- The walk over a header, as the bytes that stand behind it.
use hybrid_heterogeneous_mem.Prelude.{
  ℕ, suc, ◌+◌, ◌≡◌, refl, sym, ap, subst, Bool, true, false, ◌&&◌, Option, none, some, List, [],
  ◌∷◌, ◌++◌, ◌==◌, ==_iff, if◌then◌else◌, length, take, drop, arith, Bool-cases, inl, inr,
}
use hybrid_heterogeneous_mem.LockTable.Slot.{eq_key}
use hybrid_heterogeneous_mem.RadixCache.Node.{Parse, split, passed, out, parse, but_last, last_byte}

-- The byte behind a header, and the bytes behind that.
unfoldable pub strip : List ℕ → List ℕ → Option (ℕ × List ℕ)
strip [] p = none
strip (y ∷ ys) [] = some (y, ys)
strip (y ∷ ys) (x ∷ xs) = if y == x then strip ys xs else none

unfoldable pub passed_of : Parse → Option (ℕ × List ℕ)
passed_of (split i x y later) = none
passed_of (passed y later) = some (y, later)
passed_of out = none

pub parse-strip : (t p : List ℕ) (j : ℕ) → passed_of (parse t p j) ≡ strip t p
unfolding parse strip passed_of
parse-strip [] p j = refl
parse-strip (y ∷ ys) [] j = refl
parse-strip (y ∷ []) (x ∷ xs) j = ground arith
parse-strip (y ∷ z ∷ ys) (x ∷ xs) j = ground (arith, parse-strip (z ∷ ys) xs (j + 1))

-- What stands behind a header that goes on with a byte and more.
abbrev pub cut : ℕ → List ℕ → Option (ℕ × List ℕ) → Option (ℕ × List ℕ)
cut x xs none = none
cut x xs (some (b, l)) = if b == x then strip l xs else none

pub strip-append :
    (t q : List ℕ) (x : ℕ) (xs : List ℕ) → strip t (q ++ x ∷ xs) ≡ cut x xs (strip t q)
unfolding strip
strip-append [] [] x xs = refl
strip-append [] (u ∷ q) x xs = refl
strip-append (y ∷ ys) [] x xs = refl
strip-append (y ∷ ys) (u ∷ q) x xs = elim (Bool-cases (y == u)) [
  | inl same ↦ rw same (strip-append ys q x xs)
  | inr other ↦ rw other refl
]

-- Whether a byte, and the bytes behind it, are what stands behind a header.
abbrev pub eq_behind : ℕ → List ℕ → Option (ℕ × List ℕ) → Bool
eq_behind y later none = false
eq_behind y later (some (b, l)) = y == b && eq_key later l

-- The byte array of `q`, `y` and `later` is a key that has `q` in front, then `y`, then `later`.
pub eq_key-strip :
    (q : List ℕ) (y : ℕ) (later t : List ℕ)
    → eq_key (q ++ y ∷ later) t ≡ eq_behind y later (strip t q)
unfolding strip eq_key
eq_key-strip [] y later [] = refl
eq_key-strip [] y later (b ∷ l) = refl
eq_key-strip (u ∷ q) y later [] = refl
eq_key-strip (u ∷ q) y later (b ∷ l) = elim (Bool-cases (b == u)) [
  | inl same ↦
      let back : (u == b) ≡ true = (==_iff u b).1 (sym ((==_iff b u).0 same)) in
      rw (same, back) (eq_key-strip q y later l)
  | inr other ↦ let back : (u == b) ≡ false = ground (arith, other) in rw (other, back) refl
]

-- What a walk that passes a header, or stops in it, says of the array and of the header.
pub parse-passed :
    (rest p : List ℕ) (j y : ℕ) (later : List ℕ)
    → parse rest p j ≡ passed y later
    → rest ≡ p ++ y ∷ later
unfolding parse
parse-passed [] p j y later e = cc
parse-passed (b ∷ bs) [] j y later e = cc
parse-passed (b ∷ []) (x ∷ xs) j y later e = cc
parse-passed (b ∷ c ∷ bs) (x ∷ xs) j y later e =
    ground (arith, parse-passed (c ∷ bs) xs (j + 1) y later)

pub parse-split :
    (rest p : List ℕ) (j i x y : ℕ) (later : List ℕ)
    → parse rest p j ≡ split i x y later
    → (q : List ℕ) × (xs : List ℕ) × ((p ≡ q ++ x ∷ xs)
        × (rest ≡ q ++ y ∷ later)
        × (i ≡ j + length q)
        × ((x == y) ≡ true → later ≡ []))
unfolding parse
parse-split [] p j i x y later e = absurd cc
parse-split (b ∷ bs) [] j i x y later e = absurd cc
parse-split (b ∷ []) (u ∷ us) j i x y later e =
    ([], us, (ground (arith, e), ground (arith, e), ground (arith, e), λ h. ground (arith, e)))
parse-split (b ∷ c ∷ bs) (u ∷ us) j i x y later e = elim (Bool-cases (b == u)) [
  | inl same ↦
      let (q, xs, (hp, hr, hi, last)) =
        parse-split (c ∷ bs) us (j + 1) i x y later (rw same at e) in
      (u ∷ q, xs, (rw hp refl, rw ((==_iff b u).0 same, hr) refl, omega (arith, hi), last))
  | inr other ↦ (
    [],
    us,
    (
      ground (arith, e, other),
      ground (arith, e, other),
      ground (arith, e, other),
      λ h. ground (arith, e, other, h),
    ),
  )
]

pub take-length : (q r : List ℕ) → take (length q) (q ++ r) ≡ q
take-length [] r = refl
take-length (x ∷ q) r = ap (λ l. x ∷ l) (take-length q r)

pub drop-length : (q : List ℕ) (x : ℕ) (xs : List ℕ) → drop (length q + 1) (q ++ x ∷ xs) ≡ xs
drop-length [] x xs = refl
drop-length (u ∷ q) x xs =
    let step : suc (length q + 1) ≡ suc (length q) + 1 = omega arith in
    subst (λ k. drop k (u ∷ (q ++ x ∷ xs)) ≡ xs) step (drop-length q x xs)

pub last-of : (x : ℕ) (xs : List ℕ) → but_last (x ∷ xs) ++ last_byte (x ∷ xs) ∷ [] ≡ x ∷ xs
unfolding but_last last_byte
last-of x [] = refl
last-of x (y ∷ ys) = ap (λ l. x ∷ l) (last-of y ys)
