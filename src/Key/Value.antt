-- ===== src/Key/Value.antt =====
-- The number that a key stands for, read from its least significant byte.
use hybrid_heterogeneous_mem.Prelude.{
  ℕ, ◌+◌, ◌*◌, ◌%◌, ◌^◌, ◌≤◌, ◌<◌, ◌≡◌, refl, sym, ap, ap₂, ◌∙◌, List, [], ◌∷◌, ◌++◌, reverse,
  reverse-append, reverse-reverse, length, length-reverse, arith,
}
use native.Mathlib.Nat.{pow-suc, mul-le-mul_left, mul-le-mul_right, one-le-pow, mod-eq_of_lt}
use hybrid_heterogeneous_mem.Key.{Key, AllBytes, IsKey, key2int_from, key2int, int2key}

-- The least significant byte first.
unfoldable pub le_value : List ℕ → ℕ
le_value [] = 0
le_value (p ∷ ps) = p + 256 * le_value ps

-- The most significant byte first, and no wrap-around.
unfoldable pub be_value : List ℕ → ℕ
unfolding le_value
be_value key = le_value (reverse key)

pub AllBytes-append : (xs ys : List ℕ) → AllBytes xs → AllBytes ys → AllBytes (xs ++ ys)
AllBytes-append [] ys h k = k
AllBytes-append (x ∷ xs) ys h k = (h.0, AllBytes-append xs ys h.1 k)

pub AllBytes-reverse : (xs : List ℕ) → AllBytes xs → AllBytes (reverse xs)
AllBytes-reverse [] h = tt
AllBytes-reverse (x ∷ xs) h =
    rw (reverse-append (x ∷ []) xs)
      (AllBytes-append (reverse xs) (x ∷ []) (AllBytes-reverse xs h.1) (h.0, tt))

pub le_value-append :
    (xs ys : List ℕ) → le_value (xs ++ ys) ≡ le_value xs + 256 ^ length xs * le_value ys
unfolding le_value
le_value-append [] ys = omega arith
le_value-append (x ∷ xs) ys = rw (le_value-append xs ys, pow-suc 256 (length xs)) (grind arith)

pub le_value-lt : (xs : List ℕ) → AllBytes xs → le_value xs < 256 ^ length xs
unfolding le_value
le_value-lt [] h = omega arith
le_value-lt (x ∷ xs) h = rw (pow-suc 256 (length xs)) (omega (arith, le_value-lt xs h.1))

pub be_value-cons : (x : ℕ) (xs : List ℕ) → be_value (x ∷ xs) ≡ be_value xs + 256 ^ length xs * x
unfolding be_value
be_value-cons x xs =
    ap le_value (reverse-append (x ∷ []) xs)
    ∙ le_value-append (reverse xs) (x ∷ [])
    ∙ rw (length-reverse xs) (omega arith)

pub be_value-nil : be_value [] ≡ 0
unfolding be_value
be_value-nil = refl

pub be_value-lt : (xs : List ℕ) → AllBytes xs → be_value xs < 256 ^ length xs
unfolding be_value
be_value-lt xs h =
    let b = le_value-lt (reverse xs) (AllBytes-reverse xs h) in rw (length-reverse xs) at b

-- A shift by one byte stays in range while the value scaled by the bytes to come does.
step_fits : (res x p m : ℕ) → x < 256 → (res + 1) * (p * 256) ≤ m → (res * 256 + x + 1) * p ≤ m
step_fits res x p m h fits =
    omega (arith, fits, mul-le-mul_right {m = res * 256 + x + 1} p (step_le res x h))
  where
    step_le : (res x : ℕ) → x < 256 → res * 256 + x + 1 ≤ (res + 1) * 256
    step_le res x h = omega arith

lt_of_scaled : (a p m : ℕ) → 1 ≤ p → (a + 1) * p ≤ m → a < m
lt_of_scaled a p m one fits = omega (arith, fits, mul-le-mul_left (a + 1) one)

regroup : (res x p v : ℕ) → (res * 256 + x) * p + v ≡ res * (p * 256) + (v + p * x)
regroup res x p v = omega arith

key2int_from-be_value :
    (res : ℕ) (xs : List ℕ)
    → AllBytes xs
    → (res + 1) * 256 ^ length xs ≤ 2 ^ 64
    → key2int_from res xs ≡ res * 256 ^ length xs + be_value xs
unfolding key2int_from
key2int_from-be_value res [] h fits = omega (arith, be_value-nil)
key2int_from-be_value res (x ∷ xs) h fits =
    let p = 256 ^ length xs in
    let fits' = step_fits res x p (2 ^ 64) h.0 (rw (pow-suc 256 (length xs)) at fits) in
    let small =
      lt_of_scaled (res * 256 + x) p (2 ^ 64) (one-le-pow (length xs) 256 (omega arith)) fits' in
    ap (λ r. key2int_from r xs) (mod-eq_of_lt small)
    ∙ key2int_from-be_value (res * 256 + x) xs h.1 fits'
    ∙ rw (be_value-cons, pow-suc 256 (length xs)) (regroup res x p (be_value xs))

-- On a key the number does not wrap around.
pub key2int-be_value : (k : Key) → IsKey k → key2int k ≡ be_value k
unfolding key2int
key2int-be_value k h = key2int_from-be_value 0 k h.bytes (rw h.size (omega arith)) ∙ omega arith

pub key2int-lt : (k : Key) → IsKey k → key2int k < 2 ^ 64
key2int-lt k h =
    let b = be_value-lt k h.bytes in rw (key2int-be_value k h) (omega (arith, rw h.size at b))

pub int2key-IsKey : (n : ℕ) → IsKey (int2key n)
unfolding int2key
int2key-IsKey n = record { size = refl; bytes = omega arith }

pub be_value-int2key : (n : ℕ) → be_value (int2key n) ≡ n % 2 ^ 64
unfolding int2key be_value
be_value-int2key n = omega arith

-- Byte lists of one length with one value are equal.
le_value-injective :
    (xs ys : List ℕ)
    → AllBytes xs
    → AllBytes ys
    → length xs ≡ length ys
    → le_value xs ≡ le_value ys
    → xs ≡ ys
unfolding le_value
le_value-injective [] [] h k l e = refl
le_value-injective [] (y ∷ ys) h k l e = absurd (omega arith)
le_value-injective (x ∷ xs) [] h k l e = absurd (omega arith)
le_value-injective (x ∷ xs) (y ∷ ys) h k l e =
    ap₂ ◌∷◌ (omega arith) (le_value-injective xs ys h.1 k.1 (omega arith) (omega arith))

pub be_value-injective :
    (xs ys : List ℕ)
    → AllBytes xs
    → AllBytes ys
    → length xs ≡ length ys
    → be_value xs ≡ be_value ys
    → xs ≡ ys
unfolding be_value
be_value-injective xs ys h k l e =
    sym (reverse-reverse xs)
    ∙ ap reverse (
        le_value-injective (reverse xs) (reverse ys) (AllBytes-reverse xs h) (AllBytes-reverse ys k)
          (length-reverse xs ∙ l ∙ sym (length-reverse ys)) e)
    ∙ reverse-reverse ys

-- Writing a 64-bit number as a key and reading it back gives the number.
pub key2int-int2key : (n : ℕ) → n < 2 ^ 64 → key2int (int2key n) ≡ n
key2int-int2key n h =
    key2int-be_value (int2key n) (int2key-IsKey n) ∙ be_value-int2key n ∙ omega arith

-- Reading a key as a number and writing the number back gives the key.
pub int2key-key2int : (k : Key) → IsKey k → int2key (key2int k) ≡ k
int2key-key2int k h =
    let w = int2key-IsKey (key2int k) in
    be_value-injective (int2key (key2int k)) k w.bytes h.bytes (w.size ∙ sym h.size)
      (omega (arith, be_value-int2key (key2int k), key2int-be_value k h, key2int-lt k h))
