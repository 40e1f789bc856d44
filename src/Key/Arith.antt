-- ===== src/Key/Arith.antt =====
-- The arithmetic of keys agrees with the arithmetic of the 64-bit numbers that they stand for.
use hybrid_heterogeneous_mem.Prelude.{
  ℕ, suc, ◌+◌, ◌-◌, ◌*◌, ◌%◌, ◌/◌, ◌^◌, ◌<◌, ◌≡◌, refl, ap, ◌∙◌, inl, inr, List, [], ◌∷◌, reverse,
  reverse-reverse, some, length, length-reverse, arith, ltb, leb, Bool-cases, false,
}
use native.Mathlib.Nat.{pow-suc}
use hybrid_heterogeneous_mem.Key.{
  Key, AllBytes, IsKey, key2int, add_one_bytes, add_one, plus_bytes, plus, borrow, minus_bytes,
  minus,
}
use hybrid_heterogeneous_mem.Key.Value.{
  le_value, be_value, AllBytes-reverse, key2int-be_value, key2int-lt,
}

-- Byte lists, least significant byte first: `ys` is `xs` with `d` added and `e` taken away, up to
-- multiples of `256 ^ length`.
record IsShifted (d e : ℕ) (xs ys : List ℕ) : Type 0 where
  size : length ys ≡ length xs
  bytes : AllBytes ys
  carry : ℕ
  lent : ℕ
  value : le_value ys + 256 ^ length xs * carry + e ≡ le_value xs + 256 ^ length xs * lent + d

-- One more byte below: the low byte changes by the same amount, less what is carried.
IsShifted-cons :
    (d e d' e' p q : ℕ) (xs ys : List ℕ)
    → IsShifted d' e' xs ys
    → q < 256
    → q + 256 * d' + e ≡ p + 256 * e' + d
    → IsShifted d e (p ∷ xs) (q ∷ ys)
unfolding le_value
IsShifted-cons d e d' e' p q xs ys t small step = record {
  size = ap suc t.size;
  bytes = (small, t.bytes);
  carry = t.carry;
  lent = t.lent;
  value = rw (pow-suc 256 (length xs)) (omega (arith, t.value));
}

IsShifted-stop :
    (d e p q : ℕ) (xs : List ℕ)
    → AllBytes xs
    → q < 256
    → q + e ≡ p + d
    → IsShifted d e (p ∷ xs) (q ∷ xs)
unfolding le_value
IsShifted-stop d e p q xs h small step = record {
  size = refl;
  bytes = (small, h);
  carry = 0;
  lent = 0;
  value = omega arith;
}

-- Past the last byte what is left to add is carried out, and what is left to take is lent.
IsShifted-end : (d e : ℕ) → IsShifted d e [] []
unfolding le_value
IsShifted-end d e = record { size = refl; bytes = tt; carry = d; lent = e; value = omega arith }

add_one_bytes-IsShifted : (xs : List ℕ) → AllBytes xs → IsShifted 1 0 xs (add_one_bytes xs)
unfolding add_one_bytes
add_one_bytes-IsShifted [] h = IsShifted-end 1 0
add_one_bytes-IsShifted (p ∷ ps) h = elim (Bool-cases (ltb (p + 1) 256)) [
  | inl small ↦ rw small (IsShifted-stop 1 0 p (p + 1) ps h.1 (ground arith) (omega arith))
  | inr big ↦ rw big (
      IsShifted-cons 1 0 1 0 p 0 ps _ (add_one_bytes-IsShifted ps h.1) (omega arith) (ground arith))
]

plus_bytes-IsShifted : (b : ℕ) (xs : List ℕ) → AllBytes xs → IsShifted b 0 xs (plus_bytes b xs)
unfolding plus_bytes
plus_bytes-IsShifted b [] h = IsShifted-end b 0
plus_bytes-IsShifted b (p ∷ ps) h = elim (Bool-cases (ltb (p + b) 256)) [
  | inl small ↦ rw small (IsShifted-stop b 0 p (p + b) ps h.1 (ground arith) (omega arith))
  | inr big ↦ rw big (
      IsShifted-cons b 0 ((p + b) / 256) 0 p ((p + b) % 256) ps _
        (plus_bytes-IsShifted ((p + b) / 256) ps h.1) (omega arith) (omega arith))
]

-- A byte is borrowed for in one round.
borrow-one : (b p : ℕ) → b < 256 → leb b p ≡ false → borrow 2 b p 0 ≡ some 1
unfolding borrow
borrow-one b p small less = ground arith

minus_bytes-IsShifted :
    (b : ℕ) (xs : List ℕ)
    → b < 256
    → AllBytes xs
    → (ys : List ℕ) × (minus_bytes b xs ≡ some ys) × IsShifted 0 b xs ys
unfolding minus_bytes
minus_bytes-IsShifted b [] small h = ([], refl, IsShifted-end 0 b)
minus_bytes-IsShifted b (p ∷ ps) small h = elim (Bool-cases (leb b p)) [
  | inl enough ↦
      ((p - b) ∷ ps, rw enough, IsShifted-stop 0 b p (p - b) ps h.1 (ground arith) (ground arith))
  | inr less ↦
      let (ys, run, t) = minus_bytes-IsShifted 1 ps (omega arith) h.1 in
      (
        (p + 1 * 256 - b) ∷ ys,
        rw (less, borrow-one b p small less, run),
        IsShifted-cons 0 b 0 1 p (p + 1 * 256 - b) ps ys t (ground arith) (ground arith),
      )
]

-- A shift of the reversed bytes of a key is a key again, and its number is shifted modulo 2 ^ 64.
IsShifted-key2int :
    (d e : ℕ) (k : Key) (ys : List ℕ)
    → IsKey k
    → e < 2 ^ 64
    → IsShifted d e (reverse k) ys
    → IsKey (reverse ys) × (key2int (reverse ys) ≡ (key2int k + 2 ^ 64 + d - e) % 2 ^ 64)
unfolding be_value
IsShifted-key2int d e k ys h le t =
    let key : IsKey (reverse ys) = record {
      size = length-reverse ys ∙ t.size ∙ length-reverse k ∙ h.size;
      bytes = AllBytes-reverse ys t.bytes;
    } in
    let value : le_value ys + 256 ^ 8 * t.carry + e ≡ le_value (reverse k) + 256 ^ 8 * t.lent + d =
      rw (length-reverse k, h.size) at t.value in
    let number : key2int (reverse ys) ≡ le_value ys =
      key2int-be_value (reverse ys) key ∙ ap le_value (reverse-reverse ys) in
    (key, omega (arith, value, number, key2int-be_value k h, key2int-lt (reverse ys) key))

-- Adding one to a key gives a key, and adds one to its number modulo 2 ^ 64.
pub key2int-add_one :
    (k : Key) → IsKey k → IsKey (add_one k) × (key2int (add_one k) ≡ (key2int k + 1) % 2 ^ 64)
unfolding add_one
key2int-add_one k h =
    let t = add_one_bytes-IsShifted (reverse k) (AllBytes-reverse k h.bytes) in
    let r = IsShifted-key2int 1 0 k _ h (omega arith) t in (r.0, omega (arith, r.1))

-- Adding a byte to a key gives a key, and adds the byte to its number modulo 2 ^ 64.
pub key2int-plus :
    (k : Key) (b : ℕ) → IsKey k → IsKey (plus k b) × (key2int (plus k b) ≡ (key2int k + b) % 2 ^ 64)
unfolding plus
key2int-plus k b h =
    let t = plus_bytes-IsShifted b (reverse k) (AllBytes-reverse k h.bytes) in
    let r = IsShifted-key2int b 0 k _ h (omega arith) t in (r.0, omega (arith, r.1))

-- Taking a byte from a key ends and gives a key, and takes the byte from its number modulo 2 ^ 64.
pub key2int-minus :
    (k : Key) (b : ℕ)
    → IsKey k
    → b < 256
    → (r : Key) × (minus k b ≡ some r) × IsKey r × (key2int r ≡ (key2int k + 2 ^ 64 - b) % 2 ^ 64)
unfolding minus
key2int-minus k b h small =
    let (ys, run, t) = minus_bytes-IsShifted b (reverse k) small (AllBytes-reverse k h.bytes) in
    let r = IsShifted-key2int 0 b k ys h (omega arith) t in
    (reverse ys, rw (run, minus), r.0, omega (arith, r.1))
