-- ===== src/Key.antt =====
-- include/Key.h: a key is `std::array<uint8_t, keyLen>`, its most significant byte first.
pub mod Value
pub mod Arith
pub mod Range
pub mod Prefix
pub mod Tests
use hybrid_heterogeneous_mem.Prelude.{
  ℕ, zero, suc, ◌+◌, ◌-◌, ◌*◌, ◌/◌, ◌%◌, ◌^◌, ◌<◌, Bool, true, false, Option, none, some, List, [],
  ◌∷◌, ◌++◌, map, reverse, length, get_elem?, set, take, replicate, ltb, leb, ◌==◌, if◌then◌else◌,
  ◌≡◌,
}
use hybrid_heterogeneous_mem.Common.{key_len}

abbrev pub Key : Type 0
Key = List ℕ

abbrev pub AllBytes : List ℕ → Type 0
AllBytes [] = Unit
AllBytes (x ∷ xs) = (x < 256) × AllBytes xs

-- What the type of the array guarantees: eight elements, each a `uint8_t`.
pub record IsKey (k : Key) : Type 0 where
  pub size : length k ≡ key_len
  pub bytes : AllBytes k

-- `key.at(depth - 1)` throws `std::out_of_range` past the end: `none`.
unfoldable pub get_partial : Key → ℕ → Option ℕ
get_partial key zero = some 0
get_partial key (suc i) = get_elem? key i

-- `std::copy` of the first `depth` bytes into a zeroed key.
unfoldable pub get_leftmost : Key → ℕ → Key
get_leftmost key depth = take depth key ++ replicate (length key - depth) 0

unfoldable pub get_rightmost : Key → ℕ → Key
get_rightmost key depth = take depth key ++ replicate (length key - depth) 255

-- The first `depth - 1` bytes, the given byte, and zeros.
unfoldable pub remake_prefix : Key → ℕ → ℕ → Key
remake_prefix key zero diff_partial = replicate key_len 0
remake_prefix key (suc i) diff_partial =
    set (take i key ++ replicate (key_len - i) 0) i diff_partial

-- The loop `for (idx = 0; idx <= max_cmp; ++ idx)` with `rounds` rounds left; `none` if an access
-- is out of range.
unfoldable pub lcp_loop : Key → Key → ℕ → ℕ → ℕ → Option ℕ
unfolding get_partial
lcp_loop k1 k2 depth idx zero = some idx
lcp_loop k1 k2 depth idx (suc rounds) =
    let rest = lcp_loop k1 k2 depth (idx + 1) rounds in
    elim (get_partial k1 (depth + idx)) [
      | none ↦ none
      | some a ↦ elim (get_partial k2 (depth + idx)) [
        | none ↦ none
        | some b ↦ if a == b then rest else some idx
      ]
    ]

-- The `assert` on the depth fails: `none`.
unfoldable pub longest_common_prefix : Key → Key → ℕ → Option ℕ
unfolding lcp_loop
longest_common_prefix k1 k2 depth =
    if leb depth key_len then lcp_loop k1 k2 depth 0 (key_len - depth + 1) else none

-- The three loops below go over `key.at(keyLen - 1 - i)` for `i = 0, 1, …`: over the reversed array.
unfoldable pub add_one_bytes : List ℕ → List ℕ
add_one_bytes [] = []
add_one_bytes (p ∷ ps) = if ltb (p + 1) 256 then (p + 1) ∷ ps else 0 ∷ add_one_bytes ps

unfoldable pub add_one : Key → Key
unfolding add_one_bytes
add_one a = reverse (add_one_bytes (reverse a))

unfoldable pub plus_bytes : ℕ → List ℕ → List ℕ
plus_bytes b [] = []
plus_bytes b (p ∷ ps) =
    if ltb (p + b) 256 then (p + b) ∷ ps else ((p + b) % 256) ∷ plus_bytes ((p + b) / 256) ps

unfoldable pub plus : Key → ℕ → Key
unfolding plus_bytes
plus a b = reverse (plus_bytes b (reverse a))

-- `while(tmp < b) tmp += (1 << 8), carry ++;` on fuel.
unfoldable pub borrow : ℕ → ℕ → ℕ → ℕ → Option ℕ
borrow zero b tmp carry = none
borrow (suc fuel) b tmp carry =
    let rest = borrow fuel b (tmp + 256) (carry + 1) in if ltb tmp b then rest else some carry

-- A `uint8_t` is borrowed for in one round, so two units of fuel are enough.
unfoldable pub minus_bytes : ℕ → List ℕ → Option (List ℕ)
unfolding borrow
minus_bytes b [] = some []
minus_bytes b (p ∷ ps) = if leb b p then some ((p - b) ∷ ps) else elim (borrow 2 b p 0) [
  | none ↦ none
  | some carry ↦ elim (minus_bytes carry ps) [
    | none ↦ none
    | some rest ↦ some ((p + carry * 256 - b) ∷ rest)
  ]
]

unfoldable pub minus : Key → ℕ → Option Key
unfolding minus_bytes
minus a b = elim (minus_bytes b (reverse a)) [ none ↦ none | some r ↦ some (reverse r) ]

-- `(key >> shr) & 255` for `i` counting down: the byte that stands above `i` others. With `keyLen`
-- 8 no shift reaches 64.
unfoldable pub int2key_bytes : ℕ → ℕ → List ℕ
int2key_bytes zero key = []
int2key_bytes (suc i) key = (key / 2 ^ (i * 8) % 256) ∷ int2key_bytes i key

unfoldable pub int2key : ℕ → Key
unfolding int2key_bytes
int2key key = int2key_bytes key_len key

-- `res = (res << 8) + a` on `uint64_t`.
unfoldable pub key2int_from : ℕ → List ℕ → ℕ
key2int_from res [] = res
key2int_from res (a ∷ as') = key2int_from ((res * 256 + a) % 2 ^ 64) as'

unfoldable pub key2int : Key → ℕ
unfolding key2int_from
key2int key = key2int_from 0 key
