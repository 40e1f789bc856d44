-- ===== src/RadixCache/Range.antt =====
-- `search_range_from_cache` of src/RadixCache.cpp and src/NormalCache.cpp, which differ only in the search of
-- one key, and `RangeCache` of include/Node.h.
use hybrid_heterogeneous_mem.Prelude.{
  ℕ, zero, suc, ◌+◌, ◌-◌, ◌*◌, ◌^◌, ◌≤◌, ◌<◌, ◌≡◌, refl, sym, ap, ◌∙◌, Bool, true, false, Option,
  none, some, List, [], ◌∷◌, if◌then◌else◌, length, ltb, get_or, arith, Bool-cases, inl, inr,
  ge→ltb, lt→ltb,
}
use native.Mathlib.Nat.{mul-le-mul_right}
use hybrid_heterogeneous_mem.Address.{GlobalAddress, gadd}
use hybrid_heterogeneous_mem.Key.{
  Key, IsKey, AllBytes, plus, key2int, int2key, get_leftmost, get_rightmost,
}
use hybrid_heterogeneous_mem.Key.Value.{
  be_value, be_value-cons, be_value-lt, be_value-nil, key2int-be_value, key2int-lt, int2key-key2int,
}
use hybrid_heterogeneous_mem.Key.Arith.{key2int-plus}
use hybrid_heterogeneous_mem.Node.Entry.{InternalEntry}
use hybrid_heterogeneous_mem.Node.Entry
use hybrid_heterogeneous_mem.Tree.Scan.{lt_key}
use hybrid_heterogeneous_mem.RadixCache.Entry.{CacheEntry}
use hybrid_heterogeneous_mem.RadixCache.Cache.{RadixCache, CacheHit, search_from_cache}

pub record RangeCache : Type 0 where
  pub from : Key
  pub to : Key
  pub e_ptr : GlobalAddress
  pub e : InternalEntry
  pub depth : ℕ
  pub slot : List ℕ
  pub entry : CacheEntry

-- What a hit for a key becomes; an entry is eight bytes.
unfoldable pub range_of : Key → CacheHit → RangeCache
range_of k (slot, entry, i) =
    let p = get_or entry.records i Entry.null in
    record {
      from = if p.is_leaf then k else get_leftmost k entry.depth;
      to = if p.is_leaf then k else get_rightmost k entry.depth;
      e_ptr = gadd entry.addr (8 * i);
      e = p;
      depth = entry.depth;
      slot = slot;
      entry = entry;
    }

-- `if (e)`
unfoldable pub push_range : Key → Option CacheHit → List RangeCache → List RangeCache
unfolding range_of
push_range k none result = result
push_range k (some h) result = range_of k h ∷ result

module _ {C : Type 0} (search : Key → C → Option CacheHit × C) where
  -- The loop over the keys of the range, for `rounds` rounds.
  unfoldable pub search_range : ℕ → Key → Key → C → Option (List RangeCache × C)
  unfolding push_range
  search_range zero k to c = none
  search_range (suc rounds) k to c =
      let (h, c') = search k c in
      let rest = search_range rounds (plus k 1) to c' in
      if lt_key k to
      then elim rest [ none ↦ none | some (result, c'') ↦ some (push_range k h result, c'') ]
      else some ([], c)

  -- The keys of `n` numbers from `m` on, looked up one after the other.
  unfoldable pub look_up : ℕ → ℕ → C → List RangeCache × C
  unfolding push_range
  look_up zero m c = ([], c)
  look_up (suc n) m c =
      let (h, c') = search (int2key m) c in
      let (result, c'') = look_up n (m + 1) c' in (push_range (int2key m) h result, c'')

leading_byte : (p v w x y : ℕ) → v < p → x < y → v + p * x < w + p * y
leading_byte p v w x y small lt =
    omega (arith, mul-le-mul_right {m = x + 1} {n = y} p (omega (arith, lt)), small)

leading :
    (p v w x y : ℕ) (rest : Bool)
    → v < p
    → w < p
    → rest ≡ ltb v w
    → (if ltb x y then true else if ltb y x then false else rest) ≡ ltb (v + p * x) (w + p * y)
leading p v w x y rest hv hw e = elim (Bool-cases (ltb x y)) [
  | inl below ↦
      rw (below, lt→ltb (v + p * x) (w + p * y) (leading_byte p v w x y hv (ground (arith, below))))
        refl
  | inr not_below ↦ elim (Bool-cases (ltb y x)) [
    | inl above ↦
        let less = leading_byte p w v y x hw (ground (arith, above)) in
        rw (not_below, above, ge→ltb (v + p * x) (w + p * y) (omega (arith, less))) refl
    | inr not_above ↦
        let same : x ≡ y = ground (arith, not_below, not_above) in
        rw (not_below, not_above, e, same)
          (elim (Bool-cases (ltb v w)) [
            | inl less ↦
                let less' : v < w = ground (arith, less) in
                rw (less, lt→ltb (v + p * y) (w + p * y) (omega (arith, less'))) refl
            | inr more ↦
                let more' : w ≤ v = ground (arith, more) in
                rw (more, ge→ltb (v + p * y) (w + p * y) (omega (arith, more'))) refl
          ])
  ]
]

-- The order of keys is that of their numbers.
lt_key-be_value :
    (a b : Key)
    → length a ≡ length b
    → AllBytes a
    → AllBytes b
    → lt_key a b ≡ ltb (be_value a) (be_value b)
unfolding lt_key
lt_key-be_value [] [] e ha hb = rw be_value-nil refl
lt_key-be_value [] (y ∷ ys) e ha hb = absurd (omega (arith, e))
lt_key-be_value (x ∷ xs) [] e ha hb = absurd (omega (arith, e))
lt_key-be_value (x ∷ xs) (y ∷ ys) e ha hb =
    let same : length xs ≡ length ys = omega (arith, e) in
    let low = be_value-lt xs ha.1 in
    let high : be_value ys < 256 ^ length xs = rw same (be_value-lt ys hb.1) in
    let rest = lt_key-be_value xs ys same ha.1 hb.1 in
    rw (be_value-cons x xs, be_value-cons y ys, sym same)
      (leading (256 ^ length xs) (be_value xs) (be_value ys) x y (lt_key xs ys) low high rest)

key_order : (a b : Key) → IsKey a → IsKey b → lt_key a b ≡ ltb (key2int a) (key2int b)
key_order a b ha hb =
    lt_key-be_value a b (ha.size ∙ sym hb.size) ha.bytes hb.bytes
    ∙ rw (key2int-be_value a ha, key2int-be_value b hb) refl

module _ {C : Type 0} (search : Key → C → Option CacheHit × C) (to : Key) where
  search_range-stop :
      (rounds : ℕ) (k : Key) (c : C)
      → lt_key k to ≡ false
      → search_range search (suc rounds) k to c ≡ some ([], c)
  unfolding search_range
  search_range-stop rounds k c e = rw e refl

  search_range-step :
      (rounds n : ℕ) (k : Key) (c : C)
      → IsKey k
      → lt_key k to ≡ true
      → search_range search rounds (plus k 1) to (search k c).1
        ≡ some (look_up search n (key2int k + 1) (search k c).1)
      → search_range search (suc rounds) k to c ≡ some (look_up search (suc n) (key2int k) c)
  unfolding search_range look_up
  search_range-step rounds n k c key e rest = rw (e, rest, int2key-key2int k key) refl

  search_range-looks :
      (n : ℕ) (k : Key) (c : C)
      → IsKey k
      → IsKey to
      → n ≡ key2int to - key2int k
      → search_range search (suc n) k to c ≡ some (look_up search n (key2int k) c)
  unfolding look_up
  search_range-looks zero k c hk ht e =
      search_range-stop 0 k c
        (key_order k to hk ht ∙ ge→ltb (key2int k) (key2int to) (omega (arith, e)))
  search_range-looks (suc n) k c hk ht e =
      let (next, number) = key2int-plus k 1 hk in
      let less : key2int k < key2int to = omega (arith, e) in
      let number' : key2int (plus k 1) ≡ key2int k + 1 =
        omega (arith, number, less, key2int-lt to ht) in
      let rest =
        search_range-looks n (plus k 1) (search k c).1 next ht (omega (arith, e, number')) in
      search_range-step (suc n) n k c hk
        (key_order k to hk ht ∙ lt→ltb (key2int k) (key2int to) less)
        (rest ∙ ap (λ m. some (look_up search n m (search k c).1)) number')

-- A range search from one key to another ends in one round more than there are keys in the range, whatever the
-- search of a key does: it has searched each of the keys from the first on and below the second, in their order, and
-- what it found for them is the result in that order.
pub search_range-look_up :
    {C : Type 0} (search : Key → C → Option CacheHit × C) (from to : Key) (c : C)
    → IsKey from
    → IsKey to
    → search_range search (suc (key2int to - key2int from)) from to c
      ≡ some (look_up search (key2int to - key2int from) (key2int from) c)
search_range-look_up search from to c hf ht =
    search_range-looks search to (key2int to - key2int from) from c hf ht refl

-- `search_range_from_cache` of the radix cache.
unfoldable pub search_range_from_cache :
    ℕ → ℕ → Key → Key → RadixCache → Option (List RangeCache × RadixCache)
unfolding search_range
search_range_from_cache rounds now from to c = search_range (search_from_cache now) rounds from to c

-- A range search of the radix cache looks each key of the range up, in their order.
search_range_from_cache-look_up :
    (now : ℕ) (from to : Key) (c : RadixCache)
    → IsKey from
    → IsKey to
    → search_range_from_cache (suc (key2int to - key2int from)) now from to c
      ≡ some (look_up (search_from_cache now) (key2int to - key2int from) (key2int from) c)
unfolding search_range_from_cache
search_range_from_cache-look_up now from to c hf ht =
    search_range-look_up (search_from_cache now) from to c hf ht
