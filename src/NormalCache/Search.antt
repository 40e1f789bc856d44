-- ===== src/NormalCache/Search.antt =====
-- The loop of `_search` of src/NormalCache.cpp, against the plain loop over the prefixes of a key.
use hybrid_heterogeneous_mem.Prelude.{
  ℕ, zero, suc, ◌-◌, ◌≤◌, ◌<◌, ◌≡◌, refl, sym, ap, ◌∙◌, false, Option, none, some, List, [], ◌==◌,
  length, length-take, take, get_or, arith, fun_ext, Bool-cases, Option-cases, inl, inr,
}
use hybrid_heterogeneous_mem.Key.{Key, IsKey, key2int}
use hybrid_heterogeneous_mem.LockTable.Slot.{eq_key, eq_key→eq}
use hybrid_heterogeneous_mem.Tree.Client.{find_slot}
use hybrid_heterogeneous_mem.RadixCache.Entry.{CacheEntry, is_expired}
use hybrid_heterogeneous_mem.RadixCache.Longest.{hit_at, try_upper}
use hybrid_heterogeneous_mem.RadixCache.Node.{entry_of}
use hybrid_heterogeneous_mem.RadixCache.Cache.{RadixCache}
use hybrid_heterogeneous_mem.RadixCache.Cache
use hybrid_heterogeneous_mem.RadixCache.Reach.{Reach, search-longest}
use hybrid_heterogeneous_mem.RadixCache.Range.{look_up, search_range-look_up}
use hybrid_heterogeneous_mem.NormalCache.{
  held, NormalCache, invalidate_found, invalidate, CacheHit, try_prefix, search_upper,
  search_from_cache, search_range_from_cache,
}
use hybrid_heterogeneous_mem.NormalCache.Slots.{held-set_slot}

-- Setting a slot to null leaves the others.
held-invalidate :
    (slot : List ℕ) (e : CacheEntry) (c : NormalCache) (b : List ℕ)
    → eq_key slot b ≡ false
    → held b (invalidate slot e c).cache_map ≡ held b c.cache_map
unfolding invalidate invalidate_found
held-invalidate slot e c b away = elim (Option-cases (held slot c.cache_map)) [
  | inl missing ↦ rw missing refl
  | inr (found, there) ↦ rw there (elim (Bool-cases (found.id == e.id)) [
    | inl same ↦ rw same (held-set_slot slot none b c.cache_map ∙ rw away refl)
    | inr other ↦ rw other refl
  ])
]

module _ (now : ℕ) (k : Key) where
  prefixes_differ : (i j : ℕ) → IsKey k → i < j → j ≤ 7 → eq_key (take j k) (take i k) ≡ false
  prefixes_differ i j key lt few = elim (Bool-cases (eq_key (take j k) (take i k))) [
    | inl same ↦
        let equal = ap length (eq_key→eq (take j k) (take i k) same) in
        absurd (omega (arith, equal, length-take i k, length-take j k, key.size, lt, few))
    | inr other ↦ other
  ]

  -- The loop looks at no other slots than those of the prefixes.
  try_upper-agree :
      (f g : List ℕ → Option CacheEntry) (n : ℕ)
      → ((i : ℕ) → i ≤ n → f (take i k) ≡ g (take i k))
      → try_upper now k f n ≡ try_upper now k g n
  unfolding try_upper
  try_upper-agree f g zero same = ap (λ o. hit_at now k [] o 0 none) (same 0 (omega arith))
  try_upper-agree f g (suc n) same =
      ap (λ o. hit_at now k (take (suc n) k) o (suc n) (try_upper now k f n))
        (same (suc n) (omega arith))
      ∙ ap (λ o. hit_at now k (take (suc n) k) (g (take (suc n) k)) (suc n) o)
          (try_upper-agree f g n (λ i le. same i (omega (arith, le))))

  -- One round, with what the shorter prefixes give.
  try_prefix-hit_at :
      (j : ℕ) (o : Option CacheEntry) (c : NormalCache)
      (upper : NormalCache → Option CacheHit × NormalCache) (rest : Option CacheHit)
      → (upper c).0 ≡ rest
      → ((e : CacheEntry) → (upper (invalidate (take j k) e c)).0 ≡ rest)
      → (try_prefix now k j o c upper).0 ≡ hit_at now k (take j k) o j rest
  unfolding try_prefix hit_at
  try_prefix-hit_at j none c upper rest here there = here
  try_prefix-hit_at j (some e) c upper rest here there = elim (Bool-cases (is_expired now e)) [
    | inl old ↦ rw (try_prefix, hit_at, old) (there e)
    | inr young ↦ elim (Option-cases (find_slot e.records (get_or k j 0) 0 (length e.records))) [
      | inl missing ↦ rw (try_prefix, hit_at, young, missing) here
      | inr (i, found) ↦ rw (try_prefix, hit_at, young, found) refl
    ]
  ]

  search_upper-try_upper :
      (n : ℕ) (c : NormalCache)
      → IsKey k
      → n ≤ 7
      → (search_upper now k n c).0 ≡ try_upper now k (λ b. held b c.cache_map) n
  unfolding search_upper try_upper
  search_upper-try_upper zero c key few =
      try_prefix-hit_at 0 (held (take 0 k) c.cache_map) c (λ c'. (none, c')) none refl (λ e. refl)
  search_upper-try_upper (suc n) c key few =
      try_prefix-hit_at (suc n) (held (take (suc n) k) c.cache_map) c
        (λ c'. search_upper now k n c') (try_upper now k (λ b. held b c.cache_map) n)
        (search_upper-try_upper n c key (omega (arith, few)))
        (λ e.
          search_upper-try_upper n (invalidate (take (suc n) k) e c) key (omega (arith, few))
          ∙ try_upper-agree (λ b. held b (invalidate (take (suc n) k) e c).cache_map)
              (λ b. held b c.cache_map) n
              (λ i le.
                held-invalidate (take (suc n) k) e c (take i k)
                  (prefixes_differ i (suc n) key (omega (arith, le)) few)))

  pub search_from_cache-try_upper :
      (c : NormalCache)
      → IsKey k
      → (search_from_cache now k c).0 ≡ try_upper now k (λ b. held b c.cache_map) 7
  unfolding search_from_cache
  search_from_cache-try_upper c key = search_upper-try_upper 7 c key (omega arith)

-- After any calls on a new radix cache, and for a page cache that holds the same entries under the same byte
-- arrays, a search of a key at the same time gives the same in both: the slot, the entry and the record, or nothing.
pub search-same :
    {capacity : ℕ} {c : RadixCache} (now : ℕ) (k : Key) (d : NormalCache)
    → Reach capacity c
    → IsKey k
    → ((bytes : List ℕ) → entry_of bytes c.root ≡ held bytes d.cache_map)
    → (Cache.search_from_cache now k c).0 ≡ (search_from_cache now k d).0
search-same {c = c} now k d r key same =
    search-longest now k r key
    ∙ (ap (λ f. try_upper now k f 7) (fun_ext same) ∙ sym (search_from_cache-try_upper now k d key))

-- A range search looks each key of the range up, in their order.
search_range_from_cache-look_up :
    (now : ℕ) (from to : Key) (c : NormalCache)
    → IsKey from
    → IsKey to
    → search_range_from_cache (suc (key2int to - key2int from)) now from to c
      ≡ some (look_up (search_from_cache now) (key2int to - key2int from) (key2int from) c)
unfolding search_range_from_cache
search_range_from_cache-look_up now from to c hf ht =
    search_range-look_up (search_from_cache now) from to c hf ht
