-- ===== src/RadixCache/Found.antt =====
-- A page that was just put into the cache is found.
use hybrid_heterogeneous_mem.Prelude.{
  ℕ, zero, suc, ◌+◌, ◌≤◌, ◌≡◌, ◌≢◌, refl, sym, ap, ◌∙◌, false, Option, none, some, List, [], ◌==◌,
  ltb, length, take, get_or, arith, Bool-cases, Option-cases, inl, inr, ◌⊎◌, ◌<◌, subst, ℕ_discrete,
  length-take, ge→ltb,
}
use hybrid_heterogeneous_mem.Address.{GlobalAddress}
use hybrid_heterogeneous_mem.Key.{Key, IsKey}
use hybrid_heterogeneous_mem.LockTable.Slot.{eq_key_refl}
use hybrid_heterogeneous_mem.Node.Page.{InternalPage}
use hybrid_heterogeneous_mem.Tree.Client.{find_slot}
use hybrid_heterogeneous_mem.Tree.Slots.{IsOf, find_slot-IsOf, find_slot-finds}
use hybrid_heterogeneous_mem.RadixCache.Entry.{
  CacheEntry, make_entry, is_expired, index_cache_ttl_ns,
}
use hybrid_heterogeneous_mem.RadixCache.Node.{entry_of}
use hybrid_heterogeneous_mem.RadixCache.Content.{entry_of-insert_node}
use hybrid_heterogeneous_mem.RadixCache.Cache.{
  RadixCache, insert, page_bytes, add_to_cache, CacheHit, search_from_cache,
}
use hybrid_heterogeneous_mem.RadixCache.Longest.{hit_at, try_upper}
use hybrid_heterogeneous_mem.RadixCache.Reach.{Reach, added, search-longest}

-- A hit at the prefix of `j` bytes: the slot is the prefix, the entry is the one that stands there and has not
-- expired, and the record is an entry of the byte behind the prefix.
pub record IsHit (now : ℕ) (k : Key) (held : List ℕ → Option CacheEntry) (j : ℕ) (h : CacheHit)
    : Type 0 where
  pub slot : h.0 ≡ take j k
  pub there : held (take j k) ≡ some h.1
  pub young : now ≤ h.1.expire_at_ns
  pub within : h.2 < length h.1.records
  pub record_of : IsOf h.1.records (get_or k j 0) h.2

module _ (now : ℕ) (k : Key) (held : List ℕ → Option CacheEntry) where
  -- A hit at a prefix of `m` to `n` bytes.
  abbrev Deep : ℕ → ℕ → Option CacheHit → Type 0
  Deep m n o = (h : CacheHit) × (j : ℕ) × ((o ≡ some h) × (m ≤ j) × (j ≤ n) × IsHit now k held j h)

  deeper : (m n : ℕ) (o : Option CacheHit) → Deep m n o → Deep m (suc n) o
  deeper m n o (h, j, (e, le, le', hit)) = (h, j, (e, le, omega (arith, le'), hit))

  young_at : (e : CacheEntry) → is_expired now e ≡ false → now ≤ e.expire_at_ns
  unfolding is_expired
  young_at e young = ground (arith, young)

  -- One prefix: a hit at it, or what the shorter ones give.
  hit_at-Deep :
      (m j : ℕ) (o : Option CacheEntry) (other : Option CacheHit)
      → held (take j k) ≡ o
      → m ≤ j
      → Deep m j other
      → Deep m j (hit_at now k (take j k) o j other)
  unfolding hit_at
  hit_at-Deep m j none other at le deep = deep
  hit_at-Deep m j (some e) other at le deep = elim (Bool-cases (is_expired now e)) [
    | inl old ↦ rw (hit_at, old) deep
    | inr young ↦ elim (Option-cases (find_slot e.records (get_or k j 0) 0 (length e.records))) [
      | inl missing ↦ rw (hit_at, young, missing) deep
      | inr (i, found) ↦ rw (hit_at, young, found) (hit_here m j i e at le young found)
    ]
  ]
    where
      hit_here :
          (m j i : ℕ) (e : CacheEntry)
          → held (take j k) ≡ some e
          → m ≤ j
          → is_expired now e ≡ false
          → find_slot e.records (get_or k j 0) 0 (length e.records) ≡ some i
          → Deep m j (some (take j k, e, i))
      hit_here m j i e at le young found =
          let (_, lt, here) = find_slot-IsOf e.records (get_or k j 0) 0 (length e.records) found in
          (
            (take j k, e, i),
            j,
            (
              refl,
              le,
              omega arith,
              record {
                slot = refl;
                there = at;
                young = young_at e young;
                within = omega (arith, lt);
                record_of = here;
              },
            ),
          )

  -- An entry that is not expired and has a record of the next byte is met.
  hit_at-here :
      (j i : ℕ) (e : CacheEntry) (other : Option CacheHit)
      → held (take j k) ≡ some e
      → is_expired now e ≡ false
      → i < length e.records
      → IsOf e.records (get_or k j 0) i
      → Deep j j (hit_at now k (take j k) (some e) j other)
  unfolding hit_at
  hit_at-here j i e other at young lt here =
      let (i', found) =
        find_slot-finds e.records (get_or k j 0) 0 (length e.records) i (omega arith)
          (omega (arith, lt)) here in
      rw (hit_at, young, found)
        (let (_, lt', here') = find_slot-IsOf e.records (get_or k j 0) 0 (length e.records) found in
          (
            (take j k, e, i'),
            j,
            (
              refl,
              omega arith,
              omega arith,
              record {
                slot = refl;
                there = at;
                young = young_at e young;
                within = omega (arith, lt');
                record_of = here';
              },
            ),
          ))

  -- A prefix of the key with such an entry: the longest first, so that the hit is at it or at a longer one.
  try_upper-Deep :
      (j i : ℕ) (e : CacheEntry)
      → held (take (suc j) k) ≡ some e
      → is_expired now e ≡ false
      → i < length e.records
      → IsOf e.records (get_or k (suc j) 0) i
      → (n : ℕ) → suc j ≤ n
      → Deep (suc j) n (try_upper now k held n)
  unfolding try_upper
  try_upper-Deep j i e there young lt here zero le = absurd (omega arith)
  try_upper-Deep j i e there young lt here (suc n) le = elim (ℕ_discrete j n) [
    | yes same ↦ rw (ap (λ x. held (take (suc x) k)) (sym same) ∙ there) (
        subst
          (λ x.
            Deep (suc j) (suc x)
              (hit_at now k (take (suc x) k) (some e) (suc x) (try_upper now k held x)))
          same (hit_at-here (suc j) i e (try_upper now k held j) there young lt here))
    | no other ↦
        hit_at-Deep (suc j) (suc n) (held (take (suc n) k)) (try_upper now k held n) refl
          (omega arith)
          (deeper (suc j) n (try_upper now k held n)
            (try_upper-Deep j i e there young lt here n (omega arith)))
  ]

-- `add_to_cache` of a page below the root, after any calls on a new cache, when the room is enough for the
-- page: a search for a key that has the bytes of the page in front and a record of its next byte there, made
-- before the entry expires, gives a hit, at the page or at a longer prefix of the key. The slot of the hit is
-- that prefix; its entry, which is the one of the page in the first case, is what the cache holds there and has
-- not expired; and the index is that of a record of the entry which is not null and of the byte of the key
-- behind the prefix.
pub add_to_cache-search :
    {capacity : ℕ} {c : RadixCache} (now now' : ℕ) (k k' : Key) (page : InternalPage)
    (addr : GlobalAddress) (j i : ℕ)
    → Reach capacity c
    → IsKey k'
    → (page.hdr.depth == 1) ≡ false
    → (insert (page_bytes k page) (make_entry c.next_id now page addr) c).used ≤ c.capacity
    → page_bytes k page ≡ take (suc j) k'
    → suc j ≤ 7
    → i < length (make_entry c.next_id now page addr).records
    → IsOf (make_entry c.next_id now page addr).records (get_or k' (suc j) 0) i
    → now' ≤ now + index_cache_ttl_ns
    → (h : CacheHit) × (j' : ℕ) × (((search_from_cache now' k' (add_to_cache now k page addr c)).0
          ≡ some h)
        × IsHit now' k' (λ b. entry_of b (add_to_cache now k page addr c).root) j' h
        × ((j' ≤ 7) × (((j' ≡ suc j) × (h.1 ≡ make_entry c.next_id now page addr)) ⊎ (suc j < j'))))
unfolding add_to_cache is_expired
add_to_cache-search {c = c} now now' k k' page addr j i r key below room bytes few lt here early =
    let e = make_entry c.next_id now page addr in
    let c' = record (insert (page_bytes k page) e c) { next_id = c.next_id + 1 } in
    let some_bytes : page_bytes k page ≢ [] = λ (q : page_bytes k page ≡ []).
      omega (arith, ap length bytes, length-take (suc j) k', key.size, ap length q) in
    let roomy : ltb c'.capacity c'.used ≡ false = ge→ltb c'.capacity c'.used room in
    let after : add_to_cache now k page addr c ≡ c' = rw (below, roomy) refl in
    let there : entry_of (take (suc j) k') c'.root ≡ some e =
      entry_of-insert_node (page_bytes k page) e c.root (take (suc j) k') some_bytes
      ∙ rw (bytes, eq_key_refl (take (suc j) k')) refl in
    let young : is_expired now' e ≡ false = ge→ltb e.expire_at_ns now' early in
    let (h, j', (hit, le, le', is_hit)) =
      try_upper-Deep now' k' (λ b. entry_of b c'.root) j i e there young lt here 7 few in
    let run : (search_from_cache now' k' c').0 ≡ some h =
      search-longest now' k' (added now k page addr r (sym after)) key ∙ hit in
    let which : ((j' ≡ suc j) × (h.1 ≡ e)) ⊎ (suc j < j') = elim (ℕ_discrete j' (suc j)) [
      | yes same ↦ inl (
        same,
        some-entry (sym is_hit.there ∙ (ap (λ x. entry_of (take x k') c'.root) same ∙ there)),
      )
      | no other ↦ inr (omega (arith, le, other))
    ] in
    subst
      (λ x.
        (h : CacheHit) × (j' : ℕ) × (((search_from_cache now' k' x).0 ≡ some h)
          × IsHit now' k' (λ b. entry_of b x.root) j' h
          × ((j' ≤ 7) × (((j' ≡ suc j) × (h.1 ≡ e)) ⊎ (suc j < j')))))
      (sym after) (h, j', (run, is_hit, (le', which)))
  where
    some-entry : {x y : CacheEntry} → some x ≡ some y → x ≡ y
    some-entry e = cc
