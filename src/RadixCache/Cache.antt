-- ===== src/RadixCache/Cache.antt =====
-- The state and the operations of the cache of src/RadixCache.cpp. `free_size` is `capacity` less `used`. A
-- slot is the bytes that lead to it, and an entry that leaves the cache is freed at once; the queue of
-- nodes, which only the statistics read, is left out.
use hybrid_heterogeneous_mem.Prelude.{
  ℕ, ◌+◌, ◌-◌, true, false, Option, none, some, List, [], ◌∷◌, ◌++◌, ◌==◌, if◌then◌else◌, length,
  take, ltb, get_or,
}
use hybrid_heterogeneous_mem.Address.{GlobalAddress}
use hybrid_heterogeneous_mem.Key.{Key}
use hybrid_heterogeneous_mem.Common.{key_len}
use hybrid_heterogeneous_mem.Node.Page.{InternalPage}
use hybrid_heterogeneous_mem.Tree.Client.{find_slot}
use hybrid_heterogeneous_mem.RadixCache.Entry.{CacheEntry, make_entry, entry_size, is_expired}
use hybrid_heterogeneous_mem.RadixCache.Node.{
  CacheNode, CacheMap, node, nil, here, down, Parse, split, passed, out, parse, insert_node,
  entry_of,
}

-- The entry that the bytes lead to is set to null.
unfoldable pub clear_at : ℕ → List ℕ → ℕ → CacheMap → (ℕ → List ℕ → CacheMap) → Parse → CacheNode
clear_at depth partial charged rs below out = node depth partial charged rs
clear_at depth partial charged rs below (split i x y later) = node depth partial charged rs
clear_at depth partial charged rs below (passed y later) =
    node depth partial charged (below y later)

unfoldable mutual
  pub clear_node : List ℕ → CacheNode → CacheNode
  clear_node rest (node depth partial charged rs) =
      clear_at depth partial charged rs (λ y later. clear_records y later rs) (parse rest partial 0)

  pub clear_records : ℕ → List ℕ → CacheMap → CacheMap
  clear_records y later nil = nil
  clear_records y [] (here b e rs) =
      let rest = here b e (clear_records y [] rs) in if b == y then here b none rs else rest
  clear_records y (z ∷ zs) (here b e rs) =
      let rest = here b e (clear_records y (z ∷ zs) rs) in if b == y then here b e rs else rest
  clear_records y [] (down b e n rs) =
      let rest = down b e n (clear_records y [] rs) in if b == y then down b none n rs else rest
  clear_records y (z ∷ zs) (down b e n rs) =
      let rest = down b e n (clear_records y (z ∷ zs) rs) in
      let same = down b e (clear_node (z ∷ zs) n) rs in if b == y then same else rest

pub record RadixCache : Type 0 where
  pub root : CacheNode
  pub capacity : ℕ
  pub used : ℕ
  pub eviction_list : List (List ℕ × CacheEntry)
  pub next_id : ℕ

-- `new CacheNode()`
abbrev pub new_root : CacheNode
new_root = node 0 [] 0 nil

-- The constructor.
unfoldable pub new_cache : ℕ → RadixCache
new_cache capacity = record {
  root = new_root;
  capacity = capacity;
  used = 0;
  eviction_list = [];
  next_id = 0;
}

-- `_insert`
unfoldable pub insert : List ℕ → CacheEntry → RadixCache → RadixCache
insert bytes e c =
    let i = insert_node bytes e c.root in
    record c {
      root = i.result;
      used = c.used + i.consumed - i.freed;
      eviction_list = c.eviction_list ++ (bytes, e) ∷ [];
    }

-- `invalidate`: the compare-and-swap of the slot, which has the entry `found`, with null. If it is met, the
-- two entries are one.
unfoldable pub invalidate_found : List ℕ → CacheEntry → RadixCache → Option CacheEntry → RadixCache
invalidate_found slot e c none = c
invalidate_found slot e c (some found) =
    if found.id == e.id
    then record c { root = clear_node slot c.root; used = c.used - entry_size found }
    else c

unfoldable pub invalidate : List ℕ → CacheEntry → RadixCache → RadixCache
unfolding invalidate_found
invalidate slot e c = invalidate_found slot e c (entry_of slot c.root)

-- The end of `_evict` with an empty list: the cache starts anew.
unfoldable pub rebuild : RadixCache → RadixCache
rebuild c = record c { root = new_root; used = 0; eviction_list = [] }

-- The loop of `_evict`, over the list of evictions.
unfoldable pub evict_from : List (List ℕ × CacheEntry) → RadixCache → RadixCache
unfolding invalidate rebuild
evict_from [] c = rebuild c
evict_from ((slot, e) ∷ []) c = rebuild (invalidate slot e c)
evict_from ((slot, e) ∷ x ∷ xs) c =
    let c' = record (invalidate slot e c) { eviction_list = x ∷ xs } in
    let rest = evict_from (x ∷ xs) c' in if ltb c'.capacity c'.used then rest else c'

unfoldable pub evict : RadixCache → RadixCache
unfolding evict_from
evict c = evict_from c.eviction_list c

-- The byte array of a page: the bytes of the key above the page, and the path of its header.
unfoldable pub page_bytes : Key → InternalPage → List ℕ
page_bytes k page = take (page.hdr.depth - 1) k ++ take page.hdr.partial_len page.hdr.partial

-- `add_to_cache` at the time `now`, for a page below the root: its depth is at least 1.
unfoldable pub add_to_cache : ℕ → Key → InternalPage → GlobalAddress → RadixCache → RadixCache
unfolding page_bytes insert evict make_entry
add_to_cache now k page addr c =
    let e = make_entry c.next_id now page addr in
    let c' = record (insert (page_bytes k page) e c) { next_id = c.next_id + 1 } in
    if page.hdr.depth == 1 then c else if ltb c'.capacity c'.used then evict c' else c'

-- What a search met at a byte of the key: the slot, its entry, and the index of the next byte.
pub record SearchRet : Type 0 where
  pub slot : List ℕ
  pub entry : Option CacheEntry
  pub next_idx : ℕ

-- The search below a node, by how the walk over its header ends. `ret` is the stack, its top first.
unfoldable pub search_at : List SearchRet → (ℕ → List ℕ → List SearchRet) → Parse → List SearchRet
search_at ret below out = ret
search_at ret below (split i x y later) = ret
search_at ret below (passed y later) = below y later

-- `_search` for the bytes `bytes`, of which `rest` are behind the node at `idx`.
unfoldable mutual
  pub search_node : List ℕ → List ℕ → CacheNode → List SearchRet → List SearchRet
  search_node bytes rest (node depth partial charged rs) ret =
      search_at ret (λ y later. search_records bytes (depth + length partial) y later rs ret)
        (parse rest partial 0)

  pub search_records : List ℕ → ℕ → ℕ → List ℕ → CacheMap → List SearchRet → List SearchRet
  search_records bytes idx y later nil ret = ret
  search_records bytes idx y later (here b e rs) ret =
      let rest = search_records bytes idx y later rs ret in
      if b == y
      then record { slot = take (idx + 1) bytes; entry = e; next_idx = idx + 1 } ∷ ret
      else rest
  search_records bytes idx y later (down b e n rs) ret =
      let rest = search_records bytes idx y later rs ret in
      let found = record { slot = take (idx + 1) bytes; entry = e; next_idx = idx + 1 } ∷ ret in
      let below = search_node bytes later n found in if b == y then below else rest

-- What `search_from_cache` gives: the slot, the entry and the index of its record.
abbrev pub CacheHit : Type 0
CacheHit = List ℕ × CacheEntry × ℕ

-- The loop over the stack, at the time `now`. An expired entry is invalidated. `next_idx` is an index of the
-- key, since the search goes over all bytes but the last.
unfoldable pub take_hit : ℕ → Key → List SearchRet → RadixCache → Option CacheHit × RadixCache
unfolding invalidate is_expired
take_hit now k [] c = (none, c)
take_hit now k (r ∷ ret) c = elim r.entry [
  | none ↦ take_hit now k ret c
  | some e ↦ elim (is_expired now e) [
    | true ↦ take_hit now k ret (invalidate r.slot e c)
    | false ↦ elim (find_slot e.records (get_or k r.next_idx 0) 0 (length e.records)) [
      | none ↦ take_hit now k ret c
      | some i ↦ (some (r.slot, e, i), c)
    ]
  ]
]

unfoldable pub search_from_cache : ℕ → Key → RadixCache → Option CacheHit × RadixCache
unfolding search_node take_hit
search_from_cache now k c =
    let bytes = take (key_len - 1) k in take_hit now k (search_node bytes bytes c.root []) c
