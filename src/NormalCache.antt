-- ===== src/NormalCache.antt =====
-- The state and the operations of the cache of src/NormalCache.cpp, one at a time. `free_size` is `capacity`
-- less `used`; a slot is the byte array that it stands under in the map, and an entry that leaves the map
-- is freed at once. The queue `keys`, which nothing reads, is left out.
pub mod Accounts
pub mod Evict
pub mod Reach
pub mod Search
pub mod Slots
pub mod Tests
use hybrid_heterogeneous_mem.Prelude.{
  ℕ, zero, suc, ◌+◌, ◌-◌, Bool, true, false, Option, none, some, List, [], ◌∷◌, ◌++◌, ◌==◌,
  if◌then◌else◌, length, take, ltb, get_or,
}
use hybrid_heterogeneous_mem.Address.{GlobalAddress}
use hybrid_heterogeneous_mem.Key.{Key}
use hybrid_heterogeneous_mem.Common.{key_len}
use hybrid_heterogeneous_mem.LockTable.Slot.{eq_key}
use hybrid_heterogeneous_mem.Node.Page.{InternalPage}
use hybrid_heterogeneous_mem.Tree.Client.{find_slot}
use hybrid_heterogeneous_mem.RadixCache.Range.{RangeCache, search_range}
use hybrid_heterogeneous_mem.RadixCache.Entry.{CacheEntry, make_entry, entry_size, is_expired}

-- `CacheMap`: the slots in the order in which they were made.
abbrev pub Slots : Type 0
Slots = List (List ℕ × Option CacheEntry)

-- The value of the map under a byte array, null if it has none.
unfoldable pub held : List ℕ → Slots → Option CacheEntry
held bytes [] = none
held bytes ((b, o) ∷ m) = if eq_key b bytes then o else held bytes m

-- A slot is set; `cache_map[...]` makes it if it is not there.
unfoldable pub set_slot : List ℕ → Option CacheEntry → Slots → Slots
set_slot bytes v [] = (bytes, v) ∷ []
set_slot bytes v ((b, o) ∷ m) =
    let rest = (b, o) ∷ set_slot bytes v m in if eq_key b bytes then (b, v) ∷ m else rest

pub record NormalCache : Type 0 where
  pub cache_map : Slots
  pub capacity : ℕ
  pub used : ℕ
  pub eviction_list : List (List ℕ × CacheEntry)
  pub next_id : ℕ

-- The constructor.
unfoldable pub new_cache : ℕ → NormalCache
new_cache capacity = record {
  cache_map = [];
  capacity = capacity;
  used = 0;
  eviction_list = [];
  next_id = 0;
}

-- What the new entry takes: a pointer and its content, and either the content of the old one is given back, or
-- a key is taken too.
unfoldable pub used_after : ℕ → CacheEntry → Option CacheEntry → ℕ
used_after used e (some old) = used + 8 + entry_size e - entry_size old
used_after used e none = used + 8 + entry_size e + 8

-- `_insert`
unfoldable pub insert : List ℕ → CacheEntry → NormalCache → NormalCache
unfolding used_after
insert bytes e c = record c {
  cache_map = set_slot bytes (some e) c.cache_map;
  used = used_after c.used e (held bytes c.cache_map);
  eviction_list = c.eviction_list ++ (bytes, e) ∷ [];
}

-- `invalidate`: the compare-and-swap of the slot, which has `found`, with null.
unfoldable pub invalidate_found :
    List ℕ → CacheEntry → NormalCache → Option CacheEntry → NormalCache
invalidate_found slot e c none = c
invalidate_found slot e c (some found) =
    if found.id == e.id
    then record c {
      cache_map = set_slot slot none c.cache_map;
      used = c.used - (8 + entry_size found + 8);
    }
    else c

unfoldable pub invalidate : List ℕ → CacheEntry → NormalCache → NormalCache
unfolding invalidate_found
invalidate slot e c = invalidate_found slot e c (held slot c.cache_map)

-- The body of the loop of `_evict`.
unfoldable pub evict_one : List (List ℕ × CacheEntry) → NormalCache → NormalCache
unfolding invalidate
evict_one [] c = c
evict_one ((slot, e) ∷ l) c = invalidate slot e (record c { eviction_list = l })

-- `_evict`, for `rounds` rounds; `none` if it goes on then.
unfoldable pub evict : ℕ → NormalCache → Option NormalCache
unfolding evict_one
evict zero c = none
evict (suc rounds) c =
    let c' = evict_one c.eviction_list c in
    let rest = evict rounds c' in if ltb c'.capacity c'.used then rest else some c'

-- The byte array of a page, whose depth is at least 1.
unfoldable pub page_bytes : Key → InternalPage → List ℕ
page_bytes k page = take (page.hdr.depth - 1) k ++ take page.hdr.partial_len page.hdr.partial

-- `add_to_cache` at the time `now`, up to the test of `free_size`.
unfoldable pub add_page : ℕ → Key → InternalPage → GlobalAddress → NormalCache → NormalCache
unfolding insert page_bytes make_entry
add_page now k page addr c =
    record (insert (page_bytes k page) (make_entry c.next_id now page addr) c) {
      next_id = c.next_id + 1;
    }

unfoldable pub add_to_cache :
    ℕ → ℕ → Key → InternalPage → GlobalAddress → NormalCache → Option NormalCache
unfolding add_page evict
add_to_cache rounds now k page addr c =
    let c' = add_page now k page addr c in
    if ltb c'.capacity c'.used then evict rounds c' else some c'

-- What `search_from_cache` gives: the slot, the entry and the index of its record.
abbrev pub CacheHit : Type 0
CacheHit = List ℕ × CacheEntry × ℕ

-- One round of `try_upper`, for a prefix of `j` bytes and what the map has there. `upper` goes on with the
-- shorter ones.
unfoldable pub try_prefix :
    ℕ
    → Key
    → ℕ
    → Option CacheEntry
    → NormalCache
    → (NormalCache → Option CacheHit × NormalCache)
    → Option CacheHit × NormalCache
unfolding is_expired invalidate
try_prefix now k j none c upper = upper c
try_prefix now k j (some e) c upper = elim (is_expired now e) [
  | true ↦ upper (invalidate (take j k) e c)
  | false ↦ elim (find_slot e.records (get_or k j 0) 0 (length e.records)) [
    | none ↦ upper c
    | some i ↦ (some (take j k, e, i), c)
  ]
]

-- `_search`, for the prefixes of the key of `j` bytes and less; the last byte is the one behind the prefix.
unfoldable pub search_upper : ℕ → Key → ℕ → NormalCache → Option CacheHit × NormalCache
unfolding try_prefix
search_upper now k zero c = try_prefix now k 0 (held (take 0 k) c.cache_map) c (λ c'. (none, c'))
search_upper now k (suc j) c =
    try_prefix now k (suc j) (held (take (suc j) k) c.cache_map) c (λ c'. search_upper now k j c')

unfoldable pub search_from_cache : ℕ → Key → NormalCache → Option CacheHit × NormalCache
unfolding search_upper
search_from_cache now k c = search_upper now k (key_len - 1) c

unfoldable pub search_range_from_cache :
    ℕ → ℕ → Key → Key → NormalCache → Option (List RangeCache × NormalCache)
unfolding search_range
search_range_from_cache rounds now from to c = search_range (search_from_cache now) rounds from to c
