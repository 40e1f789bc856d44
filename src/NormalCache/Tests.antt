-- ===== src/NormalCache/Tests.antt =====
-- A page that is cached twice.
use hybrid_heterogeneous_mem.Prelude.{
  ℕ, ◌+◌, ◌*◌, ◌≤◌, ◌≡◌, refl, ap, ◌∙◌, none, some, List, [], ◌∷◌, if◌then◌else◌, length,
}
use hybrid_heterogeneous_mem.LockTable.Slot.{eq_key}
use hybrid_heterogeneous_mem.Node.Types.{node_type_to_num}
use hybrid_heterogeneous_mem.RadixCache.Entry.{make_entry, entry_size}
use hybrid_heterogeneous_mem.RadixCache.Node.{
  entry_of, insert_node, insert_at, parse, rebuilt, new_record,
}
use hybrid_heterogeneous_mem.RadixCache.Cache.{RadixCache}
use hybrid_heterogeneous_mem.RadixCache.Cache
use hybrid_heterogeneous_mem.RadixCache.Content.{entry_of-insert_node}
use hybrid_heterogeneous_mem.RadixCache.Tests.{
  key, page, node_addr, prefix, some_bytes, one_page, one_page-Reach, key-IsKey, empty_cache,
}
use hybrid_heterogeneous_mem.NormalCache.{
  held, set_slot, NormalCache, new_cache, used_after, insert, page_bytes, add_page, add_to_cache,
  search_from_cache,
}
use hybrid_heterogeneous_mem.NormalCache.Accounts.{weight, replaced}
use hybrid_heterogeneous_mem.NormalCache.Reach.{
  Reach, started, added, Reach-accounts, add_to_cache-ends,
}
use hybrid_heterogeneous_mem.NormalCache.Search.{search-same}

abbrev none_yet : NormalCache
none_yet = record { cache_map = []; capacity = 80; used = 0; eviction_list = []; next_id = 0 }

abbrev once : NormalCache
once = record {
  cache_map = (prefix, some (make_entry 0 5 page node_addr)) ∷ [];
  capacity = 80;
  used = 65;
  eviction_list = (prefix, make_entry 0 5 page node_addr) ∷ [];
  next_id = 1;
}

abbrev twice : NormalCache
twice = record {
  cache_map = (prefix, some (make_entry 1 6 page node_addr)) ∷ [];
  capacity = 80;
  used = 73;
  eviction_list =
      (prefix, make_entry 0 5 page node_addr) ∷ (prefix, make_entry 1 6 page node_addr) ∷ [];
  next_id = 2;
}

once-Reach : Reach 80 0 once
unfolding new_cache add_to_cache add_page page_bytes insert set_slot held used_after make_entry
    entry_size node_type_to_num replaced
once-Reach = added 1 5 key page node_addr (started {c = none_yet} refl refl) refl refl

twice-Reach : Reach 80 1 twice
unfolding add_to_cache add_page page_bytes insert set_slot held eq_key used_after make_entry
    entry_size node_type_to_num replaced
twice-Reach = added 1 6 key page node_addr once-Reach refl refl

Reach-accounts_example : (twice.used ≡ weight twice.cache_map + 8 * 1) × (twice.used ≤ 80)
Reach-accounts_example = Reach-accounts twice-Reach

-- The third time, there is no room.
add_to_cache-ends_example :
    (c' : NormalCache) × ((add_to_cache (length twice.eviction_list + 2) 7 key page node_addr twice
        ≡ some c')
      × (c'.used ≤ 80))
add_to_cache-ends_example = add_to_cache-ends 7 key page node_addr twice-Reach

empty_root : (bytes : List ℕ) → entry_of bytes empty_cache.root ≡ none
unfolding entry_of parse
empty_root [] = refl
empty_root (y ∷ []) = refl
empty_root (y ∷ z ∷ zs) = refl

one_root :
    one_page.root ≡ (insert_node prefix (make_entry 0 5 page node_addr) empty_cache.root).result
unfolding Cache.insert Cache.add_to_cache Cache.page_bytes insert_node insert_at parse rebuilt
    new_record entry_size node_type_to_num
one_root = refl

one_entry : (bytes : List ℕ) → entry_of bytes one_page.root ≡ held bytes once.cache_map
unfolding held
one_entry bytes =
    ap (λ n. entry_of bytes n) one_root
    ∙ (entry_of-insert_node prefix (make_entry 0 5 page node_addr) empty_cache.root bytes some_bytes
        ∙ ap (λ o. if eq_key prefix bytes then some (make_entry 0 5 page node_addr) else o)
            (empty_root bytes))

search-same_example : (Cache.search_from_cache 6 key one_page).0 ≡ (search_from_cache 6 key once).0
search-same_example = search-same 6 key once one_page-Reach key-IsKey one_entry
