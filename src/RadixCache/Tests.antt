-- ===== src/RadixCache/Tests.antt =====
-- A cache with one page, below the first byte of a key.
use hybrid_heterogeneous_mem.Prelude.{
  ℕ, suc, ◌-◌, ◌≤◌, ◌≡◌, ◌≢◌, refl, false, some, List, [], ◌∷◌, ◌==◌, if◌then◌else◌, replicate,
  length, take, get_or, arith, ◌⊎◌, ◌<◌,
}
use hybrid_heterogeneous_mem.Address.{GlobalAddress}
use hybrid_heterogeneous_mem.Key.{Key, IsKey, key2int}
use hybrid_heterogeneous_mem.LockTable.Slot.{eq_key}
use hybrid_heterogeneous_mem.Node.Types.{node_type_to_num}
use hybrid_heterogeneous_mem.Node.Entry.{leaf_entry, eq_entry}
use hybrid_heterogeneous_mem.Node.Entry
use hybrid_heterogeneous_mem.Node.Page.{InternalPage}
use hybrid_heterogeneous_mem.Tree.Slots.{IsOf}
use hybrid_heterogeneous_mem.RadixCache.Entry.{make_entry, entry_size}
use hybrid_heterogeneous_mem.RadixCache.Node.{
  insert_node, insert_at, parse, rebuilt, new_record, entry_of,
}
use hybrid_heterogeneous_mem.RadixCache.Content.{entry_of-insert_node}
use hybrid_heterogeneous_mem.RadixCache.Cache.{
  RadixCache, new_root, new_cache, insert, page_bytes, add_to_cache, CacheHit, search_from_cache,
}
use hybrid_heterogeneous_mem.RadixCache.Range.{search_range, look_up, search_range-look_up}
use hybrid_heterogeneous_mem.RadixCache.Reach.{IsValid, Reach, started, added, Reach-IsValid}
use hybrid_heterogeneous_mem.RadixCache.Found.{IsHit, add_to_cache-search}

abbrev pub key : Key
key = 7 ∷ 9 ∷ 3 ∷ 4 ∷ 5 ∷ 6 ∷ 7 ∷ 8 ∷ []

abbrev pub node_addr : GlobalAddress
node_addr = record { node_id = 1; offset = 4096 }

abbrev pub page : InternalPage
page = record {
  rev_ptr = node_addr;
  hdr = record { depth = 2; node_type = 1; partial_len = 1; partial = 9 ∷ replicate 5 0 };
  records = leaf_entry 3 34 node_addr ∷ replicate 255 Entry.null;
}

abbrev pub empty_cache : RadixCache
empty_cache = record { root = new_root; capacity = 1000; used = 0; eviction_list = []; next_id = 0 }

empty_cache-Reach : Reach 1000 empty_cache
unfolding new_cache
empty_cache-Reach = started refl

pub key-IsKey : IsKey key
key-IsKey = record { size = refl; bytes = omega arith }

page_below : (page.hdr.depth == 1) ≡ false
page_below = refl

page_fits : (insert (page_bytes key page) (make_entry 0 5 page node_addr) empty_cache).used ≤ 1000
unfolding insert page_bytes make_entry insert_node node_type_to_num entry_size insert_at parse
    rebuilt new_record
page_fits = omega arith

page_prefix : page_bytes key page ≡ take 2 key
unfolding page_bytes
page_prefix = refl

page_entries : 0 < length (make_entry 0 5 page node_addr).records
unfolding make_entry node_type_to_num
page_entries = omega arith

page_record : IsOf (make_entry 0 5 page node_addr).records (get_or key 2 0) 0
unfolding make_entry leaf_entry eq_entry Entry.null node_type_to_num
page_record = record { present = refl; partial = refl }

add_to_cache-search_example :
    (h : CacheHit) × (j' : ℕ) × (((search_from_cache 6 key
          (add_to_cache 5 key page node_addr empty_cache)).0
        ≡ some h)
      × IsHit 6 key (λ b. entry_of b (add_to_cache 5 key page node_addr empty_cache).root) j' h
      × ((j' ≤ 7) × (((j' ≡ 2) × (h.1 ≡ make_entry 0 5 page node_addr)) ⊎ (2 < j'))))
add_to_cache-search_example =
    add_to_cache-search 5 6 key key page node_addr 1 0 empty_cache-Reach key-IsKey page_below
      page_fits page_prefix (omega arith) page_entries page_record (omega arith)

abbrev pub one_page : RadixCache
one_page = add_to_cache 5 key page node_addr empty_cache

pub one_page-Reach : Reach 1000 one_page
one_page-Reach = added 5 key page node_addr empty_cache-Reach refl

Reach-IsValid_example : IsValid one_page
Reach-IsValid_example = Reach-IsValid one_page-Reach

abbrev pub prefix : List ℕ
prefix = 7 ∷ 9 ∷ []

abbrev other_prefix : List ℕ
other_prefix = 7 ∷ 8 ∷ []

pub some_bytes : prefix ≢ []
some_bytes e = cc

entry_of-insert_node_example :
    entry_of other_prefix (insert_node prefix (make_entry 0 5 page node_addr) one_page.root).result
    ≡ (if eq_key prefix other_prefix
        then some (make_entry 0 5 page node_addr)
        else entry_of other_prefix one_page.root)
entry_of-insert_node_example =
    entry_of-insert_node prefix (make_entry 0 5 page node_addr) one_page.root other_prefix
      some_bytes

-- The keys from `key` on and below the next but one.
abbrev key_above : Key
key_above = 7 ∷ 9 ∷ 3 ∷ 4 ∷ 5 ∷ 6 ∷ 7 ∷ 10 ∷ []

key_above-IsKey : IsKey key_above
key_above-IsKey = record { size = refl; bytes = omega arith }

two_keys : key2int key_above - key2int key ≡ 2
unfolding key2int
two_keys = refl

search_range-look_up_example :
    search_range
      (search_from_cache 6)
      (suc (key2int key_above - key2int key))
      key
      key_above
      one_page
    ≡ some (look_up (search_from_cache 6) (key2int key_above - key2int key) (key2int key) one_page)
search_range-look_up_example =
    search_range-look_up (search_from_cache 6) key key_above one_page key-IsKey key_above-IsKey
