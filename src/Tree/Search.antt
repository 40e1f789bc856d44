-- ===== src/Tree/Search.antt =====
-- `Tree::search` of src/Tree.cpp, behind the acquisition of the read lock and the search of the cache.
-- `rounds` bounds the rounds from `next` on, and those of a read of a leaf; `none` is a search that is not
-- over by then, or that reads a byte outside of the key.
use hybrid_heterogeneous_mem.Prelude.{
  ℕ, zero, suc, ◌+◌, Bool, true, false, Option, none, some, ltb, if◌then◌else◌, get_or,
}
use hybrid_heterogeneous_mem.Key.{Key, get_partial}
use hybrid_heterogeneous_mem.LockTable.Slot.{eq_key}
use hybrid_heterogeneous_mem.Node.Types.{node_type_to_num}
use hybrid_heterogeneous_mem.Node.Header.{mismatch}
use hybrid_heterogeneous_mem.Node.Entry.{InternalEntry, eq_entry, addr_of, type_of}
use hybrid_heterogeneous_mem.Node.Entry
use hybrid_heterogeneous_mem.Node.Page.{InternalPage}
use hybrid_heterogeneous_mem.Leaf.{Leaf}
use hybrid_heterogeneous_mem.Tree.Memory.{Place, root, slot}
use hybrid_heterogeneous_mem.Tree.Client.{
  World, Setting, read_entry, read_leaf_at, read_node, find_slot,
}

-- How a round ends: the search is over, it goes on from an entry at a place, or it stops with a failure.
pub data Round : Type 0 where
  over : Option ℕ → World → Round
  go_on : Place → InternalEntry → ℕ → World → Round
  fault : Round

-- 3.3. Behind the header: the slot of the byte.
unfoldable pub search_slots : Key → InternalPage → InternalEntry → World → Round
search_slots k page p w =
    let end = page.hdr.depth + page.hdr.partial_len in
    elim (get_partial k end) [
      | none ↦ fault
      | some byte ↦ elim (find_slot page.records byte 0 (node_type_to_num (type_of p))) [
        | none ↦ over none w
        | some i ↦ go_on (slot (addr_of p) i) (get_or page.records i Entry.null) (end + 1) w
      ]
    ]

-- 3.2. The header.
unfoldable pub search_header : Key → InternalPage → InternalEntry → World → Round
search_header k page p w = elim (mismatch k page.hdr) [
  | none ↦ fault
  | some r ↦ elim (ltb r page.hdr.partial_len) [
    | true ↦ over none w
    | false ↦ search_slots k page p w
  ]
]

module _ (c : Setting) where
  -- `p_ptr` read again.
  unfoldable pub search_again : Place → ℕ → World → Round
  search_again p_ptr depth w = let (e, w') = read_entry c p_ptr w in go_on p_ptr e depth w'

  -- 2. What `read_leaf` gave.
  unfoldable pub search_leaf : Key → Place → ℕ → Option (Bool × Leaf × World) → Round
  search_leaf k p_ptr depth none = fault
  search_leaf k p_ptr depth (some (true, leaf, w)) =
      over (if eq_key leaf.key k then some leaf.value else none) w
  search_leaf k p_ptr depth (some (false, leaf, w)) = search_again p_ptr depth w

  -- 3. What `read_node` gave.
  unfoldable pub search_node :
      Key → Place → ℕ → Bool × Bool × InternalPage × InternalEntry × World → Round
  search_node k p_ptr depth (true, correct, page, p, w) = search_header k page p w
  search_node k p_ptr depth (false, correct, page, p, w) = search_again p_ptr depth w

  -- One round from `next` on.
  unfoldable pub search_round : ℕ → Key → Place → InternalEntry → ℕ → Bool → World → Round
  search_round rounds k p_ptr p depth from_cache w = elim (eq_entry p Entry.null) [
    | true ↦ over none w
    | false ↦ elim p.is_leaf [
      | true ↦ search_leaf k p_ptr depth (read_leaf_at c rounds (addr_of p) p_ptr from_cache w)
      | false ↦ search_node k p_ptr depth (read_node c p p_ptr depth from_cache w)
    ]
  ]

  unfoldable pub search_from :
      ℕ → Key → Place → InternalEntry → ℕ → Bool → World → Option (Option ℕ × World)
  search_from zero k p_ptr p depth from_cache w = none
  search_from (suc rounds) k p_ptr p depth from_cache w =
      elim (search_round rounds k p_ptr p depth from_cache w) [
        | over v w' ↦ some (v, w')
        | go_on p_ptr' p' depth' w' ↦ search_from rounds k p_ptr' p' depth' false w'
        | fault ↦ none
      ]

  -- A search that misses the cache starts at the root, whose entry is not null.
  unfoldable pub search : ℕ → Key → World → Option (Option ℕ × World)
  search rounds k w =
      let (p, w') = read_entry c root w in
      elim (eq_entry p Entry.null) [ true ↦ none | false ↦ search_from rounds k root p 1 false w' ]
