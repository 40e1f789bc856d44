-- ===== src/Tree/Scan/Tests.antt =====
-- Range queries on the tree of Tree.Tests.
use hybrid_heterogeneous_mem.Prelude.{
  ℕ, zero, suc, ◌<◌, ◌≡◌, ◌≢◌, refl, true, false, some, [], ◌∷◌, List, arith, get_or,
}
use mathlib.Core.List.{Memᴰ}
use hybrid_heterogeneous_mem.Key.{Key, get_partial, minus, longest_common_prefix}
use hybrid_heterogeneous_mem.Key.Prefix.{partial}
use hybrid_heterogeneous_mem.Node.Types.{node_type_to_num}
use hybrid_heterogeneous_mem.Node.Header.Match.{Follows}
use hybrid_heterogeneous_mem.Node.Entry.{leaf_entry, node_entry, eq_entry, addr_of}
use hybrid_heterogeneous_mem.Node.Entry
use hybrid_heterogeneous_mem.Leaf.{make_leaf, is_valid, is_consistent}
use hybrid_heterogeneous_mem.Tree.Memory.{slot, place_addr}
use hybrid_heterogeneous_mem.Tree.Client.{World, turn}
use hybrid_heterogeneous_mem.Tree.Tests.{
  key, other, at_unit, setting, page, first_leaf, memory, world, key-IsKey, other-IsKey,
}
use hybrid_heterogeneous_mem.Tree.Range.{
  State, inside, border, outside, ScanContext, above, below, context, range_query_on_page,
}
use hybrid_heterogeneous_mem.Tree.Range.Side.{Lies, at_bound, in_bound}
use hybrid_heterogeneous_mem.Tree.Range.Page.{range_query_on_page_lem}
use hybrid_heterogeneous_mem.Tree.Scan.{lt_key, has_token, range_levels, range_query}
use hybrid_heterogeneous_mem.Tree.Scan.Faults.{
  met_leaves, read_all, collect, AreNew, AreLeaves, range_levels-torn, range_query-lone_leaf,
}

-- The key behind `key`.
abbrev key_next : Key
key_next = 7 ∷ 1 ∷ 2 ∷ 3 ∷ 4 ∷ 5 ∷ 6 ∷ 9 ∷ []

-- A tree whose only leaf is at its root.
abbrev lone_world : World
lone_world = record world { memory = record memory { root_entry = leaf_entry 0 34 (at_unit 2) } }

lone_last : minus key_next 1 ≡ some key
unfolding minus
lone_last = refl

lone_prefix : longest_common_prefix key key 0 ≡ some 9
unfolding longest_common_prefix get_partial
lone_prefix = refl

lone_lt : lt_key key key_next ≡ true
unfolding lt_key
lone_lt = refl

lone_there : eq_entry (turn setting lone_world).memory.root_entry Entry.null ≡ false
unfolding turn eq_entry leaf_entry Entry.null
lone_there = refl

lone_is_leaf : (turn setting lone_world).memory.root_entry.is_leaf ≡ true
unfolding turn leaf_entry
lone_is_leaf = refl

range_query-lone_leaf_example :
    range_query setting (λ n i. page) 4 key key_next lone_world ≡ some ([], turn setting lone_world)
range_query-lone_leaf_example =
    range_query-lone_leaf setting (λ n i. page) key key_next lone_world key 9 3 lone_lt lone_last
      lone_prefix (omega arith) lone_there lone_is_leaf

-- The first leaf with a value that its checksum does not fit, as a read in the middle of a write meets it.
abbrev torn_world : World
torn_world = record world {
  memory = record memory { leaves = λ a. record first_leaf { value = 51 } };
}

abbrev leaf_context : ScanContext
leaf_context = record {
  e = leaf_entry 2 34 (at_unit 2);
  e_ptr = slot (at_unit 1) 0;
  depth = 3;
  from_cache = false;
  from = key;
  to = key;
  l_state = border;
  r_state = border;
}

torn_is_leaf : leaf_context.e.is_leaf ≡ true
unfolding leaf_entry
torn_is_leaf = refl

torn_new : has_token [] (addr_of leaf_context.e) ≡ false
unfolding has_token
torn_new = refl

torn_valid :
    is_valid
      (place_addr setting.root_ptr_ptr leaf_context.e_ptr)
      false
      ((turn setting torn_world).memory.leaves (addr_of leaf_context.e))
    ≡ true
unfolding is_valid turn make_leaf
torn_valid = refl

torn_inconsistent :
    is_consistent setting.crc ((turn setting torn_world).memory.leaves (addr_of leaf_context.e))
    ≡ false
unfolding is_consistent turn make_leaf
torn_inconsistent = refl

-- What is collected is the torn leaf.
torn_found :
    collect key key_next (met_leaves setting (leaf_context ∷ []) torn_world) []
    ≡ (
      ((turn setting torn_world).memory.leaves (addr_of leaf_context.e)).key,
      ((turn setting torn_world).memory.leaves (addr_of leaf_context.e)).value,
    )
      ∷ []
unfolding collect met_leaves lt_key turn make_leaf
torn_found = refl

range_levels-torn_example :
    range_levels setting (λ n i. page) 3 key key_next (leaf_context ∷ []) [] [] torn_world
    ≡ some (
      collect key key_next (met_leaves setting (leaf_context ∷ []) torn_world) [],
      read_all setting (leaf_context ∷ []) torn_world,
    )
unfolding AreNew AreLeaves
range_levels-torn_example =
    range_levels-torn setting (λ n i. page) key key_next (leaf_context ∷ []) [] [] torn_world 0
      (torn_new, tt) (torn_is_leaf, torn_valid, tt)

bytes_agree : (j : ℕ) → j < 3 → partial other j ≡ partial key j
unfolding partial
bytes_agree zero lt = refl
bytes_agree (suc zero) lt = refl
bytes_agree (suc (suc zero)) lt = refl
bytes_agree (suc (suc (suc j))) lt = absurd (omega arith)

key_below : Lies below other key 9 inside
unfolding partial
key_below = in_bound 3 (omega arith) bytes_agree refl

page_path : Follows key page.hdr 0 2
unfolding partial
page_path zero low lt = refl
page_path (suc zero) low lt = refl
page_path (suc (suc j)) low lt = absurd (omega arith)

inside_kept : inside ≢ outside
inside_kept e = cc

border_kept : border ≢ outside
border_kept e = cc

first_there : eq_entry (get_or page.records 0 Entry.null) Entry.null ≡ false
unfolding eq_entry leaf_entry Entry.null
first_there = refl

first_byte : (get_or page.records 0 Entry.null).partial ≡ partial key 3
unfolding leaf_entry partial
first_byte = refl

first_slot : 0 < node_type_to_num 1
unfolding node_type_to_num
first_slot = omega arith

range_query_on_page_lem_example :
    (contexts : List ScanContext) × (l' : State) × (r' : State) × ((range_query_on_page page
          (node_entry 0 1 (at_unit 1))
          key
          other
          border
          border
        ≡ some contexts)
      × (Memᴰ (context page (node_entry 0 1 (at_unit 1)) key other l' r' 0) contexts
          × (Lies above key key 4 l' × Lies below other key 4 r')))
range_query_on_page_lem_example =
    range_query_on_page_lem page (node_entry 0 1 (at_unit 1)) key other key border border border
      inside 0 key-IsKey other-IsKey (omega arith) page_path (at_bound (λ j lt. refl))
      (at_bound (λ j lt. bytes_agree j (omega arith))) (at_bound (λ j lt. refl)) border_kept
      key_below inside_kept first_slot first_there first_byte
