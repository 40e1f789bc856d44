-- ===== src/Tree/Range.antt =====
-- `range_query_on_page`, `search_entries` and `range_query` of src/Tree.cpp, with the records of include/Node.h
-- that they pass on. The bounds of a context are both included. The range buffer keeps what the reads
-- before left in it: `buffer` is the page that the i-th place of it held.
pub mod Side
pub mod Page
use hybrid_heterogeneous_mem.Prelude.{
  ℕ, zero, suc, ◌+◌, ◌*◌, Bool, true, false, not, ◌&&◌, ◌||◌, Option, none, some, List, [], ◌∷◌,
  ◌++◌, ltb, leb, ◌==◌, if◌then◌else◌, get_or,
}
use hybrid_heterogeneous_mem.Address.{GlobalAddress, eq_address}
use hybrid_heterogeneous_mem.Key.{Key, get_partial, remake_prefix, longest_common_prefix, minus}
use hybrid_heterogeneous_mem.Node.Types.{node_type_to_num}
use hybrid_heterogeneous_mem.Node.Header.{Header, mismatch}
use hybrid_heterogeneous_mem.Node.Entry.{InternalEntry, eq_entry, addr_of, type_of}
use hybrid_heterogeneous_mem.Node.Entry
use hybrid_heterogeneous_mem.Node.Page.{InternalPage, is_valid_page}
use hybrid_heterogeneous_mem.Leaf.{Leaf, is_valid, is_consistent}
use hybrid_heterogeneous_mem.Tree.Memory.{Place, root, slot, place_addr, overlay}
use hybrid_heterogeneous_mem.Tree.Client.{World, Setting, turn, read_entry, read_node, find_slot}

-- How the keys below an entry lie to a bound: within it, at it, or behind it.
pub data State : Type 0 where
  inside : State
  border : State
  outside : State

-- The pointers into the cache are left out.
pub record ScanContext : Type 0 where
  pub e : InternalEntry
  pub e_ptr : Place
  pub depth : ℕ
  pub from_cache : Bool
  pub from : Key
  pub to : Key
  pub l_state : State
  pub r_state : State

-- The test that a byte is within the bound's byte, for the lower and for the upper bound.
abbrev pub above : ℕ → ℕ → Bool
above bound x = ltb bound x

abbrev pub below : ℕ → ℕ → Bool
below bound x = ltb x bound

-- The state behind the header. `none` is a read of a byte outside of the bound.
unfoldable pub header_state : (ℕ → ℕ → Bool) → Key → Header → State → Option State
header_state within bound hdr border = elim (mismatch bound hdr) [
  | none ↦ none
  | some j ↦ elim (j == hdr.partial_len) [
    | true ↦ some border
    | false ↦ elim (get_partial bound (hdr.depth + j)) [
      | none ↦ none
      | some b ↦ some (if within b (get_or hdr.partial j 0) then inside else outside)
    ]
  ]
]
header_state within bound hdr inside = some inside
header_state within bound hdr outside = some outside

-- The state behind the partial key of an entry, by the bound's byte and the entry's.
unfoldable pub entry_state : (ℕ → ℕ → Bool) → ℕ → ℕ → State → State
entry_state within b x border = if x == b then border else if within b x then inside else outside
entry_state within b x inside = inside
entry_state within b x outside = outside

-- The loop over the bytes of the header from `i` on.
unfoldable pub remake_path : Header → ℕ → ℕ → Key → Key
remake_path hdr i zero key = key
remake_path hdr i (suc rounds) key =
    remake_path hdr (i + 1) rounds (remake_prefix key (hdr.depth + i) (get_or hdr.partial i 0))

-- `next_from` and `next_to`
unfoldable pub next_bound : Header → ℕ → State → Key → Key
next_bound hdr x inside key =
    remake_prefix (remake_path hdr 0 hdr.partial_len key) (hdr.depth + hdr.partial_len) x
next_bound hdr x border key = key
next_bound hdr x outside key = key

-- A context is kept unless it is behind a bound.
unfoldable pub keep : State → State → ScanContext → List ScanContext → List ScanContext
keep outside r s rest = rest
keep inside outside s rest = rest
keep border outside s rest = rest
keep inside inside s rest = s ∷ rest
keep inside border s rest = s ∷ rest
keep border inside s rest = s ∷ rest
keep border border s rest = s ∷ rest

module _ (page : InternalPage) (p : InternalEntry) (from to : Key) where
  -- The context of the slot `j`.
  unfoldable pub context : State → State → ℕ → ScanContext
  context l r j =
      let e = get_or page.records j Entry.null in
      record {
        e = e;
        e_ptr = slot (addr_of p) j;
        depth = page.hdr.depth + page.hdr.partial_len;
        from_cache = false;
        from = next_bound page.hdr e.partial l from;
        to = next_bound page.hdr e.partial r to;
        l_state = l;
        r_state = r;
      }

  -- The loop over the records from `j` on, with `rounds` rounds left.
  unfoldable pub scan_slots : State → State → ℕ → ℕ → ℕ → ℕ → List ScanContext
  scan_slots l r from_partial to_partial j zero = []
  scan_slots l r from_partial to_partial j (suc rounds) =
      let rest = scan_slots l r from_partial to_partial (j + 1) rounds in
      let e = get_or page.records j Entry.null in
      let l' = entry_state above from_partial e.partial l in
      let r' = entry_state below to_partial e.partial r in
      if eq_entry e Entry.null then rest else keep l' r' (context l' r' j) rest

  -- Behind the header.
  unfoldable pub scan_page : State → State → Option (List ScanContext)
  scan_page l r =
      let end = page.hdr.depth + page.hdr.partial_len in
      elim (get_partial from end) [
        | none ↦ none
        | some from_partial ↦ elim (get_partial to end) [
          | none ↦ none
          | some to_partial ↦
              some (scan_slots l r from_partial to_partial 0 (node_type_to_num page.hdr.node_type))
        ]
      ]

  -- `return` if the page is behind a bound.
  unfoldable pub unless_outside : State → State → Option (List ScanContext)
  unless_outside outside r = some []
  unless_outside inside outside = some []
  unless_outside border outside = some []
  unless_outside inside inside = scan_page inside inside
  unless_outside inside border = scan_page inside border
  unless_outside border inside = scan_page border inside
  unless_outside border border = scan_page border border

  -- The contexts that `range_query_on_page` adds.
  unfoldable pub range_query_on_page : State → State → Option (List ScanContext)
  range_query_on_page l r = elim (header_state above from page.hdr l) [
    | none ↦ none
    | some l' ↦ elim (header_state below to page.hdr r) [
      | none ↦ none
      | some r' ↦ unless_outside l' r'
    ]
  ]
