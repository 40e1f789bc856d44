-- ===== src/Tree/Shape.antt =====
-- What the memory holds when no operation is under way: a tree below a place, and the value that a walk along a
-- key finds in it; Tree.Holds says what that is by the leaves of the tree.
use hybrid_heterogeneous_mem.Prelude.{
  ℕ, zero, suc, ◌+◌, ◌≤◌, ◌<◌, ◌≡◌, true, false, Option, none, some, ltb, if◌then◌else◌, get_or,
  length,
}
use hybrid_heterogeneous_mem.Key.{Key, get_partial}
use hybrid_heterogeneous_mem.LockTable.Slot.{eq_key}
use hybrid_heterogeneous_mem.Node.Types.{node_type_to_num, node_256}
use hybrid_heterogeneous_mem.Node.Header.{mismatch, h_partial_len_max}
use hybrid_heterogeneous_mem.Node.Entry.{InternalEntry, eq_entry, addr_of, type_of}
use hybrid_heterogeneous_mem.Node.Entry
use hybrid_heterogeneous_mem.Leaf.{is_consistent}
use hybrid_heterogeneous_mem.Tree.Memory.{Place, slot, place_addr, Memory}
use hybrid_heterogeneous_mem.Tree.Client.{Setting, find_slot}

-- The value at the end of the walk along a key from an entry, at most `n` levels down.
unfoldable pub value_at : ℕ → Memory → Key → InternalEntry → Option ℕ
value_at zero m k p = none
value_at (suc n) m k p = elim (eq_entry p Entry.null) [
  | true ↦ none
  | false ↦ elim p.is_leaf [
    | true ↦ let leaf = m.leaves (addr_of p) in if eq_key leaf.key k then some leaf.value else none
    | false ↦
        let page = m.pages (addr_of p) in
        let end = page.hdr.depth + page.hdr.partial_len in
        elim (mismatch k page.hdr) [
          | none ↦ none
          | some r ↦ elim (ltb r page.hdr.partial_len) [
            | true ↦ none
            | false ↦ elim (get_partial k end) [
              | none ↦ none
              | some byte ↦ elim (find_slot page.records byte 0 (node_type_to_num (type_of p))) [
                | none ↦ none
                | some i ↦ value_at n m k (get_or page.records i Entry.null)
              ]
            ]
          ]
        ]
  ]
]

-- A leaf that a place points to.
pub record IsLeafAt (c : Setting) (m : Memory) (place : Place) (p : InternalEntry) : Type 0 where
  pub rev_ptr : (m.leaves (addr_of p)).rev_ptr ≡ place_addr c.root_ptr_ptr place
  pub valid : (m.leaves (addr_of p)).valid ≡ true
  pub consistent : is_consistent c.crc (m.leaves (addr_of p)) ≡ true
  pub free : (m.leaves (addr_of p)).w_lock ≡ 0

-- A node that a place points to, at the depth of the place.
pub record IsNodeAt (c : Setting) (m : Memory) (place : Place) (depth : ℕ) (p : InternalEntry)
    : Type 0 where
  pub rev_ptr : (m.pages (addr_of p)).rev_ptr ≡ place_addr c.root_ptr_ptr place
  pub depth_eq : (m.pages (addr_of p)).hdr.depth ≡ depth
  pub type_eq : (m.pages (addr_of p)).hdr.node_type ≡ type_of p
  pub type_pos : 0 < type_of p
  pub type_le : type_of p ≤ node_256
  pub path_le : (m.pages (addr_of p)).hdr.partial_len ≤ h_partial_len_max
  pub path_size : length (m.pages (addr_of p)).hdr.partial ≡ h_partial_len_max
  pub end_le : depth + (m.pages (addr_of p)).hdr.partial_len ≤ 8
  pub slots : length (m.pages (addr_of p)).records ≡ 256

-- A tree below an entry at a place and a depth.
pub data IsTree (c : Setting) (m : Memory) : Place → ℕ → InternalEntry → Type 0 where
  nothing :
      {place : Place} {depth : ℕ} {p : InternalEntry}
      → eq_entry p Entry.null ≡ true
      → IsTree c m place depth p
  leaf :
      {place : Place} {depth : ℕ} {p : InternalEntry}
      → eq_entry p Entry.null ≡ false
      → p.is_leaf ≡ true
      → IsLeafAt c m place p
      → IsTree c m place depth p
  node :
      {place : Place} {depth : ℕ} {p : InternalEntry}
      → eq_entry p Entry.null ≡ false
      → p.is_leaf ≡ false
      → IsNodeAt c m place depth p
      → ((i : ℕ)
          → i < node_type_to_num (type_of p)
          → IsTree c m
              (slot (addr_of p) i)
              (depth + (m.pages (addr_of p)).hdr.partial_len + 1)
              (get_or (m.pages (addr_of p)).records i Entry.null))
      → IsTree c m place depth p
