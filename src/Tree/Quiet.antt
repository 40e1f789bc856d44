-- ===== src/Tree/Quiet.antt =====
-- A memory that no one else works on: the value below an entry, step by step, and what the reads of a leaf and
-- of a node give there.
use hybrid_heterogeneous_mem.Prelude.{
  ℕ, zero, suc, ◌+◌, ◌<◌, ◌≡◌, refl, sym, ◌∙◌, Bool, true, false, not, ◌&&◌, Option, none, some,
  List, ltb, leb, ◌==◌, ==_iff, if◌then◌else◌, get_or, arith, Bool-cases, inl, inr, le→leb, ge→ltb,
  pos→==,
}
use hybrid_heterogeneous_mem.Address.{GlobalAddress, eq_address}
use hybrid_heterogeneous_mem.Key.{Key, get_partial}
use hybrid_heterogeneous_mem.LockTable.Slot.{eq_key}
use hybrid_heterogeneous_mem.Node.Types.{node_type_to_num}
use hybrid_heterogeneous_mem.Node.Header.{mismatch}
use hybrid_heterogeneous_mem.Node.Entry.{InternalEntry, eq_entry, addr_of, type_of}
use hybrid_heterogeneous_mem.Node.Entry
use hybrid_heterogeneous_mem.Node.Page.{InternalPage, is_valid_page}
use hybrid_heterogeneous_mem.Leaf.{Leaf, is_valid}
use hybrid_heterogeneous_mem.Tree.Memory.{Place, place_addr, Memory}
use hybrid_heterogeneous_mem.Tree.Client.{World, Setting, turn, read_leaf_at, read_node, find_slot}
use hybrid_heterogeneous_mem.Tree.Shape.{value_at, IsLeafAt, IsNodeAt}

-- No other client changes the memory.
abbrev pub IsQuiet : Setting → Type 0
IsQuiet c = (n : ℕ) (m : Memory) → c.env n m ≡ m

pub eq_address_refl : (a : GlobalAddress) → eq_address a a ≡ true
unfolding eq_address
eq_address_refl a = ground arith

-- The test of the loop over the records.
abbrev pub fits : List InternalEntry → ℕ → ℕ → Bool
fits records byte i =
    not (eq_entry (get_or records i Entry.null) Entry.null)
    && (get_or records i Entry.null).partial == byte

pub find_slot-skip :
    (records : List InternalEntry) (byte i n : ℕ)
    → fits records byte i ≡ false
    → find_slot records byte i (suc n) ≡ find_slot records byte (i + 1) n
unfolding find_slot
find_slot-skip records byte i n e = rw e refl

pub find_slot-here :
    (records : List InternalEntry) (byte i n : ℕ)
    → fits records byte i ≡ true
    → find_slot records byte i (suc n) ≡ some i
unfolding find_slot
find_slot-here records byte i n e = rw e refl

some-eq : {a b : ℕ} → some a ≡ some b → a ≡ b
some-eq e = cc

pub find_slot-lt :
    (records : List InternalEntry) (byte i n : ℕ) {j : ℕ}
    → find_slot records byte i n ≡ some j
    → j < i + n
unfolding find_slot
find_slot-lt records byte i zero e = cc
find_slot-lt records byte i (suc n) {j} e = elim (Bool-cases (fits records byte i)) [
  | inl here ↦
      let same : i ≡ j = some-eq (sym (find_slot-here records byte i n here) ∙ e) in omega arith
  | inr there ↦
      let lt =
        find_slot-lt records byte (i + 1) n (sym (find_slot-skip records byte i n there) ∙ e) in
      omega (arith, lt)
]

-- What the value below a node is, from its page.
abbrev pub value_in : ℕ → Memory → Key → InternalEntry → InternalPage → Option ℕ
value_in n m k p page = elim (mismatch k page.hdr) [
  | none ↦ none
  | some r ↦ elim (ltb r page.hdr.partial_len) [
    | true ↦ none
    | false ↦ elim (get_partial k (page.hdr.depth + page.hdr.partial_len)) [
      | none ↦ none
      | some byte ↦ elim (find_slot page.records byte 0 (node_type_to_num (type_of p))) [
        | none ↦ none
        | some i ↦ value_at n m k (get_or page.records i Entry.null)
      ]
    ]
  ]
]

pub value_at-node :
    (n : ℕ) (m : Memory) (k : Key) (p : InternalEntry)
    → eq_entry p Entry.null ≡ false
    → p.is_leaf ≡ false
    → value_at (suc n) m k p ≡ value_in n m k p (m.pages (addr_of p))
unfolding value_at
value_at-node n m k p e l = simp (value_at, e, l) refl

pub value_at-leaf :
    (n : ℕ) (m : Memory) (k : Key) (p : InternalEntry)
    → eq_entry p Entry.null ≡ false
    → p.is_leaf ≡ true
    → value_at (suc n) m k p
      ≡ (if eq_key (m.leaves (addr_of p)).key k then some (m.leaves (addr_of p)).value else none)
unfolding value_at
value_at-leaf n m k p e l = simp (value_at, e, l) refl

fresh_is_valid : (a : GlobalAddress) (l : Leaf) → l.valid ≡ true → is_valid a false l ≡ true
unfolding is_valid
fresh_is_valid a l e = rw e refl

module _ (c : Setting) (quiet : IsQuiet c) where
  pub turn_memory : (w : World) → (turn c w).memory ≡ w.memory
  unfolding turn
  turn_memory w = quiet w.clock w.memory

  -- A leaf is read in one round, and nothing is written.
  pub read_leaf_at_lem :
      (rounds : ℕ) (place : Place) (p : InternalEntry) (w : World)
      → IsLeafAt c w.memory place p
      → read_leaf_at c (suc rounds) (addr_of p) place false w
        ≡ some (true, w.memory.leaves (addr_of p), turn c w)
  unfolding read_leaf_at
  read_leaf_at_lem rounds place p w h =
      let same = turn_memory w in
      let at_rev : eq_address (w.memory.leaves (addr_of p)).rev_ptr
            (place_addr c.root_ptr_ptr place)
          ≡ true =
        rw h.rev_ptr (eq_address_refl (place_addr c.root_ptr_ptr place)) in
      rw
        (
          same,
          at_rev,
          fresh_is_valid (place_addr c.root_ptr_ptr place) (w.memory.leaves (addr_of p)) h.valid,
          h.consistent,
        )
        refl

  pub read_node_lem :
      (place : Place) (depth : ℕ) (p : InternalEntry) (w : World)
      → IsNodeAt c w.memory place depth p
      → read_node c p place depth false w ≡ (true, true, w.memory.pages (addr_of p), p, turn c w)
  unfolding read_node is_valid_page
  read_node_lem place depth p w h =
      let same = turn_memory w in
      let a = addr_of p in
      let at_rev : eq_address (w.memory.pages a).rev_ptr (place_addr c.root_ptr_ptr place) ≡ true =
        rw h.rev_ptr (eq_address_refl (place_addr c.root_ptr_ptr place)) in
      let not_larger : ltb (type_of p) (w.memory.pages a).hdr.node_type ≡ false =
        ge→ltb (type_of p) (w.memory.pages a).hdr.node_type (omega (arith, h.type_eq)) in
      let correct : (type_of p == (w.memory.pages a).hdr.node_type) ≡ true =
        (==_iff (type_of p) (w.memory.pages a).hdr.node_type).1 (sym h.type_eq) in
      let alive : ((w.memory.pages a).hdr.node_type == 0) ≡ false =
        pos→== (w.memory.pages a).hdr.node_type (omega (arith, h.type_eq, h.type_pos)) in
      let deep : leb (w.memory.pages a).hdr.depth depth ≡ true =
        le→leb (w.memory.pages a).hdr.depth depth (omega (arith, h.depth_eq)) in
      rw (same, not_larger, correct, at_rev, alive, deep) refl
