-- ===== src/Node/Entry/Laws.antt =====
-- What an entry keeps of the values it is made from, and when two entries are the same word.
use hybrid_heterogeneous_mem.Prelude.{ℕ, ◌%◌, ◌^◌, ◌<◌, ◌≡◌, ◌↔◌, refl, true, false, arith}
use hybrid_heterogeneous_mem.Address.{GlobalAddress}
use hybrid_heterogeneous_mem.Node.Types.{NodeType}
use hybrid_heterogeneous_mem.Node.Entry.{
  InternalEntry, IsEntry, type_of, val, null, leaf_entry, node_entry, with_partial, with_type,
  eq_entry, addr_of,
}

-- An address that an entry can hold: eight bits of node number, aligned to 256 bytes.
pub record IsHeld (a : GlobalAddress) : Type 0 where
  pub node : a.node_id < 256
  pub offset : a.offset < 2 ^ 48
  pub aligned : a.offset % 256 ≡ 0

-- The two compared entries are equal exactly if their fields are, so the compare-and-swap of the
-- words compares the entries.
pub eq_entry_iff :
    (a b : InternalEntry)
    → IsEntry a
    → IsEntry b
    → ((eq_entry a b ≡ true) ↔ (a ≡ b)) × (val a < 2 ^ 64)
unfolding eq_entry
eq_entry_iff a b h k = (ground arith, ground arith)

-- A leaf entry made for an aligned address of a node below 256 keeps the partial key, the length
-- and the address, is marked as a leaf, and is never the null entry.
pub leaf_entry-fields :
    (partial kv_len : ℕ) (a : GlobalAddress)
    → partial < 256
    → kv_len < 128
    → IsHeld a
    → let e = leaf_entry partial kv_len a in
      IsEntry e
      × (e.partial ≡ partial)
      × (e.kv_len ≡ kv_len)
      × (e.is_leaf ≡ true)
      × (addr_of e ≡ a)
      × (eq_entry e null ≡ false)
unfolding leaf_entry eq_entry null addr_of
leaf_entry-fields p l a hp hl h =
    (omega arith, omega arith, omega arith, refl, ground arith, ground arith)

-- A node entry keeps the partial key, the type and the address, and is not marked as a leaf.
pub node_entry-fields :
    (partial : ℕ) (t : NodeType) (a : GlobalAddress)
    → partial < 256
    → t < 32
    → IsHeld a
    → let e = node_entry partial t a in
      IsEntry e
      × (e.partial ≡ partial)
      × (type_of e ≡ t)
      × (e.is_leaf ≡ false)
      × (addr_of e ≡ a)
      × (0 < t → eq_entry e null ≡ false)
unfolding node_entry type_of eq_entry null addr_of
node_entry-fields p t a hp ht h =
    (omega arith, omega arith, omega arith, refl, ground arith, ground arith)

-- Giving an entry another partial key, or another node type, changes nothing else of it.
pub with_partial-with_type :
    (partial : ℕ) (t : NodeType) (e : InternalEntry)
    → partial < 256
    → t < 32
    → IsEntry e
    → (IsEntry (with_partial partial e) × IsEntry (with_type t e))
      × ((with_partial partial e).partial ≡ partial)
      × (type_of (with_type t e) ≡ t)
      × (type_of (with_partial partial e) ≡ type_of e)
      × ((with_type t e).partial ≡ e.partial)
      × (addr_of (with_partial partial e) ≡ addr_of e)
      × (addr_of (with_type t e) ≡ addr_of e)
      × ((with_partial e.partial (with_partial partial e)) ≡ e)
unfolding with_partial with_type type_of addr_of
with_partial-with_type p t e hp ht h =
    ((omega arith, omega arith), omega arith, omega arith, refl, refl, refl, refl, ground arith)
