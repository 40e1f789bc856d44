-- ===== src/Node/Entry.antt =====
-- `InternalEntry` of include/Node.h: a slot of a node in one 64-bit word.
pub mod Laws
use hybrid_heterogeneous_mem.Prelude.{
  ℕ, ◌+◌, ◌*◌, ◌/◌, ◌%◌, ◌^◌, ◌<◌, ◌≤◌, Bool, true, false, ◌==◌, if◌then◌else◌,
}
use hybrid_heterogeneous_mem.Address.{
  GlobalAddress, PackedGAddr, IsPacked, packed_val, pack, unpack,
}
use hybrid_heterogeneous_mem.Node.Types.{NodeType}

-- The fields of the union's second view; `node_type` is the upper part of `kv_len`.
pub record InternalEntry : Type 0 where
  pub partial : ℕ
  pub kv_len : ℕ
  pub is_leaf : Bool
  pub packed_addr : PackedGAddr

pub record IsEntry (e : InternalEntry) : Type 0 where
  pub partial_fits : e.partial < 2 ^ 8
  pub kv_len_fits : e.kv_len < 2 ^ 7
  pub addr_fits : IsPacked e.packed_addr

abbrev pub bit : Bool → ℕ
bit true = 1
bit false = 0

-- `empty` has `kvLenBit - nodeTypeNumBit` = 2 bits, below the five bits of `node_type`.
unfoldable pub type_of : InternalEntry → NodeType
type_of e = e.kv_len / 2 ^ 2

unfoldable pub val : InternalEntry → ℕ
unfolding packed_val
val e = e.partial + 2 ^ 8 * (e.kv_len + 2 ^ 7 * bit e.is_leaf) + 2 ^ 16 * packed_val e.packed_addr

unfoldable pub null : InternalEntry
null = record {
  partial = 0;
  kv_len = 0;
  is_leaf = false;
  packed_addr = record { mn_id = 0; unit = 0 };
}

-- `InternalEntry(uint8_t partial, uint8_t kv_len, const GlobalAddress &addr)`
unfoldable pub leaf_entry : ℕ → ℕ → GlobalAddress → InternalEntry
unfolding pack
leaf_entry partial kv_len addr = record {
  partial = partial % 2 ^ 8;
  kv_len = kv_len % 2 ^ 7;
  is_leaf = true;
  packed_addr = pack addr;
}

-- `InternalEntry(uint8_t partial, NodeType node_type, const GlobalAddress &addr)`
unfoldable pub node_entry : ℕ → NodeType → GlobalAddress → InternalEntry
unfolding pack
node_entry partial node_type addr = record {
  partial = partial % 2 ^ 8;
  kv_len = node_type % 2 ^ 5 * 2 ^ 2;
  is_leaf = false;
  packed_addr = pack addr;
}

-- `InternalEntry(uint8_t partial, const InternalEntry& e)`
unfoldable pub with_partial : ℕ → InternalEntry → InternalEntry
with_partial partial e = record e { partial = partial % 2 ^ 8 }

-- `InternalEntry(NodeType node_type, const InternalEntry& e)`
unfoldable pub with_type : NodeType → InternalEntry → InternalEntry
with_type node_type e = record e { kv_len = node_type % 2 ^ 5 * 2 ^ 2 }

-- `operator==` compares the words.
unfoldable pub eq_entry : InternalEntry → InternalEntry → Bool
unfolding val
eq_entry a b = val a == val b

unfoldable pub addr_of : InternalEntry → GlobalAddress
unfolding unpack
addr_of e = unpack e.packed_addr
