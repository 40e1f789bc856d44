-- ===== src/Address.antt =====
-- include/GlobalAddress.h and `PackedGAddr` of include/Node.h: addresses of the shared memory, as
-- bit fields of one 64-bit and one 48-bit word.
pub mod Laws
pub mod Tests
use hybrid_heterogeneous_mem.Prelude.{
  ℕ, ◌+◌, ◌*◌, ◌/◌, ◌%◌, ◌^◌, ◌<◌, Bool, true, false, ◌&&◌, ltb, ◌==◌, if◌then◌else◌,
}

-- `nodeID` is the low field of 16 bits, `offset` the high one of 48.
pub record GlobalAddress : Type 0 where
  pub node_id : ℕ
  pub offset : ℕ

-- What the bit fields guarantee.
pub record IsAddress (a : GlobalAddress) : Type 0 where
  pub node_id_fits : a.node_id < 2 ^ 16
  pub offset_fits : a.offset < 2 ^ 48

-- A value is cut to its field.
unfoldable pub make : ℕ → ℕ → GlobalAddress
make node_id offset = record { node_id = node_id % 2 ^ 16; offset = offset % 2 ^ 48 }

unfoldable pub to_val : GlobalAddress → ℕ
to_val a = a.offset * 2 ^ 16 + a.node_id

unfoldable pub of_val : ℕ → GlobalAddress
of_val v = record { node_id = v % 2 ^ 16; offset = v / 2 ^ 16 % 2 ^ 48 }

unfoldable pub null : GlobalAddress
null = record { node_id = 0; offset = 0 }

-- `MEMORY_NODE_NUM` is 1.
unfoldable pub max_address : GlobalAddress
unfolding make
max_address = make 1 0

-- `GADD`, at the offsets that the program adds, which are not negative.
unfoldable pub gadd : GlobalAddress → ℕ → GlobalAddress
gadd a off = record a { offset = (a.offset + off) % 2 ^ 48 }

unfoldable pub eq_address : GlobalAddress → GlobalAddress → Bool
eq_address a b = (a.node_id == b.node_id) && (a.offset == b.offset)

-- The order of `std::make_pair(nodeID, offset)`.
unfoldable pub lt_address : GlobalAddress → GlobalAddress → Bool
lt_address a b =
    if ltb a.node_id b.node_id
    then true
    else if ltb b.node_id a.node_id
    then false
    else ltb a.offset b.offset

-- Eight bits of the memory node's number under forty bits of the offset.
pub record PackedGAddr : Type 0 where
  pub mn_id : ℕ
  pub unit : ℕ

pub record IsPacked (p : PackedGAddr) : Type 0 where
  pub mn_id_fits : p.mn_id < 2 ^ 8
  pub unit_fits : p.unit < 2 ^ 40

unfoldable pub packed_val : PackedGAddr → ℕ
packed_val p = p.unit * 2 ^ 8 + p.mn_id

-- `{addr.nodeID, addr.offset >> ALLOC_ALLIGN_BIT}`
unfoldable pub pack : GlobalAddress → PackedGAddr
pack a = record { mn_id = a.node_id % 2 ^ 8; unit = a.offset / 2 ^ 8 % 2 ^ 40 }

-- `GlobalAddress{packed_addr.mn_id, packed_addr.offset << ALLOC_ALLIGN_BIT}`
unfoldable pub unpack : PackedGAddr → GlobalAddress
unfolding make
unpack p = make p.mn_id (p.unit * 2 ^ 8)
