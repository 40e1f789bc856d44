-- ===== src/Address/Tests.antt =====
-- Addresses of include/GlobalAddress.h at concrete values.
use hybrid_heterogeneous_mem.Prelude.{◌%◌, ◌^◌, ◌<◌, ◌≡◌, ◌↔◌, arith}
use hybrid_heterogeneous_mem.Address.{
  GlobalAddress, IsAddress, PackedGAddr, IsPacked, packed_val, pack, unpack,
}
use hybrid_heterogeneous_mem.Address.Laws.{unpack-pack}

abbrev low : GlobalAddress
low = record { node_id = 1; offset = 512 }

abbrev high : GlobalAddress
high = record { node_id = 3; offset = 4096 }

abbrev packed : PackedGAddr
packed = record { mn_id = 3; unit = 16 }

low-IsAddress : IsAddress low
low-IsAddress = record { node_id_fits = omega arith; offset_fits = omega arith }

high-IsAddress : IsAddress high
high-IsAddress = record { node_id_fits = omega arith; offset_fits = omega arith }

packed-IsPacked : IsPacked packed
packed-IsPacked = record { mn_id_fits = omega arith; unit_fits = omega arith }

unpack-pack_example :
    ((unpack (pack low) ≡ low) ↔ ((low.node_id < 256) × (low.offset % 256 ≡ 0)))
    × (pack (unpack packed) ≡ packed)
    × (packed_val packed < 2 ^ 48)
unpack-pack_example = unpack-pack low packed low-IsAddress packed-IsPacked
