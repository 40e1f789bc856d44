-- ===== src/Address/Laws.antt =====
-- Addresses and their words.
use hybrid_heterogeneous_mem.Prelude.{ℕ, ◌+◌, ◌%◌, ◌^◌, ◌<◌, ◌≡◌, ◌↔◌, ap, ◌⊎◌, true, false, arith}
use hybrid_heterogeneous_mem.Address.{
  GlobalAddress, IsAddress, make, to_val, of_val, gadd, eq_address, lt_address, PackedGAddr,
  IsPacked, packed_val, pack, unpack,
}

pub to_val-of_val : (v : ℕ) → v < 2 ^ 64 → to_val (of_val v) ≡ v
unfolding to_val of_val
to_val-of_val v h = omega arith

-- Addresses are the 64-bit words: reading back either way gives the same, an address is determined
-- by its word, and `==` on addresses tests for equality.
pub GlobalAddress-words :
    (a b : GlobalAddress)
    → IsAddress a
    → IsAddress b
    → (of_val (to_val a) ≡ a)
      × (to_val a < 2 ^ 64)
      × ((eq_address a b ≡ true) ↔ (a ≡ b))
      × ((to_val a ≡ to_val b) ↔ (a ≡ b))
unfolding to_val of_val eq_address
GlobalAddress-words a b h k =
    (ground arith, omega arith, ground arith, (λ e. ground arith, λ e. ap to_val e))

-- `<` on addresses is a strict total order, that of the node numbers and then of the offsets.
pub lt_address_total :
    (a b c : GlobalAddress)
    → (lt_address a a ≡ false)
      × (lt_address a b ≡ true → lt_address b c ≡ true → lt_address a c ≡ true)
      × ((lt_address a b ≡ true) ⊎ ((a ≡ b) ⊎ (lt_address b a ≡ true)))
unfolding lt_address
lt_address_total a b c = (ground arith, ground arith, ground arith)

-- Packing an address keeps it exactly when its node's number has eight bits and its offset is
-- aligned to 256 bytes; unpacking and packing keeps every packed address.
pub unpack-pack :
    (a : GlobalAddress) (p : PackedGAddr)
    → IsAddress a
    → IsPacked p
    → ((unpack (pack a) ≡ a) ↔ ((a.node_id < 256) × (a.offset % 256 ≡ 0)))
      × (pack (unpack p) ≡ p)
      × (packed_val p < 2 ^ 48)
unfolding pack unpack packed_val make
unpack-pack a p h k = (
  (
    λ e.
        let n = ap (λ x. x.node_id) e in let o = ap (λ x. x.offset) e in (omega arith, omega arith),
    λ e. ground arith,
  ),
  ground arith,
  omega arith,
)

-- Offsets within the memory of a node add up.
pub gadd-gadd : (a : GlobalAddress) (m n : ℕ) → gadd (gadd a m) n ≡ gadd a (m + n)
unfolding gadd
gadd-gadd a m n = ground arith
