-- ===== src/Common.antt =====
-- include/Common.h: the constants of the configuration and the rounding macros.
use hybrid_heterogeneous_mem.Prelude.{ℕ, ◌+◌, ◌-◌, ◌*◌, ◌/◌, ◌^◌, ◌≤◌, ◌<◌, arith}

abbrev pub key_len : ℕ
key_len = 8

abbrev pub alloc_allign_bit : ℕ
alloc_allign_bit = 8

abbrev pub k_chunk_size : ℕ
k_chunk_size = 16 * (1024 * 1024)

-- `((x) + (1<<(n)) - 1) & ~((1<<(n)) - 1)`: the mask clears the low `n` bits.
unfoldable pub round_up : ℕ → ℕ → ℕ
round_up x n = (x + 2 ^ n - 1) / 2 ^ n * 2 ^ n

pub round_up_bounds :
    (x : ℕ) → (x ≤ round_up x alloc_allign_bit) × (round_up x alloc_allign_bit < x + 256)
unfolding round_up
round_up_bounds x = (omega arith, omega arith)
