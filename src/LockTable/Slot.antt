-- ===== src/LockTable/Slot.antt =====
-- `LocalLockNode` of include/LocalLockTable.h. `Hash::get_hashed_lock_index` picks the node of the
-- table for a key or an address; what follows is about one node.
use hybrid_heterogeneous_mem.Prelude.{
  ℕ, ◌+◌, ◌-◌, ◌%◌, ◌^◌, ◌≡◌, refl, Bool, true, false, ◌&&◌, [], ◌∷◌, Option, none, some, ◌==◌,
  if◌then◌else◌, arith,
}
use hybrid_heterogeneous_mem.Address.{GlobalAddress, null}
use hybrid_heterogeneous_mem.Key.{Key}

-- The counters are `uint8_t`. `ret` is the union of `ret_value` and `ret_p`, as its 64-bit word.
pub record LocalLockNode : Type 0 where
  pub read_current : ℕ
  pub read_ticket : ℕ
  pub read_handover : Bool
  pub write_current : ℕ
  pub write_ticket : ℕ
  pub write_handover : Bool
  pub window_start : Bool
  pub read_window : ℕ
  pub write_window : ℕ
  pub unique_read_key : Option Key
  pub unique_write_key : Option Key
  pub unique_addr : GlobalAddress
  pub res : Bool
  pub ret : ℕ
  pub wc_buffer : ℕ
  pub handover_cnt : ℕ

-- The constructor; it leaves `res`, `ret` and `wc_buffer` as they are in memory.
unfoldable pub new : Bool → ℕ → ℕ → LocalLockNode
unfolding null
new res ret wc_buffer = record {
  read_current = 0;
  read_ticket = 0;
  read_handover = false;
  write_current = 0;
  write_ticket = 0;
  write_handover = false;
  window_start = false;
  read_window = 0;
  write_window = 0;
  unique_read_key = none;
  unique_write_key = none;
  unique_addr = null;
  res = res;
  ret = ret;
  wc_buffer = wc_buffer;
  handover_cnt = 0;
}

-- Arithmetic on `uint8_t`.
abbrev pub next8 : ℕ → ℕ
next8 x = (x + 1) % 2 ^ 8

abbrev pub minus8 : ℕ → ℕ → ℕ
minus8 a b = (2 ^ 8 + a - b) % 2 ^ 8

-- `operator==` of `std::array`.
unfoldable pub eq_key : Key → Key → Bool
eq_key [] [] = true
eq_key [] (y ∷ ys) = false
eq_key (x ∷ xs) [] = false
eq_key (x ∷ xs) (y ∷ ys) = x == y && eq_key xs ys

pub eq_key_refl : (k : Key) → eq_key k k ≡ true
unfolding eq_key
eq_key_refl [] = refl
eq_key_refl (x ∷ xs) = ground (arith, eq_key_refl xs)

pub eq_key→eq : (j k : Key) → eq_key j k ≡ true → j ≡ k
unfolding eq_key
eq_key→eq [] [] e = refl
eq_key→eq [] (y ∷ ys) e = cc
eq_key→eq (x ∷ xs) [] e = cc
eq_key→eq (x ∷ xs) (y ∷ ys) e = ground (arith, eq_key→eq xs ys)

-- `unique_key && *unique_key == k`
abbrev pub points_to : Option Key → Key → Bool
points_to none k = false
points_to (some j) k = eq_key j k

-- What `acquire_…` gives at once: a conflict of keys, or a ticket to wait with.
pub data Request : Type 0 where
  conflict : Request
  ticket : ℕ → Request

-- `if (!node.read_window && !node.write_window) node.window_start = false;`
unfoldable pub close_window : LocalLockNode → LocalLockNode
close_window node =
    if (node.read_window == 0) && (node.write_window == 0)
    then record node { window_start = false }
    else node
