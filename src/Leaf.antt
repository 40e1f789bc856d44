-- ===== src/Leaf.antt =====
-- The leaf of include/Node.h, and its protocol in src/Tree.cpp, `read_leaf` and `in_place_update_leaf`,
-- with the lock in the leaf. `crc` stands for the checksum of the bytes of the key and the value.
pub mod Read
pub mod Update
pub mod Tests
use hybrid_heterogeneous_mem.Prelude.{
  ℕ, ◌+◌, ◌<◌, ◌≡◌, Bool, true, false, ◌&&◌, ◌||◌, not, Option, none, some, List, [], ◌∷◌, ◌++◌,
  ◌==◌, if◌then◌else◌,
}
use hybrid_heterogeneous_mem.Address.{GlobalAddress, eq_address}
use hybrid_heterogeneous_mem.Key.{Key}

-- The padding bits, which are 0, are left out.
pub record Leaf : Type 0 where
  pub rev_ptr : GlobalAddress
  pub valid : Bool
  pub checksum : ℕ
  pub key : Key
  pub value : ℕ
  pub w_lock : ℕ

-- `is_valid(p_ptr, from_cache)`
unfoldable pub is_valid : GlobalAddress → Bool → Leaf → Bool
is_valid p_ptr from_cache leaf = leaf.valid && (not from_cache || eq_address p_ptr leaf.rev_ptr)

unfoldable pub set_value : ℕ → Leaf → Leaf
set_value val leaf = record leaf { value = val }

unfoldable pub unlock : Leaf → Leaf
unlock leaf = record leaf { w_lock = 0 }

unfoldable pub lock : Leaf → Leaf
lock leaf = record leaf { w_lock = 1 }

module _ (crc : Key → ℕ → ℕ) where
  unfoldable pub is_consistent : Leaf → Bool
  is_consistent leaf = crc leaf.key leaf.value == leaf.checksum

  unfoldable pub set_consistent : Leaf → Leaf
  set_consistent leaf = record leaf { checksum = crc leaf.key leaf.value }

  -- The constructor.
  unfoldable pub make_leaf : Key → ℕ → GlobalAddress → Leaf
  unfolding set_consistent
  make_leaf key value rev_ptr = set_consistent (record {
    rev_ptr = rev_ptr;
    valid = true;
    checksum = 0;
    key = key;
    value = value;
    w_lock = 0;
  })

-- The update of the reverse pointer that a read of the leaf sends, with the expected and the new value.
unfoldable pub fix_rev_ptr : GlobalAddress → Bool → Leaf → List (GlobalAddress × GlobalAddress)
fix_rev_ptr p_ptr from_cache leaf =
    if not from_cache && not (eq_address leaf.rev_ptr p_ptr) then (leaf.rev_ptr, p_ptr) ∷ [] else []

-- What a call of `read_leaf` gives: its result, the leaf in its buffer, and the swaps that it sent.
abbrev pub ReadResult : Type 0
ReadResult = Bool × Leaf × List (GlobalAddress × GlobalAddress)

-- The swaps of a round come before those of the rounds behind it.
unfoldable pub sent_first :
    List (GlobalAddress × GlobalAddress) → Option ReadResult → Option ReadResult
sent_first cas none = none
sent_first cas (some (ok, leaf, later)) = some (ok, leaf, cas ++ later)

module _ (crc : Key → ℕ → ℕ) (p_ptr : GlobalAddress) (from_cache : Bool) where
  -- `read_leaf`, by the leaves that its reads see one after the other; `none` when it would read on.
  unfoldable pub read_leaf : List Leaf → Option ReadResult
  read_leaf [] = none
  read_leaf (leaf ∷ images) =
      let again = read_leaf images in
      let cas = fix_rev_ptr p_ptr from_cache leaf in
      if not (is_valid p_ptr from_cache leaf)
      then some (false, leaf, cas)
      else if not (is_consistent crc leaf)
      then sent_first cas again
      else some (true, leaf, cas)

-- `acquire_lock`: the compare-and-swap of the lock bit, its result and the leaf in remote memory.
unfoldable pub acquire_lock : Leaf → Bool × Leaf
acquire_lock remote = if remote.w_lock == 0 then (true, lock remote) else (false, remote)

-- What the holder of the lock writes back, from the copy of the leaf that it has.
unfoldable pub written_leaf : (Key → ℕ → ℕ) → ℕ → Leaf → Leaf
written_leaf crc v leaf = unlock (set_consistent crc (set_value v leaf))

-- Where a client of `in_place_update_leaf` stands: in the loop that acquires the lock, behind it, or in the
-- middle of its write; with the value that it writes, after combining, and its copy of the leaf.
pub data Pc : Type 0 where
  away : Pc
  acquiring : ℕ → Leaf → Pc
  holding : ℕ → Leaf → Pc
  writing : ℕ → Leaf → Pc

-- One step of a client on the leaf of the key `k` in remote memory. `write_sync` of the leaf is no single step:
-- before it is done, the bytes in front of the last one, which is the byte of the lock, are there in part, so
-- that any value, checksum, valid bit and reverse pointer may be met; the bytes of the key are written over
-- by the same ones.
pub data Move (crc : Key → ℕ → ℕ) (k : Key) (remote : Leaf) : Pc → Leaf → Pc → Type 0 where
  called : (v : ℕ) (leaf : Leaf) → leaf.key ≡ k → Move crc k remote away remote (acquiring v leaf)
  acquired :
      {v : ℕ} {leaf : Leaf}
      → (acquire_lock remote).0 ≡ true
      → Move crc k remote (acquiring v leaf) (acquire_lock remote).1 (holding v leaf)
  failed :
      {v : ℕ} {leaf : Leaf}
      → (acquire_lock remote).0 ≡ false
      → Move crc k remote (acquiring v leaf) (acquire_lock remote).1 (acquiring v leaf)
  began :
      {v : ℕ} {leaf torn : Leaf}
      → torn.key ≡ remote.key
      → torn.w_lock ≡ remote.w_lock
      → Move crc k remote (holding v leaf) torn (writing v leaf)
  went_on :
      {v : ℕ} {leaf torn : Leaf}
      → torn.key ≡ remote.key
      → torn.w_lock ≡ remote.w_lock
      → Move crc k remote (writing v leaf) torn (writing v leaf)
  wrote : {v : ℕ} {leaf : Leaf} → Move crc k remote (writing v leaf) (written_leaf crc v leaf) away
