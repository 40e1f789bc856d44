-- ===== src/WrLock.antt =====
-- include/WRLock.h: a readers-writer spin lock in one atomic `uint16_t`, a shared access at a time.
pub mod Safety
pub mod Tests
use hybrid_heterogeneous_mem.Prelude.{
  ℕ, ◌+◌, ◌-◌, ◌%◌, ◌^◌, ◌<◌, ◌≡◌, ◌≢◌, Bool, true, false, Option, none, some, ◌==◌, if◌then◌else◌,
  ℕ_discrete,
}

abbrev pub unlocked : ℕ
unlocked = 0

abbrev pub locked : ℕ
locked = 1

-- One round of a call, by what it reads first. `done` is the return, with its result; `again` goes
-- back to the load; `swap v b` goes on to the compare-and-swap.
pub data Round : Type 0 where
  done : Bool → Round
  again : Round
  swap : ℕ → ℕ → Round

pub data Call : Type 0 where
  w_lock try_w_lock r_lock try_r_lock r_unlock w_unlock : Call

-- What a call does with the value that it loads; `uint16_t b = v + 2` and `v - 2` wrap around.
unfoldable pub load : Call → ℕ → Round
load w_lock v = if v == unlocked then swap unlocked locked else again
load try_w_lock v = if v == unlocked then swap unlocked locked else done false
load r_lock v = if v == locked then again else swap v ((v + 2) % 2 ^ 16)
load try_r_lock v = if v == locked then done false else swap v ((v + 2) % 2 ^ 16)
load r_unlock v = swap v ((v + 2 ^ 16 - 2) % 2 ^ 16)
load w_unlock v = done true

-- What a call does behind a compare-and-swap that failed.
unfoldable pub swap_failed : Call → Round
swap_failed w_lock = again
swap_failed try_w_lock = done false
swap_failed r_lock = again
swap_failed try_r_lock = again
swap_failed r_unlock = again
swap_failed w_unlock = again

-- Where a thread stands. It calls an unlock only for what it holds.
pub data Pc : Type 0 where
  idle : Pc
  spin : Call → Pc
  loaded : Call → ℕ → ℕ → Pc
  reading : Pc
  writing : Pc

-- Where a call that ended by its swap leaves the thread.
abbrev pub after : Call → Pc
after w_lock = writing
after try_w_lock = writing
after r_lock = reading
after try_r_lock = reading
after r_unlock = idle
after w_unlock = idle

-- One step of a thread on the word.
pub data Move (l : ℕ) : Pc → ℕ → Pc → Type 0 where
  call_w_lock : Move l idle l (spin w_lock)
  call_try_w_lock : Move l idle l (spin try_w_lock)
  call_r_lock : Move l idle l (spin r_lock)
  call_try_r_lock : Move l idle l (spin try_r_lock)
  call_r_unlock : Move l reading l (spin r_unlock)
  store_w_unlock : Move l writing unlocked idle
  load_again : {c : Call} → load c l ≡ again → Move l (spin c) l (spin c)
  load_done : {c : Call} → load c l ≡ done false → Move l (spin c) l idle
  load_swap : {c : Call} {v b : ℕ} → load c l ≡ swap v b → Move l (spin c) l (loaded c v b)
  swap_won : {c : Call} {v b : ℕ} → l ≡ v → Move l (loaded c v b) b (after c)
  swap_again :
      {c : Call} {v b : ℕ} → l ≢ v → swap_failed c ≡ again → Move l (loaded c v b) l (spin c)
  swap_done :
      {c : Call} {v b : ℕ} → l ≢ v → swap_failed c ≡ done false → Move l (loaded c v b) l idle

-- `n` threads.
pub record System : Type 0 where
  pub word : ℕ
  pub pc : ℕ → Pc
