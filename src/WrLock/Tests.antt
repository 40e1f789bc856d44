-- ===== src/WrLock/Tests.antt =====
-- Two threads on one lock.
use hybrid_heterogeneous_mem.Prelude.{◌≡◌, refl, arith, ℕ_discrete}
use hybrid_heterogeneous_mem.Prelude.Threads.{replace}
use hybrid_heterogeneous_mem.WrLock.{
  w_lock, load, spin, loaded, writing, System, call_w_lock, load_swap, swap_won,
}
use hybrid_heterogeneous_mem.WrLock.Safety.{
  start_state, turn, Reach, start, later, holds_read, holds_write, mutual_exclusion,
}

abbrev called : System
called = record { word = 0; pc = replace start_state.pc 0 (spin w_lock) }

abbrev read_word : System
read_word = record { word = 0; pc = replace called.pc 0 (loaded w_lock 0 1) }

abbrev end_state : System
end_state = record { word = 1; pc = replace read_word.pc 0 writing }

locked_run : Reach 2 end_state
unfolding load ℕ_discrete
locked_run =
    later
      (later (later start (turn 0 (omega arith) call_w_lock))
        (turn 0 (omega arith) (load_swap refl)))
      (turn 0 (omega arith) (swap_won refl))

mutual_exclusion_example : (holds_read (end_state.pc 1) ≡ 0) × (holds_write (end_state.pc 1) ≡ 0)
unfolding ℕ_discrete
mutual_exclusion_example =
    mutual_exclusion {n = 2} {s = end_state} {i = 0} {j = 1} (omega arith) locked_run (omega arith)
      (omega arith) (omega arith) refl
