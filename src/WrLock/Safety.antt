-- ===== src/WrLock/Safety.antt =====
-- Any number of threads on the lock, in any order.
use hybrid_heterogeneous_mem.Prelude.{
  ℕ, ◌+◌, ◌*◌, ◌^◌, ◌<◌, ◌≤◌, ◌≡◌, ◌≢◌, refl, ap, arith, ℕ_discrete, ◌⊎◌, inl,
}
use mathlib.Core.Logic.{ite}
use hybrid_heterogeneous_mem.Prelude.Threads.{
  replace, sum_over, sum_over-replace, le-sum_over, le-sum_over_two, sum_over-le, sum_over-zero,
}
use hybrid_heterogeneous_mem.WrLock.{
  unlocked, swap, r_unlock, load, swap_failed, Pc, idle, spin, loaded, reading, writing, Move,
  call_w_lock, call_try_w_lock, call_r_lock, call_try_r_lock, call_r_unlock, store_w_unlock,
  load_again, load_done, load_swap, swap_won, swap_again, swap_done, System,
}

pub data Step (n : ℕ) (s : System) : System → Type 0 where
  turn :
      (i : ℕ) {l : ℕ} {p : Pc}
      → i < n
      → Move s.word (s.pc i) l p
      → Step n s (record { word = l; pc = replace s.pc i p })

-- `init`
abbrev pub start_state : System
start_state = record { word = unlocked; pc = λ _. idle }

pub data Reach (n : ℕ) : System → Type 0 where
  start : Reach n start_state
  later : {s t : System} → Reach n s → Step n s t → Reach n t

-- A thread holds the lock for reading until its `rUnlock` has swapped.
abbrev pub holds_read : Pc → ℕ
holds_read reading = 1
holds_read (spin r_unlock) = 1
holds_read (loaded r_unlock v b) = 1
holds_read _ = 0

abbrev pub holds_write : Pc → ℕ
holds_write writing = 1
holds_write _ = 0

-- A value that waits to be swapped in is the one that the call computed from what it loaded.
abbrev IsFresh : Pc → Type 0
IsFresh (loaded c v b) = load c v ≡ swap v b
IsFresh _ = Unit

-- The word counts two for each reader and one for a writer, who is alone.
pub record Inv (n : ℕ) (s : System) : Type 0 where
  pub word : s.word ≡ 2 * sum_over holds_read n s.pc + sum_over holds_write n s.pc
  pub alone :
      (sum_over holds_write n s.pc ≡ 0)
      ⊎ ((sum_over holds_write n s.pc ≡ 1) × (sum_over holds_read n s.pc ≡ 0))
  pub fresh : (i : ℕ) → IsFresh (s.pc i)

holds_read-le : (p : Pc) → holds_read p ≤ 1
holds_read-le p = ground arith

-- What a move does to the two counts, and that it leaves a fresh thread.
Move-word :
    {l l' : ℕ} {p p' : Pc} (r w r' w' : ℕ)
    → Move l p l' p'
    → l ≡ 2 * r + w
    → (w ≡ 0) ⊎ ((w ≡ 1) × (r ≡ 0))
    → IsFresh p
    → r' + holds_read p ≡ r + holds_read p'
    → w' + holds_write p ≡ w + holds_write p'
    → holds_read p ≤ r
    → r' < 2 ^ 15
    → (l' ≡ 2 * r' + w') × ((w' ≡ 0) ⊎ ((w' ≡ 1) × (r' ≡ 0))) × IsFresh p'
unfolding load swap_failed
Move-word r w r' w' call_w_lock e a f er ew own few = ground arith
Move-word r w r' w' call_try_w_lock e a f er ew own few = ground arith
Move-word r w r' w' call_r_lock e a f er ew own few = ground arith
Move-word r w r' w' call_try_r_lock e a f er ew own few = ground arith
Move-word r w r' w' call_r_unlock e a f er ew own few = ground arith
Move-word r w r' w' store_w_unlock e a f er ew own few = ground arith
Move-word r w r' w' (load_again {c = c} g) e a f er ew own few = ground arith
Move-word r w r' w' (load_done {c = c} g) e a f er ew own few = ground arith
Move-word r w r' w' (load_swap {c = c} g) e a f er ew own few = ground arith
Move-word r w r' w' (swap_won {c = c} g) e a f er ew own few = ground arith
Move-word r w r' w' (swap_again {c = c} ne g) e a f er ew own few = ground arith
Move-word r w r' w' (swap_done {c = c} ne g) e a f er ew own few = ground arith

Step-Inv : {n : ℕ} {s t : System} → n < 2 ^ 15 → Step n s t → Inv n s → Inv n t
Step-Inv {n} {s} few (turn i {l} {p} lt mv) v =
    let reads = sum_over-replace holds_read n s.pc i p lt in
    let writes = sum_over-replace holds_write n s.pc i p lt in
    let small = sum_over-le holds_read holds_read-le n (replace s.pc i p) in
    let (e, a, f) =
      Move-word (sum_over holds_read n s.pc) (sum_over holds_write n s.pc)
        (sum_over holds_read n (replace s.pc i p)) (sum_over holds_write n (replace s.pc i p)) mv
        v.word v.alone (v.fresh i) reads writes (le-sum_over holds_read n s.pc i lt)
        (omega arith) in
    record {
      word = e;
      alone = a;
      fresh = λ j. elim (ℕ_discrete j i) as (λ d. IsFresh (ite d p (s.pc j))) [
        | yes _ ↦ f
        | no _ ↦ v.fresh j
      ];
    }

-- From the unlocked word, through any interleaving of the calls of fewer than `2 ^ 15` threads, the
-- word counts the readers and the writer.
pub Reach-Inv : {n : ℕ} {s : System} → n < 2 ^ 15 → Reach n s → Inv n s
Reach-Inv {n} few start = record {
  word = omega (arith, sum_over-zero holds_read n idle refl, sum_over-zero holds_write n idle refl);
  alone = inl (sum_over-zero holds_write n idle refl);
  fresh = λ _. tt;
}
Reach-Inv few (later r st) = Step-Inv few st (Reach-Inv few r)

-- Fewer than `2 ^ 15` threads share one `WRLock`, and their loads, swaps and stores on its word
-- interleave in any order. A thread that has the lock for writing is alone: no other thread has it for
-- reading or for writing.
pub mutual_exclusion :
    {n : ℕ} {s : System} {i j : ℕ}
    → n < 2 ^ 15
    → Reach n s
    → i < n
    → j < n
    → i ≢ j
    → s.pc i ≡ writing
    → (holds_read (s.pc j) ≡ 0) × (holds_write (s.pc j) ≡ 0)
mutual_exclusion {n} {s} {i} {j} few r lt lt' ne e =
    let v = Reach-Inv few r in
    let own : holds_write (s.pc i) ≡ 1 = ap holds_write e in
    let two = le-sum_over_two holds_write n s.pc i j lt lt' ne in
    let other = le-sum_over holds_read n s.pc j lt' in omega arith
