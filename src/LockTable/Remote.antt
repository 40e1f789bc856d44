-- ===== src/LockTable/Remote.antt =====
-- The remote locks that the baselines hold, and the results that they hand over.
use hybrid_heterogeneous_mem.Prelude.{
  ℕ, ◌+◌, ◌≤◌, ◌≡◌, ◌≢◌, Bool, true, false, List, [], ◌∷◌, Option, none, some, if◌then◌else◌, arith,
}
use hybrid_heterogeneous_mem.Address.{GlobalAddress, eq_address}
use hybrid_heterogeneous_mem.Key.{Key}
use hybrid_heterogeneous_mem.LockTable.Slot.{LocalLockNode, next8, eq_key_refl}
use hybrid_heterogeneous_mem.LockTable.Handover.{
  RemoteCall, unlock_func, write_without_unlock, write_and_unlock, write_func, enter_lock,
  release_lock, release_embedded, enter_cas, release_cas, enter_write_test, release_write_test,
  enter_read_test, release_read_test,
}

-- The list without the first occurrence of the address; `none` if it is not there.
unfoldable pub remove : GlobalAddress → List GlobalAddress → Option (List GlobalAddress)
remove a [] = none
remove a (b ∷ bs) =
    if eq_address b a then some bs else elim (remove a bs) [ none ↦ none | some r ↦ some (b ∷ r) ]

-- What the calls do to the remote locks that are held: `none` if one is unlocked that is not held.
unfoldable pub run_calls : List RemoteCall → List GlobalAddress → Option (List GlobalAddress)
unfolding remove
run_calls [] held = some held
run_calls (unlock_func a ∷ cs) held = elim (remove a held) [ none ↦ none | some h ↦ run_calls cs h ]
run_calls (write_and_unlock a ∷ cs) held = elim (remove a held) [
  | none ↦ none
  | some h ↦ run_calls cs h
]
run_calls (write_without_unlock a ∷ cs) held = run_calls cs held
run_calls (write_func v ∷ cs) held = run_calls cs held

-- The remote locks that stay held between a release and the next turn.
abbrev pub at_rest : LocalLockNode → List GlobalAddress
at_rest node = if node.write_handover then node.unique_addr ∷ [] else []

-- The remote locks during a turn: one whose turn is not handed over takes the lock of its address.
abbrev pub in_turn : GlobalAddress → Bool × LocalLockNode → List GlobalAddress → List GlobalAddress
in_turn addr r held = if r.0 then held else addr ∷ held

eq_address_refl : (a : GlobalAddress) → eq_address a a ≡ true
unfolding eq_address
eq_address_refl a = ground arith

-- A turn at an address, from one rest to the next: a lock that is already held is not taken again,
-- every lock that the release gives up is held, and after it exactly the lock that is handed over
-- stays held. So for the release with an embedded lock.
pub remote_locks :
    (addr : GlobalAddress) (node : LocalLockNode)
    → let r = enter_lock addr node in
      let held = in_turn addr r (at_rest node) in
      (r.0 ≡ false → remove addr (at_rest node) ≡ none)
      × (run_calls (release_lock addr r.1).0 held ≡ some (at_rest (release_lock addr r.1).1))
      × (run_calls (release_embedded addr r.1).0 held
          ≡ some (at_rest (release_embedded addr r.1).1))
unfolding enter_lock run_calls release_lock release_embedded
remote_locks addr node = (ground arith, ground arith, ground arith)

-- The remote locks of the write test, where the lock is never handed over: a turn that is not told
-- to skip its write takes the lock of its address, the release gives up every lock that is held,
-- and writes the buffer before the winner's lock goes.
pub write_test_locks :
    (addr : GlobalAddress) (v : ℕ) (node : LocalLockNode)
    → let r = enter_write_test addr node in
      let (calls, node') = release_write_test addr v r.1 in
      (run_calls calls (in_turn addr r []) ≡ some [])
      × (node.write_handover ≡ false → calls ≡ write_func node.wc_buffer ∷ unlock_func addr ∷ [])
unfolding enter_write_test run_calls release_write_test
write_test_locks addr v node = (ground arith, ground arith)

-- The counter of a node never passes nine; a release that hands over counts one more, and one that
-- does not starts again at zero, so that at most nine releases in a row hand over. A release without
-- a waiting ticket never hands over.
pub handover_bound :
    (addr : GlobalAddress) (node : LocalLockNode)
    → node.handover_cnt ≤ 9
    → let node' = (release_lock addr node).1 in
      (node'.handover_cnt ≤ 9)
      × (node'.write_handover ≡ true → node'.handover_cnt ≡ node.handover_cnt + 1)
      × (node'.write_handover ≡ false → node'.handover_cnt ≡ 0)
      × (node'.write_handover ≡ true → node.write_ticket ≢ next8 node.write_current)
unfolding release_lock
handover_bound addr node h = (ground arith, ground arith, ground arith, ground arith)

-- The result of a compare-and-swap is handed on: whoever enters with the same key behind a winner
-- that found others waiting is told so, and goes on with the winner's result and entry, whatever
-- its own are.
pub cas_handover :
    (k : Key) (res res' : Bool) (p p' : ℕ) (node : LocalLockNode)
    → node.write_handover ≡ false
    → let (h, entered) = enter_cas k node in
      let (r, q, rest) = release_cas k res p entered in
      (h ≡ false)
      × (r ≡ res)
      × (q ≡ p)
      × (rest.write_handover ≡ true
          → let (h', entered') = enter_cas k rest in
            let (r', q', rest') = release_cas k res' p' entered' in
            (h' ≡ true) × (r' ≡ res) × (q' ≡ p))
unfolding enter_cas release_cas
cas_handover k res res' p p' node w = (
  ground arith,
  ground (arith, eq_key_refl k),
  ground (arith, eq_key_refl k),
  λ e.
      (ground (arith, eq_key_refl k), ground (arith, eq_key_refl k), ground (arith, eq_key_refl k)),
)

-- The read test hands on the value in the same way, from one reader of an address to the next.
pub read_test_handover :
    (a : GlobalAddress) (res res' : Bool) (v v' : ℕ) (node : LocalLockNode)
    → node.read_handover ≡ false
    → let (h, entered) = enter_read_test a node in
      let (r, q, rest) = release_read_test a res v entered in
      (h ≡ false)
      × (r ≡ res)
      × (q ≡ v)
      × (rest.read_handover ≡ true
          → let (h', entered') = enter_read_test a rest in
            let (r', q', rest') = release_read_test a res' v' entered' in
            (h' ≡ true) × (r' ≡ res) × (q' ≡ v))
unfolding enter_read_test release_read_test
read_test_handover a res res' v v' node w =
    (ground arith, ground arith, ground arith, λ e. (ground arith, ground arith, ground arith))
