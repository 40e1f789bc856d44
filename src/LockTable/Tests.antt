-- ===== src/LockTable/Tests.antt =====
-- A node of the lock table at concrete values.
use hybrid_heterogeneous_mem.Prelude.{
  ◌+◌, ◌≤◌, ◌≡◌, ◌≢◌, refl, [], ◌∷◌, true, false, not, ◌==◌, some, none, arith, replicate,
}
use hybrid_heterogeneous_mem.Address.{GlobalAddress}
use hybrid_heterogeneous_mem.Key.{Key}
use hybrid_heterogeneous_mem.LockTable.Slot.{LocalLockNode, new, next8, ticket}
use hybrid_heterogeneous_mem.LockTable.Write.{
  request_write, may_write, enter_write, get_combining_value,
}
use hybrid_heterogeneous_mem.LockTable.Handover.{enter_lock, release_lock, release_embedded}
use hybrid_heterogeneous_mem.LockTable.Combine.{request_writes, serve_writes, tickets, last_of}
use hybrid_heterogeneous_mem.LockTable.Combine
use hybrid_heterogeneous_mem.LockTable.Combine.Queue.{write_combining, ticket_wrap}
use hybrid_heterogeneous_mem.LockTable.Delegate.{Found, request_reads, serve_reads}
use hybrid_heterogeneous_mem.LockTable.Delegate
use hybrid_heterogeneous_mem.LockTable.Delegate.Queue.{read_delegation}
use hybrid_heterogeneous_mem.LockTable.Remote.{
  run_calls, remove, at_rest, in_turn, remote_locks, handover_bound,
}

abbrev key : Key
key = 0 ∷ 0 ∷ 0 ∷ 0 ∷ 0 ∷ 0 ∷ 1 ∷ 2 ∷ []

abbrev leaf_addr : GlobalAddress
leaf_addr = record { node_id = 1; offset = 256 }

abbrev node : LocalLockNode
node = new false 0 0

node-IsIdle : Combine.IsIdle node
unfolding new
node-IsIdle = record {
  small = omega arith;
  no_ticket = refl;
  no_handover = refl;
  no_window = refl;
  no_key = refl;
}

node-IsIdle_read : Delegate.IsIdle node
unfolding new
node-IsIdle_read = record {
  small = omega arith;
  no_ticket = refl;
  no_handover = refl;
  no_window = refl;
  no_key = refl;
}

write_combining_example :
    (waiting done : LocalLockNode) × (request_writes key (5 ∷ 6 ∷ 7 ∷ []) node
      ≡ some (tickets node.write_current 3, waiting))
    × (get_combining_value key 5 (enter_write key waiting).1
        ≡ (not (last_of 5 (6 ∷ 7 ∷ []) == 5), last_of 5 (6 ∷ 7 ∷ [])))
    × (serve_writes key (tickets node.write_current 3) waiting
        ≡ some ((false, false) ∷ replicate 2 (true, false), done))
    × Combine.IsServed waiting 3 done
write_combining_example = write_combining key 5 (6 ∷ 7 ∷ []) node node-IsIdle (omega arith)

ticket_wrap_example :
    (waiting last : LocalLockNode) × (request_writes key (5 ∷ replicate 255 6) node
      ≡ some (tickets node.write_current 256, waiting))
    × (request_write key 5 waiting ≡ (ticket node.write_current, last))
    × (may_write node.write_current waiting ≡ true)
    × (may_write node.write_current last ≡ true)
ticket_wrap_example = ticket_wrap key 5 (replicate 255 6) node node-IsIdle refl

read_delegation_example :
    (waiting last : LocalLockNode) × (request_reads key 3 node
      ≡ some (tickets node.read_current 3, waiting))
    × (serve_reads key
          (tickets node.read_current 3)
          ((true, 9) ∷ (false, 0) ∷ (true, 8) ∷ [])
          waiting
        ≡ some (replicate 3 (true, 9), last))
    × Delegate.IsServed waiting 3 last
read_delegation_example =
    read_delegation key (true, 9) ((false, 0) ∷ (true, 8) ∷ []) node node-IsIdle_read (omega arith)

remote_locks_example :
    let r = enter_lock leaf_addr node in
    let held = in_turn leaf_addr r (at_rest node) in
    (r.0 ≡ false → remove leaf_addr (at_rest node) ≡ none)
    × (run_calls (release_lock leaf_addr r.1).0 held
        ≡ some (at_rest (release_lock leaf_addr r.1).1))
    × (run_calls (release_embedded leaf_addr r.1).0 held
        ≡ some (at_rest (release_embedded leaf_addr r.1).1))
remote_locks_example = remote_locks leaf_addr node

handover_bound_example :
    let node' = (release_lock leaf_addr node).1 in
    (node'.handover_cnt ≤ 9)
    × (node'.write_handover ≡ true → node'.handover_cnt ≡ node.handover_cnt + 1)
    × (node'.write_handover ≡ false → node'.handover_cnt ≡ 0)
    × (node'.write_handover ≡ true → node.write_ticket ≢ next8 node.write_current)
unfolding new
handover_bound_example = handover_bound leaf_addr node (omega arith)
