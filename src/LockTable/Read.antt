-- ===== src/LockTable/Read.antt =====
-- Read delegation: `acquire_local_read_lock` (in two parts) and `release_local_read_lock` on a key.
use hybrid_heterogeneous_mem.Prelude.{
  ℕ, ◌-◌, Bool, true, false, ◌&&◌, not, none, some, ◌==◌, if◌then◌else◌,
}
use hybrid_heterogeneous_mem.Key.{Key}
use hybrid_heterogeneous_mem.LockTable.Slot.{
  LocalLockNode, Request, conflict, ticket, next8, minus8, eq_key, points_to, close_window,
}

unfoldable pub enqueue_read : LocalLockNode → Request × LocalLockNode
enqueue_read node = (ticket node.read_ticket, record node { read_ticket = next8 node.read_ticket })

unfoldable pub request_read : Key → LocalLockNode → Request × LocalLockNode
unfolding enqueue_read
request_read k node = elim node.unique_read_key [
  | none ↦ enqueue_read (record node { unique_read_key = some k })
  | some j ↦ if eq_key j k then enqueue_read node else (conflict, node)
]

unfoldable pub may_read : ℕ → LocalLockNode → Bool
may_read t node = t == node.read_current

unfoldable pub count_read : LocalLockNode → LocalLockNode
unfolding close_window
count_read node =
    if node.read_window == 0
    then node
    else close_window (record node { read_window = node.read_window - 1 })

unfoldable pub enter_read : Key → LocalLockNode → (Bool × Bool) × LocalLockNode
unfolding count_read
enter_read k node =
    if points_to node.unique_read_key k
    then (let node' =
          if node.read_window == 0 then record node { read_handover = false } else node in
        ((node'.read_handover, false), node'))
    else (let node' = count_read node in
        ((false, true), record node' { read_current = next8 node'.read_current }))

-- The winner leaves its result in the node, a loser takes the result that is there.
unfoldable pub share_result : Bool → ℕ → LocalLockNode → Bool × ℕ × LocalLockNode
share_result res ret_value node =
    if node.read_handover
    then (node.res, node.ret, node)
    else (res, ret_value, record node { res = res; ret = ret_value })

unfoldable pub open_read_window : LocalLockNode → LocalLockNode
open_read_window node =
    if not node.read_handover && not node.window_start
    then record node {
      window_start = true;
      read_window = minus8 node.read_ticket node.read_current;
      write_window = minus8 node.write_ticket node.write_current;
    }
    else node

unfoldable pub pass_read : LocalLockNode → LocalLockNode
pass_read node =
    if node.read_ticket == next8 node.read_current
    then record node { read_handover = false; unique_read_key = none }
    else record node { read_handover = true }

-- The result and the value that the caller goes on with, and the new node.
unfoldable pub release_read : Bool × Bool → Bool → ℕ → LocalLockNode → Bool × ℕ × LocalLockNode
unfolding share_result open_read_window pass_read count_read
release_read acquire_ret res ret_value node =
    if acquire_ret.1
    then (res, ret_value, node)
    else (let (res', ret', node1) = share_result res ret_value node in
        let node2 = count_read (pass_read (open_read_window node1)) in
        (res', ret', record node2 { read_current = next8 node2.read_current }))
