-- ===== src/LockTable/Write.antt =====
-- Write combining: `acquire_local_write_lock` (in two parts, before and behind its wait loop),
-- `get_combining_value` and `release_local_write_lock` on a key.
use hybrid_heterogeneous_mem.Prelude.{
  ℕ, ◌-◌, Bool, true, false, ◌&&◌, not, none, some, ◌==◌, if◌then◌else◌,
}
use hybrid_heterogeneous_mem.Key.{Key}
use hybrid_heterogeneous_mem.LockTable.Slot.{
  LocalLockNode, Request, conflict, ticket, next8, minus8, eq_key, points_to, close_window,
}

-- The buffer is overwritten and a ticket is drawn.
unfoldable pub enqueue_write : ℕ → LocalLockNode → Request × LocalLockNode
enqueue_write v node = (
  ticket node.write_ticket,
  record node { wc_buffer = v; write_ticket = next8 node.write_ticket },
)

-- Up to the wait loop: the compare-and-swap of `unique_write_key` from null, and the conflict.
unfoldable pub request_write : Key → ℕ → LocalLockNode → Request × LocalLockNode
unfolding enqueue_write
request_write k v node = elim node.unique_write_key [
  | none ↦ enqueue_write v (record node { unique_write_key = some k })
  | some j ↦ if eq_key j k then enqueue_write v node else (conflict, node)
]

-- The condition on which the wait loop ends.
unfoldable pub may_write : ℕ → LocalLockNode → Bool
may_write t node = t == node.write_current

-- `-- node.write_window` and what follows it, if the window is open.
unfoldable pub count_write : LocalLockNode → LocalLockNode
unfolding close_window
count_write node =
    if node.write_window == 0
    then node
    else close_window (record node { write_window = node.write_window - 1 })

-- Behind the wait loop: the pair that `acquire_local_write_lock` returns.
unfoldable pub enter_write : Key → LocalLockNode → (Bool × Bool) × LocalLockNode
unfolding count_write
enter_write k node =
    if points_to node.unique_write_key k
    then (let node' =
          if node.write_window == 0 then record node { write_handover = false } else node in
        ((node'.write_handover, false), node'))
    else (let node' = count_write node in
        ((false, true), record node' { write_current = next8 node'.write_current }))

-- The result, and the value that the caller goes on with.
unfoldable pub get_combining_value : Key → ℕ → LocalLockNode → Bool × ℕ
get_combining_value k v node =
    if points_to node.unique_write_key k
    then (not (node.wc_buffer == v), node.wc_buffer)
    else (false, v)

-- The write time window starts if no one hands over and no window is open.
unfoldable pub open_write_window : LocalLockNode → LocalLockNode
open_write_window node =
    if not node.write_handover && not node.window_start
    then record node {
      window_start = true;
      read_window = minus8 node.read_ticket node.read_current;
      write_window = minus8 node.write_ticket node.write_current;
    }
    else node

-- `write_handover` from the tickets, and the next epoch if there is none.
unfoldable pub pass_write : LocalLockNode → LocalLockNode
pass_write node =
    if node.write_ticket == next8 node.write_current
    then record node { write_handover = false; unique_write_key = none }
    else record node { write_handover = true }

unfoldable pub release_write : Bool × Bool → LocalLockNode → LocalLockNode
unfolding open_write_window pass_write count_write
release_write acquire_ret node =
    if acquire_ret.1
    then node
    else (let node' = count_write (pass_write (open_write_window node)) in
        record node' { write_current = next8 node'.write_current })
