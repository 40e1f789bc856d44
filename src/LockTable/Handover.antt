-- ===== src/LockTable/Handover.antt =====
-- The baselines of include/LocalLockTable.h: lock handover on addresses, handover of the result of a
-- compare-and-swap on keys, and the two testing variants. The callbacks that a release is given are
-- remote operations: a release returns the calls that it makes, in order.
use hybrid_heterogeneous_mem.Prelude.{
  ℕ, ◌+◌, Bool, false, ◌&&◌, not, List, [], ◌∷◌, ◌++◌, some, ltb, ◌==◌, if◌then◌else◌,
}
use hybrid_heterogeneous_mem.Address.{GlobalAddress, eq_address}
use hybrid_heterogeneous_mem.Key.{Key}
use hybrid_heterogeneous_mem.LockTable.Slot.{LocalLockNode, next8, points_to}

pub data RemoteCall : Type 0 where
  unlock_func : GlobalAddress → RemoteCall
  write_without_unlock : GlobalAddress → RemoteCall
  write_and_unlock : GlobalAddress → RemoteCall
  write_func : ℕ → RemoteCall

-- `MAX_HOCL_HANDOVER`
abbrev pub max_hocl_handover : ℕ
max_hocl_handover = 8

-- `ticket = node.write_ticket.fetch_add(1)`, the part of all `acquire_local_lock` before the wait.
unfoldable pub draw_write_ticket : LocalLockNode → ℕ × LocalLockNode
draw_write_ticket node = (node.write_ticket, record node { write_ticket = next8 node.write_ticket })

unfoldable pub draw_read_ticket : LocalLockNode → ℕ × LocalLockNode
draw_read_ticket node = (node.read_ticket, record node { read_ticket = next8 node.read_ticket })

-- Behind the wait loop of `acquire_local_lock` on an address.
unfoldable pub enter_lock : GlobalAddress → LocalLockNode → Bool × LocalLockNode
unfolding eq_address
enter_lock addr node =
    let node' = if node.write_handover then node else record node { unique_addr = addr } in
    (node'.write_handover && eq_address node'.unique_addr addr, node')

-- `write_handover` from the tickets, at most `MAX_HOCL_HANDOVER + 1` times in a row.
unfoldable pub count_handover : LocalLockNode → LocalLockNode
count_handover node =
    let waiting = not (node.write_ticket == next8 node.write_current) in
    let handover = if ltb max_hocl_handover node.handover_cnt then false else waiting in
    record node {
      write_handover = handover;
      handover_cnt = if handover then node.handover_cnt + 1 else 0;
    }

unfoldable pub step_write : LocalLockNode → LocalLockNode
step_write node = record node { write_current = next8 node.write_current }

-- `release_local_lock(addr, unlock_func)`
unfoldable pub release_lock : GlobalAddress → LocalLockNode → List RemoteCall × LocalLockNode
unfolding count_handover step_write eq_address
release_lock addr node =
    let node' = count_handover node in
    (
      (if eq_address node'.unique_addr addr then [] else unlock_func addr ∷ [])
          ++ (if node'.write_handover then [] else unlock_func node'.unique_addr ∷ []),
      step_write node',
    )

-- `release_local_lock(addr, unlock_func, write_without_unlock, write_and_unlock)`
unfoldable pub release_embedded : GlobalAddress → LocalLockNode → List RemoteCall × LocalLockNode
unfolding count_handover step_write eq_address
release_embedded addr node =
    let node' = count_handover node in
    let same = eq_address node'.unique_addr addr in
    (
      (if node'.write_handover
          then if same then write_without_unlock addr ∷ [] else write_and_unlock addr ∷ []
          else if same
          then write_and_unlock addr ∷ []
          else unlock_func node'.unique_addr ∷ write_and_unlock addr ∷ []),
      step_write node',
    )

-- Behind the wait loop of `acquire_local_lock` on a key.
unfoldable pub enter_cas : Key → LocalLockNode → Bool × LocalLockNode
enter_cas k node =
    let node' = if node.write_handover then node else record node { unique_write_key = some k } in
    (node'.write_handover && points_to node'.unique_write_key k, node')

-- The result and the entry that the caller goes on with, and the node.
unfoldable pub share_cas : Key → Bool → ℕ → LocalLockNode → Bool × ℕ × LocalLockNode
share_cas k res ret_p node =
    if points_to node.unique_write_key k
    then if node.write_handover
      then (node.res, node.ret, node)
      else (res, ret_p, record node { res = res; ret = ret_p })
    else (res, ret_p, node)

-- `release_local_lock(k, res, ret_p)`
unfoldable pub release_cas : Key → Bool → ℕ → LocalLockNode → Bool × ℕ × LocalLockNode
unfolding share_cas count_handover step_write
release_cas k res ret_p node =
    let (res', ret', node') = share_cas k res ret_p node in
    (res', ret', step_write (count_handover node'))

-- `acquire_local_write_lock(addr, v)`: the buffer is overwritten before the ticket is drawn.
unfoldable pub request_write_test : ℕ → LocalLockNode → ℕ × LocalLockNode
unfolding draw_write_ticket
request_write_test v node = draw_write_ticket (record node { wc_buffer = v })

-- Its part behind the wait loop is that of the lock handover.
unfoldable pub enter_write_test : GlobalAddress → LocalLockNode → Bool × LocalLockNode
unfolding eq_address
enter_write_test addr node =
    let node' = if node.write_handover then node else record node { unique_addr = addr } in
    (node'.write_handover && eq_address node'.unique_addr addr, node')

-- `release_local_write_lock(addr, unlock_func, v, write_func)`
unfoldable pub release_write_test :
    GlobalAddress → ℕ → LocalLockNode → List RemoteCall × LocalLockNode
unfolding step_write eq_address
release_write_test addr v node = (
  (if node.write_handover
        then []
        else write_func node.wc_buffer ∷ unlock_func node.unique_addr ∷ [])
      ++ (if eq_address node.unique_addr addr then [] else write_func v ∷ unlock_func addr ∷ []),
  step_write (record node { write_handover = not (node.write_ticket == next8 node.write_current) }),
)

-- Behind the wait loop of `acquire_local_read_lock` on an address.
unfoldable pub enter_read_test : GlobalAddress → LocalLockNode → Bool × LocalLockNode
unfolding eq_address
enter_read_test addr node =
    let node' = if node.read_handover then node else record node { unique_addr = addr } in
    (node'.read_handover && eq_address node'.unique_addr addr, node')

unfoldable pub share_read_test : GlobalAddress → Bool → ℕ → LocalLockNode → Bool × ℕ × LocalLockNode
unfolding eq_address
share_read_test addr res ret_value node =
    if eq_address node.unique_addr addr
    then if node.read_handover
      then (node.res, node.ret, node)
      else (res, ret_value, record node { res = res; ret = ret_value })
    else (res, ret_value, node)

-- `release_local_read_lock(addr, res, ret_value)`
unfoldable pub release_read_test :
    GlobalAddress → Bool → ℕ → LocalLockNode → Bool × ℕ × LocalLockNode
unfolding share_read_test
release_read_test addr res ret_value node =
    let (res', ret', node') = share_read_test addr res ret_value node in
    (
      res',
      ret',
      record node' {
        read_handover = not (node'.read_ticket == next8 node'.read_current);
        read_current = next8 node'.read_current;
      },
    )
