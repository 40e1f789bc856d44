-- ===== src/LockTable/Delegate.antt =====
-- Readers of one key that queue up before the first of them is done.
pub mod Queue
use hybrid_heterogeneous_mem.Prelude.{
  ℕ, zero, suc, ◌+◌, ◌-◌, ◌%◌, ◌^◌, ◌<◌, ◌≤◌, ◌≡◌, refl, ap, ◌∙◌, Bool, true, false, not, List, [],
  ◌∷◌, Option, none, some, length, replicate, ◌==◌, if◌then◌else◌, arith,
}
use hybrid_heterogeneous_mem.Key.{Key}
use hybrid_heterogeneous_mem.LockTable.Slot.{
  LocalLockNode, Request, conflict, ticket, next8, minus8, eq_key, eq_key_refl, points_to,
  close_window,
}
use hybrid_heterogeneous_mem.LockTable.Read.{
  enqueue_read, request_read, may_read, count_read, enter_read, share_result, open_read_window,
  pass_read, release_read,
}
use hybrid_heterogeneous_mem.LockTable.Combine.{tickets}

-- The result of a search and the value that it found.
abbrev pub Found : Type 0
Found = Bool × ℕ

-- What a reader goes on with: a search of its own only if it is not handed a result.
unfoldable pub serve_read : Key → Found → LocalLockNode → Found × LocalLockNode
serve_read k own node =
    let (r, entered) = enter_read k node in
    let (res, ret, node') = release_read r own.0 own.1 entered in ((res, ret), node')

-- The readers take their turns: each has its ticket, and what its own search finds at that time.
unfoldable pub serve_reads :
    Key → List ℕ → List Found → LocalLockNode → Option (List Found × LocalLockNode)
unfolding serve_read
serve_reads k [] founds node = some ([], node)
serve_reads k (t ∷ ts) [] node = none
serve_reads k (t ∷ ts) (own ∷ owns) node =
    let (r, node') = serve_read k own node in
    let rest = serve_reads k ts owns node' in
    if may_read t node
    then elim rest [ none ↦ none | some (rs, last) ↦ some (r ∷ rs, last) ]
    else none

unfoldable pub request_reads : Key → ℕ → LocalLockNode → Option (List ℕ × LocalLockNode)
request_reads k zero node = some ([], node)
request_reads k (suc n) node = elim (request_read k node).0 [
  | conflict ↦ none
  | ticket t ↦ elim (request_reads k n (request_read k node).1) [
    | none ↦ none
    | some (ts, node') ↦ some (t ∷ ts, node')
  ]
]

pub record IsIdle (node : LocalLockNode) : Type 0 where
  pub small : node.read_current < 256
  pub no_ticket : node.read_ticket ≡ node.read_current
  pub no_handover : node.read_handover ≡ false
  pub no_window : node.window_start ≡ false
  pub no_key : node.unique_read_key ≡ none

-- No holder, no one waiting, and no window of readers.
pub record IsServed (node : LocalLockNode) (n : ℕ) (node' : LocalLockNode) : Type 0 where
  pub current : node'.read_current ≡ (node.read_current + n) % 2 ^ 8
  pub no_ticket : node'.read_ticket ≡ node'.read_current
  pub no_handover : node'.read_handover ≡ false
  pub no_key : node'.unique_read_key ≡ none
  pub no_window : node'.read_window ≡ 0

request_read-same :
    (k : Key) (node : LocalLockNode)
    → node.unique_read_key ≡ some k
    → request_read k node ≡ enqueue_read node
unfolding request_read
request_read-same k node e = rw (e, eq_key_refl k)

pub request_reads-same :
    (k : Key) (n : ℕ) (node : LocalLockNode)
    → node.unique_read_key ≡ some k
    → node.read_ticket < 256
    → request_reads k n node
      ≡ some
          (tickets node.read_ticket n, record node { read_ticket = (node.read_ticket + n) % 2 ^ 8 })
unfolding request_reads enqueue_read
request_reads-same k zero node e small = ground arith
request_reads-same k (suc n) node e small =
    let node' = record node { read_ticket = next8 node.read_ticket } in
    let ih = request_reads-same k n node' e (omega arith) in
    let t : (next8 node.read_ticket + n) % 2 ^ 8 ≡ (node.read_ticket + suc n) % 2 ^ 8 =
      omega arith in
    ground (arith, request_read-same k node e, ih, t)
