-- ===== src/LockTable/Combine.antt =====
-- Writers of one key that queue up before the first of them is done.
pub mod Queue
use hybrid_heterogeneous_mem.Prelude.{
  ℕ, zero, suc, ◌+◌, ◌-◌, ◌%◌, ◌^◌, ◌<◌, ◌≤◌, ◌≡◌, ◌≢◌, refl, ap, ◌∙◌, Bool, true, false, not, ◌&&◌,
  List, [], ◌∷◌, Option, none, some, length, replicate, ◌==◌, ==_iff, if◌then◌else◌, arith,
  Bool-cases, inl, inr,
}
use hybrid_heterogeneous_mem.Key.{Key}
use hybrid_heterogeneous_mem.LockTable.Slot.{
  LocalLockNode, Request, conflict, ticket, next8, minus8, eq_key, eq_key_refl, points_to,
  close_window,
}
use hybrid_heterogeneous_mem.LockTable.Write.{
  enqueue_write, request_write, may_write, count_write, enter_write, get_combining_value,
  open_write_window, pass_write, release_write,
}

-- The requests of writers of one key, one after another: their tickets in order, if there is no
-- conflict.
unfoldable pub request_writes : Key → List ℕ → LocalLockNode → Option (List ℕ × LocalLockNode)
request_writes k [] node = some ([], node)
request_writes k (v ∷ vs) node = elim (request_write k v node).0 [
  | conflict ↦ none
  | ticket t ↦ elim (request_writes k vs (request_write k v node).1) [
    | none ↦ none
    | some (ts, node') ↦ some (t ∷ ts, node')
  ]
]

-- The writers take their turns: each finds its ticket being served, enters and releases. The pairs
-- that they are given.
unfoldable pub serve_writes :
    Key → List ℕ → LocalLockNode → Option (List (Bool × Bool) × LocalLockNode)
serve_writes k [] node = some ([], node)
serve_writes k (t ∷ ts) node =
    let (r, entered) = enter_write k node in
    let rest = serve_writes k ts (release_write r entered) in
    if may_write t node
    then elim rest [ none ↦ none | some (rs, node') ↦ some (r ∷ rs, node') ]
    else none

-- No writer, and no time window.
pub record IsIdle (node : LocalLockNode) : Type 0 where
  pub small : node.write_current < 256
  pub no_ticket : node.write_ticket ≡ node.write_current
  pub no_handover : node.write_handover ≡ false
  pub no_window : node.window_start ≡ false
  pub no_key : node.unique_write_key ≡ none

-- The tickets from one on.
abbrev pub tickets : ℕ → ℕ → List ℕ
tickets t zero = []
tickets t (suc n) = t ∷ tickets (next8 t) n

abbrev pub last_of : ℕ → List ℕ → ℕ
last_of v [] = v
last_of v (w ∷ ws) = last_of w ws

request_write-same :
    (k : Key) (v : ℕ) (node : LocalLockNode)
    → node.unique_write_key ≡ some k
    → request_write k v node ≡ enqueue_write v node
unfolding request_write
request_write-same k v node e = rw (e, eq_key_refl k)

-- Writers of the key that the node is held for just draw tickets and overwrite the buffer.
pub request_writes-same :
    (k : Key) (v : ℕ) (vs : List ℕ) (node : LocalLockNode)
    → node.unique_write_key ≡ some k
    → node.wc_buffer ≡ v
    → node.write_ticket < 256
    → request_writes k vs node
      ≡ some (
        tickets node.write_ticket (length vs),
        record node {
          wc_buffer = last_of v vs;
          write_ticket = (node.write_ticket + length vs) % 2 ^ 8;
        },
      )
unfolding request_writes enqueue_write
request_writes-same k v [] node e b small = ground arith
request_writes-same k v (w ∷ ws) node e b small =
    let node' = record node { wc_buffer = w; write_ticket = next8 node.write_ticket } in
    let ih = request_writes-same k w ws node' e refl (omega arith) in
    let t : (next8 node.write_ticket + length ws) % 2 ^ 8
        ≡ (node.write_ticket + suc (length ws)) % 2 ^ 8 =
      omega arith in
    ground (arith, request_write-same k w node e, ih, t)

-- What a run of writers leaves behind: no holder, no one waiting, and no write window.
pub record IsServed (node : LocalLockNode) (n : ℕ) (node' : LocalLockNode) : Type 0 where
  pub current : node'.write_current ≡ (node.write_current + n) % 2 ^ 8
  pub no_ticket : node'.write_ticket ≡ node'.write_current
  pub no_handover : node'.write_handover ≡ false
  pub no_key : node'.unique_write_key ≡ none
  pub no_window : node'.write_window ≡ 0
  pub buffer : node'.wc_buffer ≡ node.wc_buffer
