-- ===== src/LockTable/Delegate/Queue.antt =====
-- The turns of readers that queue up: the winner's, and those of the readers behind it.
use hybrid_heterogeneous_mem.Prelude.{
  ℕ, suc, ◌+◌, ◌%◌, ◌^◌, ◌<◌, ◌≡◌, refl, ap, ◌∙◌, true, false, List, [], ◌∷◌, some, length,
  replicate, arith,
}
use hybrid_heterogeneous_mem.Key.{Key}
use hybrid_heterogeneous_mem.LockTable.Slot.{LocalLockNode, next8, eq_key_refl}
use hybrid_heterogeneous_mem.LockTable.Read.{request_read, may_read, enter_read, release_read}
use hybrid_heterogeneous_mem.LockTable.Combine.{tickets}
use hybrid_heterogeneous_mem.LockTable.Delegate.{
  Found, serve_read, serve_reads, request_reads, IsIdle, IsServed, request_reads-same,
}

-- `n` readers behind one that handed its result over, which stands in the node.
record IsQueue (k : Key) (n : ℕ) (found : Found) (node : LocalLockNode) : Type 0 where
  key : node.unique_read_key ≡ some k
  few : n < 256
  current_small : node.read_current < 256
  ahead : node.read_ticket ≡ (node.read_current + n) % 2 ^ 8
  handover : node.read_handover ≡ true
  window : node.read_window ≡ n
  result : (node.res ≡ found.0) × (node.ret ≡ found.1)

record IsFirst (k : Key) (n : ℕ) (node : LocalLockNode) : Type 0 where
  key : node.unique_read_key ≡ some k
  few : n < 256
  current_small : node.read_current < 256
  ahead : node.read_ticket ≡ (node.read_current + n) % 2 ^ 8
  handover : node.read_handover ≡ false
  window : node.window_start ≡ false

abbrev After : LocalLockNode → LocalLockNode → Type 0
After node node' = node'.read_current ≡ next8 node.read_current

serve-next :
    (k : Key) (n : ℕ) (found own : Found) (node : LocalLockNode)
    → IsQueue k (suc (suc n)) found node
    → let r = serve_read k own node in (r.0 ≡ found) × IsQueue k (suc n) found r.1 × After node r.1
unfolding serve_read enter_read release_read
serve-next k n found own node q =
    (ground (arith, eq_key_refl k), ground (arith, eq_key_refl k), ground (arith, eq_key_refl k))

serve-last :
    (k : Key) (found own : Found) (node : LocalLockNode)
    → IsQueue k 1 found node
    → let r = serve_read k own node in (r.0 ≡ found) × IsServed node 1 r.1
unfolding serve_read enter_read release_read
serve-last k found own node q = (ground (arith, eq_key_refl k), ground (arith, eq_key_refl k))

serve-winner :
    (k : Key) (n : ℕ) (own : Found) (node : LocalLockNode)
    → IsFirst k (suc (suc n)) node
    → let r = serve_read k own node in (r.0 ≡ own) × IsQueue k (suc n) own r.1 × After node r.1
unfolding serve_read enter_read release_read
serve-winner k n own node q =
    (ground (arith, eq_key_refl k), ground (arith, eq_key_refl k), ground (arith, eq_key_refl k))

serve-alone :
    (k : Key) (own : Found) (node : LocalLockNode)
    → IsFirst k 1 node
    → let r = serve_read k own node in (r.0 ≡ own) × IsServed node 1 r.1
unfolding serve_read enter_read release_read
serve-alone k own node q = (ground (arith, eq_key_refl k), ground (arith, eq_key_refl k))

IsServed-cons :
    (n : ℕ) (node mid last : LocalLockNode)
    → After node mid
    → IsServed mid n last
    → IsServed node (suc n) last
IsServed-cons n node mid last e s = ground arith

turn-at : (c : ℕ) (node : LocalLockNode) → node.read_current ≡ c → may_read c node ≡ true
unfolding may_read
turn-at c node e = ground arith

serve_reads-cons :
    (k : Key) (t : ℕ) (ts : List ℕ) (own r : Found) (owns rs : List Found)
    (node last : LocalLockNode)
    → (serve_read k own node).0 ≡ r
    → node.read_current ≡ t
    → serve_reads k ts owns (serve_read k own node).1 ≡ some (rs, last)
    → serve_reads k (t ∷ ts) (own ∷ owns) node ≡ some (r ∷ rs, last)
unfolding serve_reads
serve_reads-cons k t ts own r owns rs node last e at_t rest = ground (arith, turn-at t node at_t)

serve-queue :
    (k : Key) (c : ℕ) (found own : Found) (owns : List Found) (node : LocalLockNode)
    → IsQueue k (suc (length owns)) found node
    → node.read_current ≡ c
    → (last : LocalLockNode) × (serve_reads k (tickets c (suc (length owns))) (own ∷ owns) node
        ≡ some (replicate (suc (length owns)) found, last))
      × IsServed node (suc (length owns)) last
unfolding serve_reads
serve-queue k c found own [] node q at_c =
    let (e, s) = serve-last k found own node q in
    (_, serve_reads-cons k c [] own found [] [] node _ e at_c refl, s)
serve-queue k c found own (next ∷ owns) node q at_c =
    let (e, q', step) = serve-next k (length owns) found own node q in
    let n = suc (length owns) in
    let node' = (serve_read k own node).1 in
    let (last, run, s) = serve-queue k (next8 c) found next owns node' q' (step ∙ ap next8 at_c) in
    (
      last,
      serve_reads-cons k c (tickets (next8 c) n) own found (next ∷ owns) (replicate n found) node
          last e at_c run,
      IsServed-cons n node node' last step s,
    )

serve-first :
    (k : Key) (c : ℕ) (own : Found) (owns : List Found) (node : LocalLockNode)
    → IsFirst k (suc (length owns)) node
    → node.read_current ≡ c
    → (last : LocalLockNode) × (serve_reads k (tickets c (suc (length owns))) (own ∷ owns) node
        ≡ some (replicate (suc (length owns)) own, last))
      × IsServed node (suc (length owns)) last
unfolding serve_reads
serve-first k c own [] node f at_c =
    let (e, s) = serve-alone k own node f in
    (_, serve_reads-cons k c [] own own [] [] node _ e at_c refl, s)
serve-first k c own (next ∷ owns) node f at_c =
    let (e, q, step) = serve-winner k (length owns) own node f in
    let n = suc (length owns) in
    let node' = (serve_read k own node).1 in
    let (last, run, s) = serve-queue k (next8 c) own next owns node' q (step ∙ ap next8 at_c) in
    (
      last,
      serve_reads-cons k c (tickets (next8 c) n) own own (next ∷ owns) (replicate n own) node last e
          at_c run,
      IsServed-cons n node node' last step s,
    )

-- Up to 255 readers of one key that meet an idle node: they draw tickets in order and find their
-- turns in order, and every one of them goes on with the result and the value that the first one
-- found, whatever its own search would have found. The node is left with no holder, no ticket open,
-- no window of readers and no handover, so that the next reader searches again.
pub read_delegation :
    (k : Key) (own : Found) (owns : List Found) (node : LocalLockNode)
    → IsIdle node
    → length owns < 255
    → (waiting last : LocalLockNode) × (request_reads k (suc (length owns)) node
        ≡ some (tickets node.read_current (suc (length owns)), waiting))
      × (serve_reads k (tickets node.read_current (suc (length owns))) (own ∷ owns) waiting
          ≡ some (replicate (suc (length owns)) own, last))
      × IsServed waiting (suc (length owns)) last
unfolding request_reads request_read
read_delegation k own owns node idle few =
    let n = length owns in
    let next = record node { unique_read_key = some k; read_ticket = next8 node.read_ticket } in
    let waiting = record next { read_ticket = (next.read_ticket + n) % 2 ^ 8 } in
    let first : IsFirst k (suc n) waiting = record {
      key = refl;
      few = omega arith;
      current_small = idle.small;
      ahead = omega arith;
      handover = idle.no_handover;
      window = idle.no_window;
    } in
    let (last, run, s) = serve-first k node.read_current own owns waiting first refl in
    let ih = request_reads-same k n next refl (omega arith) in
    (waiting, last, ground (arith, ih), run, s)
