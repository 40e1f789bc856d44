-- ===== src/LockTable/Combine/Queue.antt =====
-- The turns of writers that queue up: the winner's, and those of the writers behind it.
use hybrid_heterogeneous_mem.Prelude.{
  ℕ, zero, suc, ◌+◌, ◌%◌, ◌^◌, ◌<◌, ◌≡◌, refl, ap, ◌∙◌, Bool, true, false, not, List, [], ◌∷◌, none,
  some, length, replicate, ◌==◌, arith,
}
use hybrid_heterogeneous_mem.Key.{Key}
use hybrid_heterogeneous_mem.LockTable.Slot.{LocalLockNode, ticket, next8, eq_key_refl}
use hybrid_heterogeneous_mem.LockTable.Write.{
  request_write, may_write, enter_write, get_combining_value, release_write,
}
use hybrid_heterogeneous_mem.LockTable.Combine.{
  request_writes, serve_writes, IsIdle, IsServed, tickets, last_of, request_writes-same,
}

-- A node held for a key by `n` writers that stand behind one that handed over, with the time window
-- that they are in.
record IsQueue (k : Key) (n : ℕ) (node : LocalLockNode) : Type 0 where
  key : node.unique_write_key ≡ some k
  few : n < 256
  current_small : node.write_current < 256
  ticket_small : node.write_ticket < 256
  ahead : node.write_ticket ≡ (node.write_current + n) % 2 ^ 8
  handover : node.write_handover ≡ true
  window : node.write_window ≡ n

-- The next one in the queue is spared the remote write, and leaves a queue that is one shorter.
enter-queue :
    (k : Key) (n : ℕ) (node : LocalLockNode)
    → IsQueue k (suc n) node
    → (enter_write k node ≡ ((true, false), node)) × (may_write node.write_current node ≡ true)
unfolding enter_write may_write
enter-queue k n node q = (ground (arith, eq_key_refl k), ground arith)

release-next :
    (k : Key) (b : Bool) (n : ℕ) (node : LocalLockNode)
    → IsQueue k (suc (suc n)) node
    → IsQueue k (suc n) (release_write (b, false) node)
      × ((release_write (b, false) node).wc_buffer ≡ node.wc_buffer)
      × ((release_write (b, false) node).write_current ≡ next8 node.write_current)
unfolding release_write
release-next k b n node q = (ground arith, ground arith, ground arith)

release-last :
    (k : Key) (b : Bool) (node : LocalLockNode)
    → IsQueue k 1 node
    → IsServed node 1 (release_write (b, false) node)
unfolding release_write
release-last k b node q = ground arith

-- The first writer wins and leaves the others as a queue, or serves itself alone.
IsFirst : Key → ℕ → LocalLockNode → Type 0
IsFirst k n node =
    (node.unique_write_key ≡ some k)
    × (n < 256)
    × (node.write_current < 256)
    × (node.write_ticket ≡ (node.write_current + n) % 2 ^ 8)
    × (node.write_handover ≡ false)
    × (node.window_start ≡ false)

enter-IsFirst :
    (k : Key) (n : ℕ) (node : LocalLockNode)
    → IsFirst k n node
    → ((enter_write k node).0 ≡ (false, false))
      × (may_write node.write_current node ≡ true)
      × IsFirst k n (enter_write k node).1
      × ((enter_write k node).1.write_current ≡ node.write_current)
      × ((enter_write k node).1.wc_buffer ≡ node.wc_buffer)
unfolding IsFirst enter_write may_write
enter-IsFirst k n node f = (
  ground (arith, eq_key_refl k),
  ground arith,
  ground (arith, eq_key_refl k),
  ground (arith, eq_key_refl k),
  ground (arith, eq_key_refl k),
)

release-first :
    (k : Key) (b : Bool) (n : ℕ) (node : LocalLockNode)
    → IsFirst k (suc (suc n)) node
    → IsQueue k (suc n) (release_write (b, false) node)
      × ((release_write (b, false) node).wc_buffer ≡ node.wc_buffer)
      × ((release_write (b, false) node).write_current ≡ next8 node.write_current)
unfolding IsFirst release_write
release-first k b n node f = (ground arith, ground arith, ground arith)

release-alone :
    (k : Key) (b : Bool) (node : LocalLockNode)
    → IsFirst k 1 node
    → IsServed node 1 (release_write (b, false) node)
unfolding IsFirst release_write
release-alone k b node f = ground arith

IsServed-cons :
    (n : ℕ) (node mid node' : LocalLockNode)
    → mid.write_current ≡ next8 node.write_current
    → mid.wc_buffer ≡ node.wc_buffer
    → IsServed mid n node'
    → IsServed node (suc n) node'
IsServed-cons n node mid node' c b s = ground arith

IsServed-same :
    (n : ℕ) (node mid node' : LocalLockNode)
    → mid.write_current ≡ node.write_current
    → mid.wc_buffer ≡ node.wc_buffer
    → IsServed mid n node'
    → IsServed node n node'
IsServed-same n node mid node' c b s = ground arith

-- One turn of `serve_writes`.
serve_writes-cons :
    (k : Key) (t : ℕ) (ts : List ℕ) (r : Bool × Bool) (rs : List (Bool × Bool))
    (node entered last : LocalLockNode)
    → (enter_write k node).0 ≡ r
    → (enter_write k node).1 ≡ entered
    → may_write t node ≡ true
    → serve_writes k ts (release_write r entered) ≡ some (rs, last)
    → serve_writes k (t ∷ ts) node ≡ some (r ∷ rs, last)
unfolding serve_writes
serve_writes-cons k t ts r rs node entered last er ee turn rest =
    rw (er, ee, turn, serve_writes, rest) (ap (λ x. some (x ∷ rs, last)) er)

turn-at : (c : ℕ) (node : LocalLockNode) → node.write_current ≡ c → may_write c node ≡ true
unfolding may_write
turn-at c node e = ground arith

serve-queue :
    (k : Key) (n c : ℕ) (node : LocalLockNode)
    → IsQueue k (suc n) node
    → node.write_current ≡ c
    → (last : LocalLockNode) × (serve_writes k (tickets c (suc n)) node
        ≡ some (replicate (suc n) (true, false), last))
      × IsServed node (suc n) last
unfolding serve_writes
serve-queue k zero c node q at_c =
    let (e, turn) = enter-queue k zero node q in
    (
      release_write (true, false) node,
      serve_writes-cons k c [] (true, false) [] node node _ (rw e) (rw e) (turn-at c node at_c)
          refl,
      release-last k true node q,
    )
serve-queue k (suc n) c node q at_c =
    let (e, turn) = enter-queue k (suc n) node q in
    let (q', b, step) = release-next k true n node q in
    let (last, run, s) =
      serve-queue k n (next8 c) (release_write (true, false) node) q' (step ∙ ap next8 at_c) in
    (
      last,
      serve_writes-cons k c (tickets (next8 c) (suc n)) (true, false)
          (replicate (suc n) (true, false)) node node last (rw e) (rw e) (turn-at c node at_c) run,
      IsServed-cons (suc n) node (release_write (true, false) node) last step b s,
    )

serve-first :
    (k : Key) (n c : ℕ) (node : LocalLockNode)
    → IsFirst k (suc n) node
    → node.write_current ≡ c
    → (last : LocalLockNode) × (serve_writes k (tickets c (suc n)) node
        ≡ some ((false, false) ∷ replicate n (true, false), last))
      × IsServed node (suc n) last
unfolding serve_writes
serve-first k zero c node f at_c =
    let (e, turn, f', cur, buf) = enter-IsFirst k 1 node f in
    let node' = (enter_write k node).1 in
    let s = release-alone k false node' f' in
    (
      release_write (false, false) node',
      serve_writes-cons k c [] (false, false) [] node node' _ e refl (turn-at c node at_c) refl,
      IsServed-same 1 node node' _ cur buf s,
    )
serve-first k (suc n) c node f at_c =
    let (e, turn, f', cur, buf) = enter-IsFirst k (suc (suc n)) node f in
    let node' = (enter_write k node).1 in
    let (q, b, step) = release-first k false n node' f' in
    let (last, run, s) =
      serve-queue k n (next8 c) (release_write (false, false) node') q
        (step ∙ ap next8 (cur ∙ at_c)) in
    (
      last,
      serve_writes-cons k c (tickets (next8 c) (suc n)) (false, false)
          (replicate (suc n) (true, false)) node node' last e refl (turn-at c node at_c) run,
      IsServed-same (suc (suc n)) node node' last cur buf
          (IsServed-cons (suc n) node' (release_write (false, false) node') last step b s),
    )

get_combining_value-held :
    (k : Key) (v : ℕ) (node : LocalLockNode)
    → node.unique_write_key ≡ some k
    → get_combining_value k v node ≡ (not (node.wc_buffer == v), node.wc_buffer)
unfolding get_combining_value
get_combining_value-held k v node e = rw (e, eq_key_refl k)

-- Up to 255 writers of one key that meet an idle node: they draw tickets in order; the first wins
-- and writes the value of the last, whatever its own was; the others find their turns in order, and
-- are told that their write is done. The node is left with no holder, no ticket open, no window of
-- writers and no handover, so that the next writer wins again.
pub write_combining :
    (k : Key) (v : ℕ) (vs : List ℕ) (node : LocalLockNode)
    → IsIdle node
    → length vs < 255
    → (waiting done : LocalLockNode) × (request_writes k (v ∷ vs) node
        ≡ some (tickets node.write_current (suc (length vs)), waiting))
      × (get_combining_value k v (enter_write k waiting).1
          ≡ (not (last_of v vs == v), last_of v vs))
      × (serve_writes k (tickets node.write_current (suc (length vs))) waiting
          ≡ some ((false, false) ∷ replicate (length vs) (true, false), done))
      × IsServed waiting (suc (length vs)) done
unfolding request_writes request_write IsFirst
write_combining k v vs node idle few =
    let held = record node { unique_write_key = some k } in
    let next = record held { wc_buffer = v; write_ticket = next8 node.write_ticket } in
    let n = length vs in
    let waiting = record next {
      wc_buffer = last_of v vs;
      write_ticket = (next.write_ticket + n) % 2 ^ 8;
    } in
    let first : IsFirst k (suc n) waiting =
      (refl, omega arith, idle.small, omega arith, idle.no_handover, idle.no_window) in
    let e : node.unique_write_key ≡ none = idle.no_key in
    let t = idle.no_ticket in
    let ih = request_writes-same k v vs next refl refl (omega arith) in
    let (done, run, s) = serve-first k n node.write_current waiting first refl in
    let (e, turn, f, cur, buf) = enter-IsFirst k (suc n) waiting first in
    (
      waiting,
      done,
      ground (arith, ih),
      get_combining_value-held k v (enter_write k waiting).1 f.0 ∙ rw buf,
      run,
      s,
    )

-- The tickets are eight bits wide: of 257 writers of one key that queue up, the last draws the same
-- ticket as the first, and may enter while the first one holds the lock.
pub ticket_wrap :
    (k : Key) (v : ℕ) (vs : List ℕ) (node : LocalLockNode)
    → IsIdle node
    → length vs ≡ 255
    → (waiting last : LocalLockNode) × (request_writes k (v ∷ vs) node
        ≡ some (tickets node.write_current (suc (length vs)), waiting))
      × (request_write k v waiting ≡ (ticket node.write_current, last))
      × (may_write node.write_current waiting ≡ true)
      × (may_write node.write_current last ≡ true)
unfolding request_writes request_write may_write
ticket_wrap k v vs node idle many =
    let next = record node {
      unique_write_key = some k;
      wc_buffer = v;
      write_ticket = next8 node.write_ticket;
    } in
    let waiting = record next {
      wc_buffer = last_of v vs;
      write_ticket = (next.write_ticket + length vs) % 2 ^ 8;
    } in
    let e : node.unique_write_key ≡ none = idle.no_key in
    let t = idle.no_ticket in
    let ih = request_writes-same k v vs next refl refl (omega arith) in
    let full : waiting.write_ticket ≡ node.write_current = omega (arith, idle.small, t, many) in
    (
      waiting,
      record waiting { wc_buffer = v; write_ticket = next8 waiting.write_ticket },
      ground (arith, ih),
      ground (arith, eq_key_refl k, full),
      ground arith,
      ground arith,
    )
