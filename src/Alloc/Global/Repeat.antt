-- ===== src/Alloc/Global/Repeat.antt =====
-- Runs of allocations.
use hybrid_heterogeneous_mem.Prelude.{
  ℕ, zero, suc, ◌+◌, ◌*◌, ◌^◌, ◌<◌, ◌≤◌, ◌≡◌, refl, ap, ◌∙◌, List, [], ◌∷◌, Option, none, some,
  arith, le→leb, gt→leb,
}
use hybrid_heterogeneous_mem.Common.{k_chunk_size}
use hybrid_heterogeneous_mem.Address.{GlobalAddress}
use hybrid_heterogeneous_mem.Alloc.Global.{GlobalAllocator, chunk_address, alloc_chunck}
use hybrid_heterogeneous_mem.Alloc.Global.Rounds.{
  IsValid, next_index, next_node, alloc_chunck-IsValid,
}

-- `m` requests in a row, each served before the next.
unfoldable pub alloc_many : ℕ → GlobalAllocator → Option (List GlobalAddress × GlobalAllocator)
alloc_many zero s = some ([], s)
alloc_many (suc m) s = elim (alloc_chunck s) [
  | none ↦ none
  | some (a, s') ↦ elim (alloc_many m s') [ none ↦ none | some (as', s'') ↦ some (a ∷ as', s'') ]
]

-- The chunks from an index on, in order, under one node.
unfoldable pub chunks : GlobalAddress → ℕ → ℕ → ℕ → List GlobalAddress
chunks start node_id index zero = []
chunks start node_id index (suc m) =
    chunk_address start node_id index ∷ chunks start node_id (index + 1) m

-- Chunks with different numbers in a memory that the offset can address are different.
pub chunk_address-injective :
    (start : GlobalAddress) (node_id len i j : ℕ)
    → start.offset + len * k_chunk_size ≤ 2 ^ 48
    → i < len
    → j < len
    → chunk_address start node_id i ≡ chunk_address start node_id j
    → i ≡ j
unfolding chunk_address
chunk_address-injective start node_id len i j fits p q e = omega (arith, ap (λ a. a.offset) e)

-- `m` requests are served with the given addresses, and leave the tail at `tail`.
pub record Served (s : GlobalAllocator) (m : ℕ) (list : List GlobalAddress) (tail : ℕ)
    : Type 0 where
  pub last : GlobalAllocator
  pub run : alloc_many m s ≡ some (list, last)
  pub valid : IsValid last
  pub tail_at : last.bitmap_tail ≡ tail
  pub len : last.bitmap_len ≡ s.bitmap_len
  pub start : last.start ≡ s.start

module _ (start : GlobalAddress) (s : GlobalAllocator) (v : IsValid s) (es : s.start ≡ start) where
  -- The rest of a run may be served from whatever valid allocator the first request leaves.
  abbrev Later : ℕ → ℕ → List GlobalAddress → ℕ → Type 0
  Later m index list tail =
      (s' : GlobalAllocator)
      → IsValid s'
      → s'.bitmap_tail ≡ index + 1
      → s'.bitmap_len ≡ s.bitmap_len
      → s'.start ≡ start
      → Served s' m list tail

  Served-cons :
      (m : ℕ) (list : List GlobalAddress) (tail node_id index : ℕ)
      → next_node s ≡ node_id
      → next_index s ≡ index
      → Later m index list tail
      → Served s (suc m) (chunk_address start node_id index ∷ list) tail
  unfolding alloc_many
  Served-cons m list tail node_id index en ei k =
      let (s', run, v', lo, hi, t, n, e) = alloc_chunck-IsValid s v in
      let r = k s' v' (t ∙ ap (λ i. i + 1) ei) n (e ∙ es) in
      let run' : alloc_chunck s ≡ some (chunk_address start node_id index, s') =
        rw (← es, ← en, ← ei) run in
      record {
        last = r.last;
        run = rw (run', alloc_many, r.run);
        valid = r.valid;
        tail_at = r.tail_at;
        len = r.len ∙ n;
        start = r.start ∙ e;
      }

-- Up to the end of the bitmap the chunks come in order, under the node of the start address.
Served-chunks :
    (start : GlobalAddress) (m index tail : ℕ) (s : GlobalAllocator)
    → IsValid s
    → s.start ≡ start
    → s.bitmap_tail ≡ index
    → index + m ≡ tail
    → tail ≤ s.bitmap_len
    → Served s m (chunks start start.node_id index m) tail
unfolding alloc_many chunks
Served-chunks start zero index tail s v es et en le = record {
  last = s;
  run = refl;
  valid = v;
  tail_at = omega arith;
  len = refl;
  start = refl;
}
Served-chunks start (suc m) index tail s v es et en le =
    let on = gt→leb s.bitmap_len s.bitmap_tail (omega arith) in
    Served-cons start s v es m (chunks start start.node_id (index + 1) m) tail start.node_id index
      (rw on (ap (λ a. a.node_id) es)) (rw on et)
      (λ s' v' t n e. Served-chunks start m (index + 1) tail s' v' e t (omega arith) (omega arith))

-- From a new allocator of `len` chunks, the first `len - 1` requests get the chunks from 1 on, in
-- order and under the node of the start address. The next `len - 1` requests, with nothing freed,
-- get chunk 1 under node 2 and then the same chunks from 2 on under the same node once more.
pub two_rounds :
    (s : GlobalAllocator) (m : ℕ)
    → IsValid s
    → s.bitmap_tail ≡ 1
    → s.bitmap_len ≡ m + 2
    → (first : Served s (suc m) (chunks s.start s.start.node_id 1 (suc m)) s.bitmap_len) × Served
        first.last
        (suc m)
        (chunk_address s.start 2 1 ∷ chunks s.start s.start.node_id 2 m)
        s.bitmap_len
unfolding chunks
two_rounds s m v t n =
    let first =
      Served-chunks s.start (suc m) 1 s.bitmap_len s v refl t (omega arith) (omega arith) in
    let end =
      le→leb first.last.bitmap_len first.last.bitmap_tail
        (omega (arith, first.len, first.tail_at)) in
    (
      first,
      Served-cons s.start first.last first.valid first.start m (chunks s.start s.start.node_id 2 m)
          s.bitmap_len 2 1 (rw end refl) (rw end refl)
          (λ s' v' t' n' e'.
            Served-chunks s.start m 2 s.bitmap_len s' v' e' t' (omega arith)
              (omega (arith, first.len))),
    )
