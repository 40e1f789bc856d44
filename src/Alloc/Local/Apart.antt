-- ===== src/Alloc/Local/Apart.antt =====
-- The operations keep the blocks that were handed out apart.
use hybrid_heterogeneous_mem.Prelude.{
  ℕ, ◌+◌, ◌%◌, ◌^◌, ◌<◌, ◌≤◌, ◌≡◌, inl, inr, refl, ap, true, false, List, [], ◌∷◌, ◌++◌, arith,
  Bool-cases, some, leb, le→leb,
}
use mathlib.Core.List.{Memᴰ}
use mathlib.Core.List.Memᴰ.{head, append_left, append_right}
use hybrid_heterogeneous_mem.Common.{k_chunk_size, alloc_allign_bit, round_up, round_up_bounds}
use hybrid_heterogeneous_mem.Address.{GlobalAddress}
use hybrid_heterogeneous_mem.Alloc.Local.{
  LocalAllocator, align_cur, chunk_exhausted, cut, malloc, set_chunck, free, first_fit,
}
use hybrid_heterogeneous_mem.Alloc.Local.Blocks.{
  Block, All, IsDisjoint, IsClear, IsApart, Taken, taken, All-map, All-append, IsDisjoint-symm,
  Pairwise-append_one, IsDisjoint-part, first_fit-Taken, round_up_idem, round_up_aligned,
  round_up-le, IsClear-later, taken-add, taken-le, taken_self,
}

align_cur-IsApart :
    (s : LocalAllocator) (live : List Block)
    → IsApart s live
    → let t = align_cur true s in
      IsApart t live
      × (t.cur.offset % 256 ≡ 0)
      × (t.cur.offset ≡ round_up s.cur.offset alloc_allign_bit)
unfolding align_cur
align_cur-IsApart s live v =
    let small = round_up-le s.cur.offset s.head.offset v.aligned v.high in
    let e : taken s.cur.offset % 2 ^ 48 ≡ taken s.cur.offset = omega (arith, v.fits, small) in
    let keep =
      IsClear-later s.head s.cur (align_cur true s).cur
        (omega (arith, ap taken e, round_up_idem s.cur.offset)) in
    (
      record {
        node = v.node;
        aligned = v.aligned;
        low = omega (arith, e, v.low, (round_up_bounds s.cur.offset).0);
        high = omega (arith, e, small);
        fits = v.fits;
        live_clear =
            All-map (IsClear s.head s.cur) (IsClear s.head (align_cur true s).cur) keep live
              v.live_clear;
        free_clear =
            All-map (IsClear s.head s.cur) (IsClear s.head (align_cur true s).cur) keep s.free_list
              v.free_clear;
        live_apart = v.live_apart;
        free_apart = v.free_apart;
        cross = v.cross;
      },
      omega (arith, e, round_up_aligned s.cur.offset),
      e,
    )

module _ (s : LocalAllocator) (live : List Block) (size : ℕ) (v : IsApart s live)
    (ready : s.cur.offset % 256 ≡ 0) where
  abbrev block : Block
  block = (s.cur, taken size)

  IsClear-IsDisjoint :
      s.cur.offset + size ≤ s.head.offset + k_chunk_size
      → (b : Block) → IsClear s.head s.cur b
      → IsDisjoint block b
  IsClear-IsDisjoint room b k =
      let top = round_up-le (s.cur.offset + size) s.head.offset v.aligned room in
      let sum = taken-add s.cur.offset size ready in
      let self = taken_self s.cur.offset ready in record { apart = ground (arith, v.node) }

  -- A block cut off the chunk.
  IsApart-cut :
      s.cur.offset + size ≤ s.head.offset + k_chunk_size
      → IsApart
          (record s { cur = record s.cur { offset = (s.cur.offset + size) % 2 ^ 48 } })
          (block ∷ live)
  IsApart-cut room =
      let c : ℕ = (s.cur.offset + size) % 2 ^ 48 in
      let e : c ≡ s.cur.offset + size = omega (arith, v.fits) in
      let top = round_up-le (s.cur.offset + size) s.head.offset v.aligned room in
      let sum = taken-add s.cur.offset size ready in
      let self = taken_self s.cur.offset ready in
      let c' : GlobalAddress = record s.cur { offset = c } in
      let keep = IsClear-later s.head s.cur c' (omega (arith, ap taken e, sum, self)) in
      record {
        node = v.node;
        aligned = v.aligned;
        low = omega (arith, e, v.low);
        high = omega (arith, e);
        fits = v.fits;
        live_clear = (
          record {
            start = ready;
            size = round_up_aligned size;
            clear = inr (inl (omega (arith, ap taken e, sum)));
          },
          All-map (IsClear s.head s.cur) (IsClear s.head c') keep live v.live_clear,
        );
        free_clear =
            All-map (IsClear s.head s.cur) (IsClear s.head c') keep s.free_list v.free_clear;
        live_apart = (
          All-map (IsClear s.head s.cur) (IsDisjoint block) (IsClear-IsDisjoint room) live
              v.live_clear,
          v.live_apart,
        );
        free_apart = v.free_apart;
        cross = (
          All-map (IsClear s.head s.cur) (IsDisjoint block) (IsClear-IsDisjoint room) s.free_list
              v.free_clear,
          v.cross,
        );
      }

  -- A block taken from the list of free blocks; what is left over of it is lost.
  IsApart-reuse :
      (a : GlobalAddress) (rest : List Block)
      → Taken size s.free_list a rest
      → IsApart (record s { free_list = rest }) ((a, taken size) ∷ live)
  IsApart-reuse a rest t =
      let (k, ks) = t.every (IsClear s.head s.cur) v.free_clear in
      let (d, ds) = t.apart v.free_apart in
      let le = taken-le size t.whole k.size t.enough in
      let part = λ (b : Block). IsDisjoint-part a (taken size) t.whole b le in
      let apart_live = All-pick live v.cross in
      record {
        node = v.node;
        aligned = v.aligned;
        low = v.low;
        high = v.high;
        fits = v.fits;
        live_clear = (
          record { start = k.start; size = round_up_aligned size; clear = ground (arith, k.clear) },
          v.live_clear,
        );
        free_clear = ks;
        live_apart = (
          All-map (IsDisjoint (a, t.whole)) (IsDisjoint (a, taken size)) part live apart_live.0,
          v.live_apart,
        );
        free_apart = ds;
        cross = (
          All-map (IsDisjoint (a, t.whole)) (IsDisjoint (a, taken size)) part rest d,
          apart_live.1,
        );
      }
    where
      All-pick :
          (l : List Block)
          → All (λ b. All (IsDisjoint b) s.free_list) l
          → All (IsDisjoint (a, t.whole)) l × All (λ b. All (IsDisjoint b) rest) l
      All-pick [] h = (tt, tt)
      All-pick (b ∷ l) h =
          let (x, y) = t.every (IsDisjoint b) h.0 in
          let (z, w) = All-pick l h.1 in ((IsDisjoint-symm b (a, t.whole) x, z), (y, w))

-- An aligned allocation keeps all blocks apart: if it gives a block, whether from the chunk or from
-- the freed ones, the block's rounded size overlaps no block in use and no freed block, and if it
-- asks for a chunk, nothing was given.
pub malloc-IsApart :
    (s : LocalAllocator) (live : List Block) (size : ℕ)
    → IsApart s live
    → let r = malloc size true s in
      (r.1 ≡ false → (r.0.offset % 256 ≡ 0) × IsApart r.2 ((r.0, taken size) ∷ live))
      × (r.1 ≡ true → IsApart r.2 live)
unfolding malloc cut chunk_exhausted
malloc-IsApart s live size v =
    let t = align_cur true s in
    let (w, ready, _) = align_cur-IsApart s live v in
    elim (Bool-cases (chunk_exhausted size t)) [
      | inr room ↦
          rw room (λ _. (ready, IsApart-cut t live size w ready (room-le size t room)), λ e. cc)
      | inl full ↦ elim (first_fit-Taken size t.free_list) [
        | inl nothing ↦ rw (full, nothing) (λ e. cc, λ _. w)
        | inr (a, rest, run, k) ↦
            rw (full, run)
              (
                λ _. (
                  (k.every (IsClear t.head t.cur) w.free_clear).0.start,
                  IsApart-reuse t live size w ready a rest k,
                ),
                λ e. cc,
              )
      ]
    ]
  where
    room-le :
        (size : ℕ) (t : LocalAllocator)
        → chunk_exhausted size t ≡ false
        → t.cur.offset + size ≤ t.head.offset + k_chunk_size
    room-le size t e = ground arith

free-cross :
    (bs : List Block) (b : Block) (live : List Block)
    → All (λ c. All (IsDisjoint c) bs) live
    → All (IsDisjoint b) live
    → All (λ c. All (IsDisjoint c) (bs ++ b ∷ [])) live
free-cross bs b [] h k = tt
free-cross bs b (c ∷ live) h k = (
  All-append (IsDisjoint c) bs (b ∷ []) h.0 (IsDisjoint-symm b c k.0, tt),
  free-cross bs b live h.1 k.1,
)

free_apart_lem :
    (s : LocalAllocator) (live : List Block) (a : GlobalAddress) (n : ℕ)
    → IsApart s ((a, n) ∷ live)
    → IsApart (free a n s) live
unfolding free
free_apart_lem s live a n v = record {
  node = v.node;
  aligned = v.aligned;
  low = v.low;
  high = v.high;
  fits = v.fits;
  live_clear = v.live_clear.1;
  free_clear =
      All-append (IsClear s.head s.cur) s.free_list ((a, n) ∷ []) v.free_clear (v.live_clear.0, tt);
  live_apart = v.live_apart.1;
  free_apart = Pairwise-append_one s.free_list (a, n) v.free_apart v.cross.0;
  cross = free-cross s.free_list (a, n) live v.cross.1 v.live_apart.0;
}

-- A list that ends in a block that is large enough serves the request.
first_fit-last :
    (size : ℕ) (bs : List Block) (a : GlobalAddress) (n : ℕ)
    → size ≤ n
    → (r : GlobalAddress × List Block) × (first_fit size (bs ++ (a, n) ∷ []) ≡ some r)
unfolding first_fit
first_fit-last size [] a n le = ((a, []), rw (le→leb size n le) refl)
first_fit-last size (b ∷ bs) a n le = elim (Bool-cases (leb size b.1)) [
  | inl fits ↦ ((b.0, bs ++ (a, n) ∷ []), rw fits refl)
  | inr small ↦
      let (r, run) = first_fit-last size bs a n le in ((r.0, b ∷ r.1), rw (small, run) refl)
]

-- Freeing a block that is in use: it is among the free ones then, with all that were free before, and what is
-- free and what is still in use stays apart; and an aligned request of at most its size is served next without
-- a new chunk.
pub free-IsApart :
    (s : LocalAllocator) (live : List Block) (a : GlobalAddress) (n size : ℕ)
    → IsApart s ((a, n) ∷ live)
    → size ≤ n
    → IsApart (free a n s) live
      × Memᴰ (a, n) (free a n s).free_list
      × ((b : Block) → Memᴰ b s.free_list → Memᴰ b (free a n s).free_list)
      × ((malloc size true (free a n s)).1 ≡ false)
unfolding free malloc cut align_cur
free-IsApart s live a n size v le =
    let t = align_cur true (free a n s) in
    let (r, run) = first_fit-last size s.free_list a n le in
    (
      free_apart_lem s live a n v,
      append_right s.free_list (head refl),
      λ b there. append_left ((a, n) ∷ []) there,
      elim (Bool-cases (chunk_exhausted size t)) [
        | inl full ↦ rw (full, run) refl
        | inr room ↦ rw room refl
      ],
    )

-- A new chunk, aligned and clear of all blocks, keeps them apart.
pub set_chunck-IsApart :
    (s : LocalAllocator) (live : List Block) (chunk : GlobalAddress)
    → IsApart s live
    → chunk.offset % 256 ≡ 0
    → chunk.offset + k_chunk_size < 2 ^ 48
    → All (IsDisjoint (chunk, k_chunk_size)) live
    → All (IsDisjoint (chunk, k_chunk_size)) s.free_list
    → IsApart (set_chunck chunk s) live
unfolding set_chunck
set_chunck-IsApart s live chunk v aligned fits d e = record {
  node = refl;
  aligned = aligned;
  low = omega arith;
  high = omega arith;
  fits = fits;
  live_clear = fresh live v.live_clear d;
  free_clear = fresh s.free_list v.free_clear e;
  live_apart = v.live_apart;
  free_apart = v.free_apart;
  cross = v.cross;
}
  where
    fresh :
        (bs : List Block)
        → All (IsClear s.head s.cur) bs
        → All (IsDisjoint (chunk, k_chunk_size)) bs
        → All (IsClear chunk chunk) bs
    fresh [] h k = tt
    fresh (b ∷ bs) h k =
        let le = (round_up_bounds chunk.offset).0 in
        (
          record { start = h.0.start; size = h.0.size; clear = ground (arith, k.0.apart) },
          fresh bs h.1 k.1,
        )
