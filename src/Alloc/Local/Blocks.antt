-- ===== src/Alloc/Local/Blocks.antt =====
-- Blocks that were handed out never overlap.
use hybrid_heterogeneous_mem.Prelude.{
  ℕ, ◌+◌, ◌%◌, ◌^◌, ◌<◌, ◌≤◌, ◌≡◌, ◌≢◌, ◌⊎◌, inl, inr, refl, List, [], ◌∷◌, ◌++◌, none, some, leb,
  arith, Bool-cases,
}
use hybrid_heterogeneous_mem.Common.{k_chunk_size, alloc_allign_bit, round_up}
use hybrid_heterogeneous_mem.Address.{GlobalAddress}
use hybrid_heterogeneous_mem.Alloc.Local.{LocalAllocator, first_fit}

abbrev pub Block : Type 0
Block = GlobalAddress × ℕ

abbrev pub All : (Block → Type 0) → List Block → Type 0
All P [] = Unit
All P (b ∷ bs) = P b × All P bs

-- Two blocks have no byte in common.
pub record IsDisjoint (a b : Block) : Type 0 where
  pub apart :
      (a.0.node_id ≢ b.0.node_id)
      ⊎ ((a.0.offset + a.1 ≤ b.0.offset) ⊎ (b.0.offset + b.1 ≤ a.0.offset))

abbrev pub Pairwise : List Block → Type 0
Pairwise [] = Unit
Pairwise (b ∷ bs) = All (IsDisjoint b) bs × Pairwise bs

-- A block of whole units of 256 bytes, clear of the rest of the current chunk.
pub record IsClear (head cur : GlobalAddress) (b : Block) : Type 0 where
  pub start : b.0.offset % 256 ≡ 0
  pub size : b.1 % 256 ≡ 0
  pub clear :
      (b.0.node_id ≢ head.node_id)
      ⊎ ((b.0.offset + b.1 ≤ round_up cur.offset alloc_allign_bit)
          ⊎ (head.offset + k_chunk_size ≤ b.0.offset))

-- The state of a thread's allocator with the blocks that its callers hold.
pub record IsApart (s : LocalAllocator) (live : List Block) : Type 0 where
  pub node : s.cur.node_id ≡ s.head.node_id
  pub aligned : s.head.offset % 256 ≡ 0
  pub low : s.head.offset ≤ s.cur.offset
  pub high : s.cur.offset ≤ s.head.offset + k_chunk_size
  pub fits : s.head.offset + k_chunk_size < 2 ^ 48
  pub live_clear : All (IsClear s.head s.cur) live
  pub free_clear : All (IsClear s.head s.cur) s.free_list
  pub live_apart : Pairwise live
  pub free_apart : Pairwise s.free_list
  pub cross : All (λ b. All (IsDisjoint b) s.free_list) live

pub All-map :
    (P Q : Block → Type 0) → ((b : Block) → P b → Q b) → (bs : List Block) → All P bs → All Q bs
All-map P Q f [] h = tt
All-map P Q f (b ∷ bs) h = (f b h.0, All-map P Q f bs h.1)

pub All-append :
    (P : Block → Type 0) (as' bs : List Block) → All P as' → All P bs → All P (as' ++ bs)
All-append P [] bs h k = k
All-append P (a ∷ as') bs h k = (h.0, All-append P as' bs h.1 k)

pub IsDisjoint-symm : (a b : Block) → IsDisjoint a b → IsDisjoint b a
IsDisjoint-symm a b d = record { apart = ground arith }

pub Pairwise-append_one :
    (bs : List Block) (b : Block) → Pairwise bs → All (IsDisjoint b) bs → Pairwise (bs ++ b ∷ [])
Pairwise-append_one [] b p h = (tt, tt)
Pairwise-append_one (a ∷ bs) b p h = (
  All-append (IsDisjoint a) bs (b ∷ []) p.0 (IsDisjoint-symm b a h.0, tt),
  Pairwise-append_one bs b p.1 h.1,
)

-- A part of a block that is disjoint from another block is disjoint from it too.
pub IsDisjoint-part :
    (a : GlobalAddress) (m n : ℕ) (b : Block) → m ≤ n → IsDisjoint (a, n) b → IsDisjoint (a, m) b
IsDisjoint-part a m n b le d = record { apart = ground arith }

-- What the search takes from the list of free blocks.
pub record Taken (size : ℕ) (bs : List Block) (a : GlobalAddress) (rest : List Block) : Type 1 where
  pub whole : ℕ
  pub enough : size ≤ whole
  pub every : (P : Block → Type 0) → All P bs → P (a, whole) × All P rest
  pub apart : Pairwise bs → All (IsDisjoint (a, whole)) rest × Pairwise rest

pub first_fit-Taken :
    (size : ℕ) (bs : List Block)
    → (first_fit size bs ≡ none)
      ⊎ ((a : GlobalAddress) × (rest : List Block) × (first_fit size bs ≡ some (a, rest))
          × Taken size bs a rest)
unfolding first_fit
first_fit-Taken size [] = inl refl
first_fit-Taken size (b ∷ bs) = elim (Bool-cases (leb size b.1)) [
  | inl yes' ↦ inr (
    b.0,
    bs,
    rw yes',
    record { whole = b.1; enough = ground arith; every = λ P h. h; apart = λ p. p },
  )
  | inr no' ↦ elim (first_fit-Taken size bs) [
    | inl e ↦ inl (rw (no', e))
    | inr (a, rest, run, t) ↦ inr (
      a,
      b ∷ rest,
      rw (no', run),
      record {
        whole = t.whole;
        enough = t.enough;
        every = λ P h. let (x, y) = t.every P h.1 in (x, (h.0, y));
        apart = λ p.
            let (x, y) = t.every (IsDisjoint b) p.0 in
            let (z, w) = t.apart p.1 in ((IsDisjoint-symm b (a, t.whole) x, z), (y, w));
      },
    )
  ]
]

-- The units of 256 bytes that a block of a size takes up.
abbrev pub taken : ℕ → ℕ
taken size = round_up size alloc_allign_bit

-- The rest of the chunk begins at the rounded offset, before and after the rounding.
pub round_up_idem :
    (x : ℕ) → round_up (round_up x alloc_allign_bit) alloc_allign_bit ≡ round_up x alloc_allign_bit
unfolding round_up
round_up_idem x = omega arith

pub round_up_aligned : (x : ℕ) → round_up x alloc_allign_bit % 256 ≡ 0
unfolding round_up
round_up_aligned x = omega arith

-- The end of a chunk is aligned, so rounding up does not pass it.
pub round_up-le : (x h : ℕ) → h % 256 ≡ 0 → x ≤ h + k_chunk_size → taken x ≤ h + k_chunk_size
unfolding round_up
round_up-le x h a le = omega arith

pub IsClear-later :
    (head cur c : GlobalAddress)
    → taken cur.offset ≤ taken c.offset
    → (b : Block) → IsClear head cur b
    → IsClear head c b
IsClear-later head cur c le b k = record { start = k.start; size = k.size; clear = ground arith }

pub taken-add : (c size : ℕ) → c % 256 ≡ 0 → taken (c + size) ≡ c + taken size
unfolding round_up
taken-add c size a = omega arith

pub taken-le : (size whole : ℕ) → whole % 256 ≡ 0 → size ≤ whole → taken size ≤ whole
unfolding round_up
taken-le size whole a le = omega arith

pub taken_self : (c : ℕ) → c % 256 ≡ 0 → taken c ≡ c
unfolding round_up
taken_self c a = omega arith
