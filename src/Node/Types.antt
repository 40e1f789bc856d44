-- ===== src/Node/Types.antt =====
-- `NodeType` of include/Node.h, with the fine-grained types that CMakeLists.txt turns on.
use hybrid_heterogeneous_mem.Prelude.{
  ℕ, zero, suc, ◌+◌, ◌^◌, ◌≤◌, ◌<◌, ◌≡◌, Option, none, some, arith, ltb, ◌==◌, dec_lt, ℕ_discrete,
  lt→ltb, ge→ltb, pos→==, Bool-cases, inl, inr, if◌then◌else◌,
}

-- The underlying `uint8_t`: `NODE_DELETED` is 0, then `NODE_4`, `NODE_8`, … up to `NODE_256`.
abbrev pub NodeType : Type 0
NodeType = ℕ

abbrev pub node_deleted : NodeType
node_deleted = 0

abbrev pub node_4 : NodeType
node_4 = 1

abbrev pub node_256 : NodeType
node_256 = 7

abbrev pub max_node_type_num : ℕ
max_node_type_num = 8

-- The number of entries of a node.
unfoldable pub node_type_to_num : NodeType → ℕ
node_type_to_num type = if type == node_deleted then 0 else 2 ^ (type + 1)

-- `for (int i = 1; i < MAX_NODE_TYPE_NUM; ++ i)` from `i`, with `rounds` rounds left.
unfoldable pub type_loop : ℕ → ℕ → ℕ → Option NodeType
type_loop num i zero = none
type_loop num i (suc rounds) =
    let rest = type_loop num (i + 1) rounds in if ltb num (2 ^ (i + 1)) then some i else rest

-- `none` is the failing `assert`.
unfoldable pub num_to_node_type : ℕ → Option NodeType
unfolding type_loop
num_to_node_type num = if num == 0 then some node_deleted else type_loop num 1 7

-- The loop stops at the first power of two above the number.
type_loop_lem :
    (num i rounds : ℕ)
    → 0 < rounds
    → num < 2 ^ (i + rounds)
    → (t : NodeType) × (type_loop num i rounds ≡ some t)
      × (i ≤ t)
      × (t < i + rounds)
      × (num < 2 ^ (t + 1))
      × ((s : NodeType) → i ≤ s → s < t → 2 ^ (s + 1) ≤ num)
unfolding type_loop
type_loop_lem num i zero pos small = absurd (omega arith)
type_loop_lem num i (suc rounds) pos small = elim (dec_lt num (2 ^ (i + 1))) [
  | yes lt ↦ (
    i,
    rw (lt→ltb num (2 ^ (i + 1)) lt, type_loop),
    omega arith,
    omega arith,
    lt,
    λ s p q. absurd (omega arith),
  )
  | no ge ↦
      let (t, run, lo, hi, fits, least) =
        type_loop_lem num (i + 1) rounds (later rounds ge small) (rw (shift i rounds) at small) in
      (
        t,
        rw (ge→ltb num (2 ^ (i + 1)) (omega arith), type_loop) run,
        omega arith,
        omega arith,
        fits,
        λ s p q. elim (ℕ_discrete s i) [
          | yes same ↦ rw same (omega arith)
          | no other ↦ least s (omega arith) q
        ],
      )
]
  where
    shift : (i rounds : ℕ) → i + suc rounds ≡ i + 1 + rounds
    shift i rounds = omega arith

    last : (i : ℕ) → i + 1 ≡ i + suc 0
    last i = omega arith

    later : (rounds : ℕ) → ¬ (num < 2 ^ (i + 1)) → num < 2 ^ (i + suc rounds) → 0 < rounds
    later zero ge small = absurd (ge (rw (← last i) at small))
    later (suc rounds) ge small = omega arith

-- The type chosen for slot number `num` exists below 256, has room for that slot, and is the
-- smallest that has: a node of a smaller type ends at or before the slot.
pub num_to_node_type-fits :
    (num : ℕ)
    → 0 < num
    → num < 256
    → (t : NodeType) × (num_to_node_type num ≡ some t)
      × (node_4 ≤ t)
      × (t ≤ node_256)
      × (num < node_type_to_num t)
      × ((s : NodeType) → s < t → node_type_to_num s ≤ num)
unfolding num_to_node_type node_type_to_num
num_to_node_type-fits num pos small =
    let (t, run, lo, hi, fits, least) = type_loop_lem num 1 7 (omega arith) small in
    (
      t,
      rw (pos→== num pos) run,
      lo,
      omega arith,
      rw (pos→== t lo) fits,
      λ s q. elim (Bool-cases (s == 0)) [
        | inl z ↦ rw z (omega arith)
        | inr nz ↦ rw nz (least s (ground arith) q)
      ],
    )

pub num_to_node_type-overflow : (num : ℕ) → 256 ≤ num → num_to_node_type num ≡ none
unfolding num_to_node_type
num_to_node_type-overflow num big = ground arith
