-- ===== src/Node/Header.antt =====
-- `Header` of include/Node.h: the depth, the type and the compressed path of a node.
pub mod Match
pub mod Build
use hybrid_heterogeneous_mem.Prelude.{
  ℕ, zero, suc, ◌+◌, ◌-◌, ◌*◌, ◌/◌, ◌%◌, ◌^◌, ◌<◌, ◌≤◌, ◌≡◌, Bool, true, false, List, [], ◌∷◌,
  Option, none, some, get_or, set, replicate, length, leb, ltb, ◌==◌, if◌then◌else◌,
}
use hybrid_heterogeneous_mem.Key.{Key, get_partial}
use hybrid_heterogeneous_mem.Node.Types.{NodeType}

-- `define::hPartialLenMax`
abbrev pub h_partial_len_max : ℕ
h_partial_len_max = 6

pub record Header : Type 0 where
  pub depth : ℕ
  pub node_type : NodeType
  pub partial_len : ℕ
  pub partial : List ℕ

pub record IsHeader (h : Header) : Type 0 where
  pub depth_fits : h.depth < 2 ^ 8
  pub node_type_fits : h.node_type < 2 ^ 5
  pub partial_len_le : h.partial_len ≤ h_partial_len_max
  pub partial_size : length h.partial ≡ h_partial_len_max

-- `Header()`
unfoldable pub empty : Header
empty = record {
  depth = 0;
  node_type = 0;
  partial_len = 0;
  partial = replicate h_partial_len_max 0;
}

-- `for (int i = 0; i < partial_len; ++ i) partial[i] = get_partial(k, depth + i);` from `i`, with
-- `rounds` rounds left. Bytes that the loop does not reach keep what the memory held.
unfoldable pub fill : Key → ℕ → ℕ → ℕ → List ℕ → Option (List ℕ)
fill k depth i zero partial = some partial
fill k depth i (suc rounds) partial = elim (get_partial k (depth + i)) [
  | none ↦ none
  | some b ↦ fill k depth (i + 1) rounds (set partial i b)
]

-- `Header(const Key &k, int partial_len, int depth, NodeType node_type)` over the bytes `memory`;
-- `none` if the `assert` fails or a byte of the key is out of range.
unfoldable pub of_key : List ℕ → Key → ℕ → ℕ → NodeType → Option Header
unfolding fill
of_key memory k partial_len depth node_type =
    if leb partial_len h_partial_len_max
    then elim (fill k depth 0 partial_len memory) [
      | none ↦ none
      | some bytes ↦ some (record {
        depth = depth % 2 ^ 8;
        node_type = node_type % 2 ^ 5;
        partial_len = partial_len % 2 ^ 3;
        partial = bytes;
      })
    ]
    else none

-- The loop of `is_match`, and the one that `Tree::insert` makes to find the byte that differs: the
-- first index from `i` on at which the key and the header differ, `partial_len` if there is none.
unfoldable pub mismatch_from : Key → Header → ℕ → ℕ → Option ℕ
mismatch_from k h i zero = some i
mismatch_from k h i (suc rounds) =
    let rest = mismatch_from k h (i + 1) rounds in
    elim (get_partial k (h.depth + i)) [
      | none ↦ none
      | some b ↦ if b == get_or h.partial i 0 then rest else some i
    ]

unfoldable pub mismatch : Key → Header → Option ℕ
unfolding mismatch_from
mismatch k h = mismatch_from k h 0 h.partial_len

-- `is_match`: `return false` at a byte that differs, `return true` behind the loop.
unfoldable pub is_match_from : Key → Header → ℕ → ℕ → Option Bool
is_match_from k h i zero = some true
is_match_from k h i (suc rounds) =
    let rest = is_match_from k h (i + 1) rounds in
    elim (get_partial k (h.depth + i)) [
      | none ↦ none
      | some b ↦ if b == get_or h.partial i 0 then rest else some false
    ]

unfoldable pub is_match : Key → Header → Option Bool
unfolding is_match_from
is_match k h = is_match_from k h 0 h.partial_len

-- `for (int i = diff_idx + 1; i < old_hdr.partial_len; ++ i)` from `i`, with `rounds` rounds left.
unfoldable pub shift_bytes : List ℕ → ℕ → ℕ → ℕ → List ℕ → List ℕ
shift_bytes old diff_idx i zero bytes = bytes
shift_bytes old diff_idx i (suc rounds) bytes =
    shift_bytes old diff_idx (i + 1) rounds (set bytes (i - diff_idx - 1) (get_or old i 0))

-- The fields are cut to three and eight bits; `partial_len` is above `diff_idx` where it is called.
unfoldable pub split_header : Header → ℕ → Header
unfolding shift_bytes empty
split_header old diff_idx = record empty {
  depth = (old.depth + diff_idx + 1) % 2 ^ 8;
  partial_len = (old.partial_len + 2 ^ 3 - diff_idx - 1) % 2 ^ 3;
  partial =
      shift_bytes old.partial diff_idx (diff_idx + 1) (old.partial_len - (diff_idx + 1))
        (replicate h_partial_len_max 0);
}
