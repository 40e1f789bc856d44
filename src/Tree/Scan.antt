-- ===== src/Tree/Scan.antt =====
-- `search_entries` and `range_query` of src/Tree.cpp for a client whose cache has no entry of the range.
-- `rounds` bounds the rounds from `next` on and the levels; `none` is a query that is not over by then, or
-- that reads a byte outside of a key. `held` is what the i-th page of the range buffer holds before a
-- level is read, by the number of operations made before.
pub mod Faults
pub mod Tests
use hybrid_heterogeneous_mem.Prelude.{
  ℕ, zero, suc, ◌+◌, ◌-◌, Bool, true, false, not, ◌&&◌, Option, none, some, List, [], ◌∷◌, ◌++◌,
  ltb, ◌==◌, if◌then◌else◌, get_or,
}
use hybrid_heterogeneous_mem.Address.{GlobalAddress, eq_address}
use hybrid_heterogeneous_mem.Key.{Key, get_partial, longest_common_prefix, minus}
use hybrid_heterogeneous_mem.Node.Types.{node_type_to_num}
use hybrid_heterogeneous_mem.Node.Header.{Header}
use hybrid_heterogeneous_mem.Node.Entry.{InternalEntry, eq_entry, addr_of, type_of}
use hybrid_heterogeneous_mem.Node.Entry
use hybrid_heterogeneous_mem.Node.Page.{InternalPage, is_valid_page}
use hybrid_heterogeneous_mem.Leaf.{Leaf, is_valid, is_consistent}
use hybrid_heterogeneous_mem.Tree.Memory.{Place, root, slot, place_addr, overlay}
use hybrid_heterogeneous_mem.Tree.Client.{World, Setting, turn, read_entry, read_node, find_slot}
use hybrid_heterogeneous_mem.Tree.Range.{border, ScanContext, range_query_on_page}

-- `operator<` of `std::array`
unfoldable pub lt_key : Key → Key → Bool
lt_key [] [] = false
lt_key [] (y ∷ ys) = true
lt_key (x ∷ xs) [] = false
lt_key (x ∷ xs) (y ∷ ys) =
    let rest = lt_key xs ys in if ltb x y then true else if ltb y x then false else rest

-- How the loop over a header ends: at a byte that differs, at the target depth, or behind the header.
pub data Way : Type 0 where
  differs : Way
  reached : Way
  passed : Way

-- The loop over the header from `i` on.
unfoldable pub walk : Key → Header → ℕ → ℕ → ℕ → Option Way
walk from hdr target_depth i zero = some passed
walk from hdr target_depth i (suc rounds) = elim (get_partial from (hdr.depth + i)) [
  | none ↦ none
  | some b ↦ elim (b == get_or hdr.partial i 0) [
    | false ↦ some differs
    | true ↦ elim (hdr.depth + i + 1 == target_depth) [
      | true ↦ some reached
      | false ↦ walk from hdr target_depth (i + 1) rounds
    ]
  ]
]

-- How a round of `search_entries` ends: with the contexts that it added, at a place further down, or
-- with a failure.
pub data Landing : Type 0 where
  landed : List ScanContext → World → Landing
  further : Place → InternalEntry → ℕ → World → Landing
  broken : Landing

module _ (c : Setting) (from to : Key) (target_depth : ℕ) where
  -- 3.3. The slot of the byte.
  unfoldable pub descend : InternalPage → InternalEntry → World → Landing
  descend page p w =
      let end = page.hdr.depth + page.hdr.partial_len in
      elim (get_partial from end) [
        | none ↦ broken
        | some byte ↦ elim (find_slot page.records byte 0 (node_type_to_num (type_of p))) [
          | none ↦ landed [] w
          | some i ↦ further (slot (addr_of p) i) (get_or page.records i Entry.null) (end + 1) w
        ]
      ]

  -- 3.2. The header.
  unfoldable pub at_way : InternalPage → InternalEntry → World → Option Way → Landing
  at_way page p w none = broken
  at_way page p w (some differs) = landed [] w
  at_way page p w (some reached) = elim (range_query_on_page page p from to border border) [
    | none ↦ broken
    | some contexts ↦ landed contexts w
  ]
  at_way page p w (some passed) = descend page p w

  -- 3. What `read_node` gave.
  unfoldable pub entries_node :
      Place → ℕ → Bool × Bool × InternalPage × InternalEntry × World → Landing
  entries_node p_ptr depth (true, correct, page, p, w) =
      at_way page p w (walk from page.hdr target_depth 0 page.hdr.partial_len)
  entries_node p_ptr depth (false, correct, page, p, w) =
      let (e, w') = read_entry c p_ptr w in further p_ptr e depth w'

  -- The entry at the target depth, with both bounds at it.
  unfoldable pub whole_entry : Place → InternalEntry → ℕ → ScanContext
  whole_entry p_ptr p depth = record {
    e = p;
    e_ptr = p_ptr;
    depth = depth - 1;
    from_cache = false;
    from = from;
    to = to;
    l_state = border;
    r_state = border;
  }

  -- One round from `next` on.
  unfoldable pub entries_round : Place → InternalEntry → ℕ → World → Landing
  entries_round p_ptr p depth w = elim (eq_entry p Entry.null) [
    | true ↦ landed [] w
    | false ↦ elim (depth == target_depth) [
      | true ↦ landed (whole_entry p_ptr p depth ∷ []) w
      | false ↦ elim p.is_leaf [
        | true ↦ landed [] w
        | false ↦ entries_node p_ptr depth (read_node c p p_ptr depth false w)
      ]
    ]
  ]

  unfoldable pub entries_from :
      ℕ → Place → InternalEntry → ℕ → World → Option (List ScanContext × World)
  entries_from zero p_ptr p depth w = none
  entries_from (suc rounds) p_ptr p depth w = elim (entries_round p_ptr p depth w) [
    | landed contexts w' ↦ some (contexts, w')
    | further p_ptr' p' depth' w' ↦ entries_from rounds p_ptr' p' depth' w'
    | broken ↦ none
  ]

  unfoldable pub search_entries : ℕ → World → Option (List ScanContext × World)
  search_entries rounds w = let (p, w') = read_entry c root w in entries_from rounds root p 1 w'

-- `tokens.find`
unfoldable pub has_token : List GlobalAddress → GlobalAddress → Bool
has_token [] a = false
has_token (t ∷ tokens) a = let rest = has_token tokens a in if eq_address t a then true else rest

-- 1. The contexts whose address has not been read yet, and the tokens with theirs.
unfoldable pub pick : List ScanContext → List GlobalAddress → List ScanContext × List GlobalAddress
pick [] tokens = ([], tokens)
pick (s ∷ survivors) tokens =
    let old = pick survivors tokens in
    let (si, tokens') = pick survivors (addr_of s.e ∷ tokens) in
    if has_token tokens (addr_of s.e) then old else (s ∷ si, tokens')

-- A place of the range buffer behind the read.
pub data Image : Type 0 where
  leaf_image : Leaf → Image
  page_image : InternalPage → Image

-- The key-value pairs found; `ret[k] = v`.
abbrev pub Found : Type 0
Found = List (Key × ℕ)

module _ (c : Setting) (held : ℕ → ℕ → InternalPage) where
  -- 2. The reads of a level, from the i-th place of the buffer on.
  unfoldable pub read_level : ℕ → List ScanContext → World → List (ScanContext × Image) × World
  read_level i [] w = ([], w)
  read_level i (s ∷ si) w =
      let w' = turn c w in
      let a = addr_of s.e in
      let page = overlay (node_type_to_num (type_of s.e)) (w'.memory.pages a) (held w.clock i) in
      let image = if s.e.is_leaf then leaf_image (w'.memory.leaves a) else page_image page in
      let (rest, w'') = read_level (i + 1) si w' in ((s, image) ∷ rest, w'')

  -- The entry of a context read again.
  unfoldable pub renew : ScanContext → World → List ScanContext × World
  renew s w =
      let (e, w') = read_entry c s.e_ptr w in (record s { e = e; from_cache = false } ∷ [], w')

  -- 3.1 and 3.2. What an image adds to the survivors and to what was found.
  unfoldable pub scan_image :
      Key → Key → ScanContext → Image → Found → World → Option (List ScanContext × Found × World)
  scan_image from to s (leaf_image leaf) found w =
      let (renewed, w') = renew s w in
      let again = if not (is_consistent c.crc leaf) then s ∷ [] else [] in
      let in_range = not (lt_key leaf.key from) && lt_key leaf.key to in
      let found' = if in_range then (leaf.key, leaf.value) ∷ found else found in
      if not (is_valid (place_addr c.root_ptr_ptr s.e_ptr) s.from_cache leaf)
      then some (renewed, found, w')
      else some (again, found', w)
  scan_image from to s (page_image page) found w =
      let (renewed, w') = renew s w in
      if not (is_valid_page (place_addr c.root_ptr_ptr s.e_ptr) (s.depth + 1) s.from_cache page)
      then some (renewed, found, w')
      else elim (range_query_on_page page s.e s.from s.to s.l_state s.r_state) [
        | none ↦ none
        | some contexts ↦ some (contexts, found, w)
      ]

  -- 3. The images of a level, one after the other.
  unfoldable pub scan_level :
      Key
      → Key
      → List (ScanContext × Image)
      → Found
      → World
      → Option (List ScanContext × Found × World)
  scan_level from to [] found w = some ([], found, w)
  scan_level from to ((s, image) ∷ rest) found w = elim (scan_image from to s image found w) [
    | none ↦ none
    | some (contexts, found', w') ↦ elim (scan_level from to rest found' w') [
      | none ↦ none
      | some (later, found'', w'') ↦ some (contexts ++ later, found'', w'')
    ]
  ]

  -- From `next_level` on.
  unfoldable pub range_levels :
      ℕ → Key → Key → List ScanContext → List GlobalAddress → Found → World → Option (Found × World)
  range_levels zero from to survivors tokens found w = none
  range_levels (suc rounds) from to [] tokens found w = some (found, w)
  range_levels (suc rounds) from to (s ∷ survivors) tokens found w =
      let (si, tokens') = pick (s ∷ survivors) tokens in
      let (images, w') = read_level 0 si w in
      elim (scan_level from to images found w') [
        | none ↦ none
        | some (survivors', found', w'') ↦ range_levels rounds from to survivors' tokens' found' w''
      ]

  -- `range_query`
  unfoldable pub range_query : ℕ → Key → Key → World → Option (Found × World)
  range_query rounds from to w = elim (lt_key from to) [
    | false ↦ some ([], w)
    | true ↦ elim (minus to 1) [
      | none ↦ none
      | some last ↦ elim (longest_common_prefix from last 0) [
        | none ↦ none
        | some partial_len ↦ elim (search_entries c from last partial_len rounds w) [
          | none ↦ none
          | some (survivors, w') ↦ range_levels rounds from to survivors [] [] w'
        ]
      ]
    ]
  ]
