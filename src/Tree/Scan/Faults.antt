-- ===== src/Tree/Scan/Faults.antt =====
-- Two ways in which `range_query` of src/Tree.cpp gives another result than a search of every key would.
use hybrid_heterogeneous_mem.Prelude.{
  ℕ, suc, ◌+◌, ◌<◌, ◌≡◌, refl, ◌∙◌, true, false, some, [], ◌∷◌, ◌++◌, ◌==◌, arith, List, not, ◌&&◌,
  if◌then◌else◌, Bool-cases, inl, inr,
}
use hybrid_heterogeneous_mem.Address.{GlobalAddress, eq_address}
use hybrid_heterogeneous_mem.Key.{Key, longest_common_prefix, minus}
use hybrid_heterogeneous_mem.Node.Entry.{InternalEntry, eq_entry, addr_of}
use hybrid_heterogeneous_mem.Node.Entry
use hybrid_heterogeneous_mem.Node.Page.{InternalPage}
use hybrid_heterogeneous_mem.Leaf.{Leaf, is_valid, is_consistent}
use hybrid_heterogeneous_mem.Tree.Memory.{root, place_addr, entry_at}
use hybrid_heterogeneous_mem.Tree.Client.{World, Setting, turn, read_entry}
use hybrid_heterogeneous_mem.Tree.Range.{ScanContext}
use hybrid_heterogeneous_mem.Tree.Quiet.{eq_address_refl}
use hybrid_heterogeneous_mem.Tree.Scan.{
  lt_key, has_token, pick, read_level, scan_image, scan_level, range_levels, search_entries,
  entries_from, entries_round, Found, landed, Image, range_query, leaf_image,
}

module _ (c : Setting) where
  -- The leaf that the read of a context meets.
  abbrev pub met_leaf : ScanContext → World → Leaf
  met_leaf s w = (turn c w).memory.leaves (addr_of s.e)

  -- The leaves that the reads of a level meet, one behind the other, and the world behind them.
  unfoldable pub met_leaves : List ScanContext → World → List Leaf
  met_leaves [] w = []
  met_leaves (s ∷ si) w = met_leaf s w ∷ met_leaves si (turn c w)

  unfoldable pub read_all : List ScanContext → World → World
  read_all [] w = w
  read_all (s ∷ si) w = read_all si (turn c w)

  -- Each context is of a leaf, which is valid when it is read.
  unfoldable pub AreLeaves : List ScanContext → World → Type 0
  AreLeaves [] w = Unit
  AreLeaves (s ∷ si) w =
      (s.e.is_leaf ≡ true)
      × (is_valid (place_addr c.root_ptr_ptr s.e_ptr) s.from_cache (met_leaf s w) ≡ true)
      × AreLeaves si (turn c w)

module _ (from to : Key) where
  -- The pairs of the leaves whose keys are in the range, whatever their checksums are.
  unfoldable pub collect : List Leaf → Found → Found
  collect [] found = found
  collect (l ∷ leaves) found =
      let with_it = collect leaves ((l.key, l.value) ∷ found) in
      let without = collect leaves found in
      if not (lt_key l.key from) && lt_key l.key to then with_it else without

-- No two contexts have one address, and none has been read.
unfoldable pub AreNew : List ScanContext → List GlobalAddress → Type 0
AreNew [] tokens = Unit
AreNew (s ∷ si) tokens = (has_token tokens (addr_of s.e) ≡ false) × AreNew si (addr_of s.e ∷ tokens)

module _ (c : Setting) (held : ℕ → ℕ → InternalPage) (from to : Key) where
  tokens_of : List ScanContext → List GlobalAddress → List GlobalAddress
  tokens_of [] tokens = tokens
  tokens_of (s ∷ si) tokens = tokens_of si (addr_of s.e ∷ tokens)

  images_of : List ScanContext → World → List (ScanContext × Image)
  images_of [] w = []
  images_of (s ∷ si) w = (s, leaf_image (met_leaf c s w)) ∷ images_of si (turn c w)

  torn_ones : List ScanContext → World → List ScanContext
  torn_ones [] w = []
  torn_ones (s ∷ si) w =
      (if not (is_consistent c.crc (met_leaf c s w)) then s ∷ [] else []) ++ torn_ones si (turn c w)

  -- Each address is among the tokens.
  HaveTokens : List ScanContext → List GlobalAddress → Type 0
  HaveTokens [] tokens = Unit
  HaveTokens (s ∷ si) tokens = (has_token tokens (addr_of s.e) ≡ true) × HaveTokens si tokens

  pick-new :
      (si : List ScanContext) (tokens : List GlobalAddress)
      → AreNew si tokens
      → pick si tokens ≡ (si, tokens_of si tokens)
  unfolding pick AreNew tokens_of
  pick-new [] tokens h = refl
  pick-new (s ∷ si) tokens (new, h) = rw (new, pick-new si (addr_of s.e ∷ tokens) h) refl

  pick-old :
      (si : List ScanContext) (tokens : List GlobalAddress)
      → HaveTokens si tokens
      → pick si tokens ≡ ([], tokens)
  unfolding pick HaveTokens
  pick-old [] tokens h = refl
  pick-old (s ∷ si) tokens (old, h) = rw (old, pick-old si tokens h) refl

  has_token-tokens_of :
      (si : List ScanContext) (tokens : List GlobalAddress) (a : GlobalAddress)
      → has_token tokens a ≡ true
      → has_token (tokens_of si tokens) a ≡ true
  unfolding tokens_of has_token
  has_token-tokens_of [] tokens a h = h
  has_token-tokens_of (s ∷ si) tokens a h =
      has_token-tokens_of si (addr_of s.e ∷ tokens) a
        (elim (Bool-cases (eq_address (addr_of s.e) a)) [
          | inl same ↦ rw same refl
          | inr other ↦ rw other h
        ])

  torn_ones-HaveTokens :
      (si : List ScanContext) (w : World) (tokens : List GlobalAddress)
      → HaveTokens (torn_ones si w) (tokens_of si tokens)
  unfolding torn_ones HaveTokens tokens_of has_token
  torn_ones-HaveTokens [] w tokens = tt
  torn_ones-HaveTokens (s ∷ si) w tokens =
      let rest = torn_ones-HaveTokens si (turn c w) (addr_of s.e ∷ tokens) in
      let own : has_token (tokens_of si (addr_of s.e ∷ tokens)) (addr_of s.e) ≡ true =
        has_token-tokens_of si (addr_of s.e ∷ tokens) (addr_of s.e)
          (rw (eq_address_refl (addr_of s.e)) refl) in
      elim (Bool-cases (is_consistent c.crc (met_leaf c s w))) [
        | inl whole ↦ rw whole rest
        | inr torn ↦ rw torn (own, rest)
      ]

  read_level-leaves :
      (i : ℕ) (si : List ScanContext) (w : World)
      → AreLeaves c si w
      → read_level c held i si w ≡ (images_of si w, read_all c si w)
  unfolding read_level AreLeaves images_of read_all
  read_level-leaves i [] w h = refl
  read_level-leaves i (s ∷ si) w (l, valid, h) =
      simp (read_level, l, read_level-leaves (i + 1) si (turn c w) h) refl

  scan_level-leaves :
      (si : List ScanContext) (w w' : World) (found : Found)
      → AreLeaves c si w
      → scan_level c held from to (images_of si w) found w'
        ≡ some (torn_ones si w, collect from to (met_leaves c si w) found, w')
  unfolding scan_level scan_image AreLeaves images_of torn_ones collect met_leaves is_valid turn
  scan_level-leaves [] w w' found h = refl
  scan_level-leaves (s ∷ si) w w' found (l, valid, h) =
      let leaf = met_leaf c s w in
      let with_it = scan_level-leaves si (turn c w) w' ((leaf.key, leaf.value) ∷ found) h in
      let without = scan_level-leaves si (turn c w) w' found h in
      elim (Bool-cases (not (lt_key leaf.key from) && lt_key leaf.key to)) [
        | inl within ↦ simp (scan_level, scan_image, valid, within, with_it) refl
        | inr beside ↦ simp (scan_level, scan_image, valid, beside, without) refl
      ]

  levels-step :
      (s : ScanContext) (survivors si next : List ScanContext) (tokens tokens' : List GlobalAddress)
      (found found' : Found) (images : List (ScanContext × Image)) (w w' w'' : World) (rounds : ℕ)
      → pick (s ∷ survivors) tokens ≡ (si, tokens')
      → read_level c held 0 si w ≡ (images, w')
      → scan_level c held from to images found w' ≡ some (next, found', w'')
      → range_levels c held (suc rounds) from to (s ∷ survivors) tokens found w
        ≡ range_levels c held rounds from to next tokens' found' w''
  unfolding range_levels
  levels-step s survivors si next tokens tokens' found found' images w w' w'' rounds p r q =
      rw (range_levels, p, r, q, p) refl

  -- A level of contexts that were all read before adds nothing.
  level-old :
      (survivors : List ScanContext) (tokens : List GlobalAddress) (found : Found) (w : World)
      (rounds : ℕ)
      → HaveTokens survivors tokens
      → range_levels c held (suc (suc rounds)) from to survivors tokens found w ≡ some (found, w)
  unfolding range_levels read_level scan_level
  level-old [] tokens found w rounds h = refl
  level-old (s ∷ survivors) tokens found w rounds h =
      levels-step s survivors [] [] tokens tokens found found [] w w w (suc rounds)
        (pick-old (s ∷ survivors) tokens h) refl refl

  -- A level of a range query that has only leaves, each of them at an address that was not read before and
  -- valid when it is read: the query is over within three rounds, it has read each of the leaves once, and what
  -- it adds to what was found is the key and the value that it read of every leaf whose key is in the range,
  -- whether the leaf was consistent or not.
  pub range_levels-torn :
      (survivors : List ScanContext) (tokens : List GlobalAddress) (found : Found) (w : World)
      (rounds : ℕ)
      → AreNew survivors tokens
      → AreLeaves c survivors w
      → range_levels c held (suc (suc (suc rounds))) from to survivors tokens found w
        ≡ some (collect from to (met_leaves c survivors w) found, read_all c survivors w)
  unfolding range_levels collect met_leaves read_all
  range_levels-torn [] tokens found w rounds new leaves = refl
  range_levels-torn (s ∷ survivors) tokens found w rounds new leaves =
      let si = s ∷ survivors in
      levels-step s survivors si (torn_ones si w) tokens (tokens_of si tokens) found
        (collect from to (met_leaves c si w) found) (images_of si w) w (read_all c si w)
        (read_all c si w) (suc (suc rounds)) (pick-new si tokens new)
        (read_level-leaves 0 si w leaves) (scan_level-leaves si w (read_all c si w) found leaves)
      ∙ level-old (torn_ones si w) (tokens_of si tokens) (collect from to (met_leaves c si w) found)
          (read_all c si w) rounds (torn_ones-HaveTokens si w tokens)

module _ (c : Setting) (from last : Key) where
  entries_round-leaf :
      (p : InternalEntry) (d : ℕ) (w : World)
      → 1 < d
      → eq_entry p Entry.null ≡ false
      → p.is_leaf ≡ true
      → entries_round c from last d root p 1 w ≡ landed [] w
  unfolding entries_round
  entries_round-leaf p d w deep there l =
      let above : (1 == d) ≡ false = ground (arith, deep) in
      simp (entries_round, there, above, l) refl

  search_entries-leaf :
      (d rounds : ℕ) (w : World)
      → 1 < d
      → eq_entry (turn c w).memory.root_entry Entry.null ≡ false
      → (turn c w).memory.root_entry.is_leaf ≡ true
      → search_entries c from last d (suc rounds) w ≡ some ([], turn c w)
  unfolding search_entries entries_from read_entry entry_at
  search_entries-leaf d rounds w deep there l =
      rw
        (
          search_entries,
          entries_from,
          entries_round-leaf (turn c w).memory.root_entry d (turn c w) deep there l,
        )
        refl

module _ (c : Setting) (held : ℕ → ℕ → InternalPage) (from to : Key) where
  -- A tree whose root is a leaf, and a range whose first and last key agree in their first byte: the
  -- range query finds nothing, also if the key of the leaf is in the range.
  pub range_query-lone_leaf :
      (w : World) (last : Key) (d rounds : ℕ)
      → lt_key from to ≡ true
      → minus to 1 ≡ some last
      → longest_common_prefix from last 0 ≡ some d
      → 1 < d
      → eq_entry (turn c w).memory.root_entry Entry.null ≡ false
      → (turn c w).memory.root_entry.is_leaf ≡ true
      → range_query c held (suc rounds) from to w ≡ some ([], turn c w)
  unfolding range_query range_levels
  range_query-lone_leaf w last d rounds lt m p deep there l =
      rw (range_query, lt, m, p, search_entries-leaf c from last d rounds w deep there l) refl
