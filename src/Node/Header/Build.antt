-- ===== src/Node/Header/Build.antt =====
-- Headers that are made from a key, and headers that are split.
use hybrid_heterogeneous_mem.Prelude.{
  ℕ, zero, suc, ◌+◌, ◌-◌, ◌%◌, ◌^◌, ◌<◌, ◌≤◌, ◌≡◌, ◌↔◌, refl, sym, ◌∙◌, ap, true, List, some,
  get_or, set, replicate, length, length-set, get_or-set_at, get_or-set_ne, le→leb, arith,
  ℕ_discrete, dec_lt,
}
use hybrid_heterogeneous_mem.Key.{Key, IsKey}
use hybrid_heterogeneous_mem.Key.Prefix.{partial}
use hybrid_heterogeneous_mem.Node.Types.{NodeType}
use hybrid_heterogeneous_mem.Node.Header.{
  Header, IsHeader, h_partial_len_max, of_key, is_match, shift_bytes, split_header,
}
use hybrid_heterogeneous_mem.Node.Header.Match.{Follows, is_match_lem, fill_lem}

-- A header made from a key, with a path of at most six bytes that ends within the key: the
-- constructor does not fail, its fields are the arguments, and it is followed exactly by the keys
-- that have the same partial keys there, whatever bytes the memory held before.
pub of_key_lem :
    (memory : List ℕ) (k q : Key) (partial_len depth : ℕ) (t : NodeType)
    → IsKey k
    → IsKey q
    → length memory ≡ h_partial_len_max
    → partial_len ≤ h_partial_len_max
    → depth + partial_len ≤ 8
    → t < 32
    → (h : Header) × (of_key memory k partial_len depth t ≡ some h)
      × IsHeader h
      × (h.depth ≡ depth)
      × (h.partial_len ≡ partial_len)
      × (h.node_type ≡ t)
      × ((is_match q h ≡ some true)
          ↔ ((j : ℕ) → depth ≤ j → j < depth + partial_len → partial q j ≡ partial k j))
unfolding of_key
of_key_lem memory k q len depth t w v m le fits ht =
    let (bytes, run, size, before, after) =
      fill_lem k depth 0 len memory w (omega arith) (omega arith) in
    let h : Header = record {
      depth = depth % 2 ^ 8;
      node_type = t % 2 ^ 5;
      partial_len = len % 2 ^ 3;
      partial = bytes;
    } in
    let d : h.depth ≡ depth = omega arith in
    let l : h.partial_len ≡ len = omega arith in
    let (b, passed, iff) = is_match_lem q h v (omega arith) in
    (
      h,
      rw (le→leb len 6 le, run, of_key),
      record {
        depth_fits = omega arith;
        node_type_fits = omega arith;
        partial_len_le = omega arith;
        partial_size = size ∙ m;
      },
      d,
      l,
      omega arith,
      (
        λ e j p r.
            let i = j - depth in
            ap (partial q) (omega arith)
            ∙ iff.0 (cc) i (omega arith) (omega arith)
            ∙ after i (omega arith) (omega arith)
            ∙ ap (partial k) (omega arith),
        λ f.
            passed
            ∙ ap some (
                iff.1 (λ i p r.
                  ap (λ x. partial q (x + i)) d
                  ∙ f (depth + i) (omega arith) (omega arith)
                  ∙ sym (after i (omega arith) (omega arith)))),
      ),
    )

-- The bytes behind `diff_idx`, moved to the front.
shift_bytes_lem :
    (old : List ℕ) (d i rounds : ℕ) (bytes : List ℕ)
    → d < i
    → i + rounds ≤ length bytes
    → (length (shift_bytes old d i rounds bytes) ≡ length bytes)
      × ((j : ℕ) → j + d + 1 < i → get_or (shift_bytes old d i rounds bytes) j 0 ≡ get_or bytes j 0)
      × ((j : ℕ)
          → i ≤ j + d + 1
          → j + d + 1 < i + rounds
          → get_or (shift_bytes old d i rounds bytes) j 0 ≡ get_or old (j + d + 1) 0)
unfolding shift_bytes
shift_bytes_lem old d i zero bytes p fits = (refl, λ j q. refl, λ j q r. absurd (omega arith))
shift_bytes_lem old d i (suc rounds) bytes p fits =
    let b = get_or old i 0 in
    let bytes' = set bytes (i - d - 1) b in
    let (size, before, after) =
      shift_bytes_lem old d (i + 1) rounds bytes' (omega arith)
        (omega (arith, length-set bytes (i - d - 1) b)) in
    (
      size ∙ length-set bytes (i - d - 1) b,
      λ j q.
          before j (omega arith)
          ∙ get_or-set_ne bytes (i - d - 1) j b 0 (λ e. absurd (omega arith)),
      λ j q r. elim (ℕ_discrete (j + d + 1) i) [
        | yes same ↦
            before j (omega arith)
            ∙ get_or-set_at bytes (i - d - 1) j b 0 (omega arith) (omega arith)
            ∙ ap (λ x. get_or old x 0) (sym same)
        | no other ↦ after j (omega arith) (omega arith)
      ],
    )

module _ (k : Key) (h : Header) (i : ℕ) (w : IsKey k) (hdr : IsHeader h) where
  -- Splitting a header at one of its bytes keeps the end of its path, and the new header is
  -- followed by a key that follows the old one exactly if the key follows the old one up to that
  -- byte and in it, and follows the new one.
  pub split_header_lem :
      i < h.partial_len
      → h.depth + h.partial_len ≤ 8
      → let n = split_header h i in
        IsHeader n
        × (n.depth ≡ h.depth + i + 1)
        × (n.depth + n.partial_len ≡ h.depth + h.partial_len)
        × ((is_match k h ≡ some true) ↔ (
            (Follows k h 0 i)
            × (partial k (h.depth + i) ≡ get_or h.partial i 0)
            × (is_match k n ≡ some true)))
  unfolding split_header
  split_header_lem lt le =
      let n = split_header h i in
      let (size, before, after) =
        shift_bytes_lem h.partial i (i + 1) (h.partial_len - (i + 1)) (replicate 6 0) (omega arith)
          (omega (arith, hdr.partial_len_le)) in
      let d : n.depth ≡ h.depth + i + 1 = omega arith in
      let l : n.partial_len ≡ h.partial_len - (i + 1) = omega (arith, hdr.partial_len_le) in
      let (b, passed, iff) = is_match_lem k h w le in
      let (c, passed', iff') = is_match_lem k n w (omega arith) in
      (
        record {
          depth_fits = omega arith;
          node_type_fits = omega arith;
          partial_len_le = omega arith;
          partial_size = size;
        },
        d,
        omega arith,
        (
          λ e. (
            λ j p q. iff.0 (cc) j p (omega arith),
            iff.0 (cc) i (omega arith) lt,
            passed'
                ∙ ap some (
                    iff'.1 (λ j p q.
                      ap (partial k) (omega (arith, d))
                      ∙ iff.0 (cc) (j + i + 1) (omega arith) (omega (arith, l))
                      ∙ sym (after j (omega arith) (omega (arith, l))))),
          ),
          λ f.
              passed
              ∙ ap some (
                  iff.1 (λ j p q. elim (dec_lt j i) [
                    | yes low ↦ f.0 j p low
                    | no ge ↦ elim (ℕ_discrete j i) [
                      | yes same ↦ rw same f.1
                      | no other ↦
                          ap (partial k) (omega (arith, d))
                          ∙ iff'.0 (cc) (j - i - 1) (omega arith) (omega (arith, l))
                          ∙ after (j - i - 1) (omega arith) (omega arith)
                          ∙ ap (λ x. get_or h.partial x 0) (omega arith)
                    ]
                  ])),
        ),
      )
