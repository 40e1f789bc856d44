-- ===== src/Tree/Range/Page.antt =====
-- What `range_query_on_page` keeps of a page.
use hybrid_heterogeneous_mem.Prelude.{
  ℕ, zero, suc, ◌+◌, ◌≤◌, ◌<◌, ◌≡◌, ◌≢◌, refl, sym, ◌∙◌, subst, Bool, false, some, List, get_or,
  arith, Bool-cases, inl, inr, ℕ_discrete, ge→ltb,
}
use mathlib.Core.List.{Memᴰ}
use mathlib.Core.List.Memᴰ.{head, tail}
use hybrid_heterogeneous_mem.Key.{Key, IsKey}
use hybrid_heterogeneous_mem.Key.Prefix.{partial, get_partial-partial}
use hybrid_heterogeneous_mem.Node.Types.{node_type_to_num}
use hybrid_heterogeneous_mem.Node.Header.Match.{Follows}
use hybrid_heterogeneous_mem.Node.Entry.{InternalEntry, eq_entry}
use hybrid_heterogeneous_mem.Node.Entry
use hybrid_heterogeneous_mem.Node.Page.{InternalPage}
use hybrid_heterogeneous_mem.Tree.Range.{
  State, inside, border, outside, ScanContext, above, below, entry_state, keep, context, scan_slots,
  scan_page, unless_outside, range_query_on_page,
}
use hybrid_heterogeneous_mem.Tree.Range.Side.{
  Lies, header_state_lem, entry_state_lem, within-outside,
}

keep-here :
    (l r : State) (s : ScanContext) (rest : List ScanContext)
    → l ≢ outside
    → r ≢ outside
    → Memᴰ s (keep l r s rest)
unfolding keep
keep-here outside r s rest hl hr = absurd (hl refl)
keep-here inside outside s rest hl hr = absurd (hr refl)
keep-here border outside s rest hl hr = absurd (hr refl)
keep-here inside inside s rest hl hr = head refl
keep-here inside border s rest hl hr = head refl
keep-here border inside s rest hl hr = head refl
keep-here border border s rest hl hr = head refl

keep-there :
    (l r : State) {x : ScanContext} (s : ScanContext) (rest : List ScanContext)
    → Memᴰ x rest
    → Memᴰ x (keep l r s rest)
unfolding keep
keep-there outside r s rest h = h
keep-there inside outside s rest h = h
keep-there border outside s rest h = h
keep-there inside inside s rest h = tail h
keep-there inside border s rest h = tail h
keep-there border inside s rest h = tail h
keep-there border border s rest h = tail h

module _ (page : InternalPage) (p : InternalEntry) (from to : Key) where
  unless_outside-kept :
      (l r : State)
      → l ≢ outside
      → r ≢ outside
      → unless_outside page p from to l r ≡ scan_page page p from to l r
  unfolding unless_outside
  unless_outside-kept outside r hl hr = absurd (hl refl)
  unless_outside-kept inside outside hl hr = absurd (hr refl)
  unless_outside-kept border outside hl hr = absurd (hr refl)
  unless_outside-kept inside inside hl hr = refl
  unless_outside-kept inside border hl hr = refl
  unless_outside-kept border inside hl hr = refl
  unless_outside-kept border border hl hr = refl

  module _ (l r : State) (fb tb j : ℕ)
      (there_is : eq_entry (get_or page.records j Entry.null) Entry.null ≡ false)
      (l_kept : entry_state above fb (get_or page.records j Entry.null).partial l ≢ outside)
      (r_kept : entry_state below tb (get_or page.records j Entry.null).partial r ≢ outside) where
    abbrev kept_context : ScanContext
    kept_context =
        context page p from to (entry_state above fb (get_or page.records j Entry.null).partial l)
          (entry_state below tb (get_or page.records j Entry.null).partial r) j

    scan_slots-mem :
        (i rounds : ℕ)
        → i ≤ j
        → j < i + rounds
        → Memᴰ kept_context (scan_slots page p from to l r fb tb i rounds)
    unfolding scan_slots
    scan_slots-mem i zero le lt = absurd (omega arith)
    scan_slots-mem i (suc rounds) le lt = elim (ℕ_discrete i j) [
      | yes same ↦
          let rest = scan_slots page p from to l r fb tb (j + 1) rounds in
          subst (λ x. Memᴰ kept_context (scan_slots page p from to l r fb tb x (suc rounds)))
            (sym same)
            (rw there_is (
              keep-here (entry_state above fb (get_or page.records j Entry.null).partial l)
                (entry_state below tb (get_or page.records j Entry.null).partial r) kept_context
                rest l_kept r_kept))
      | no other ↦
          let found = scan_slots-mem (i + 1) rounds (omega arith) (omega arith) in
          elim (Bool-cases (eq_entry (get_or page.records i Entry.null) Entry.null)) [
            | inl empty ↦ rw empty found
            | inr full ↦
                let l' = entry_state above fb (get_or page.records i Entry.null).partial l in
                let r' = entry_state below tb (get_or page.records i Entry.null).partial r in
                rw full (
                  keep-there l' r' (context page p from to l' r' i)
                    (scan_slots page p from to l r fb tb (i + 1) rounds) found)
          ]
    ]

above_self : (n : ℕ) → above n n ≡ false
above_self n = ge→ltb n n (omega arith)

below_self : (n : ℕ) → below n n ≡ false
below_self n = ge→ltb n n (omega arith)

-- A state that is right for a key within the bound does not leave it out.
within_end :
    (within : ℕ → ℕ → Bool) (f k : Key)
    → ((n : ℕ) → within n n ≡ false)
    → (d : ℕ) (s_end : State) → d ≤ 9
    → Lies within f k 9 s_end
    → s_end ≢ outside
    → (s : State) → Lies within f k d s
    → s ≢ outside
within_end within f k self d s_end le h_end kept s h = λ e.
    within-outside within f k self d 9 s_end le (subst (λ x. Lies within f k d x) e h) h_end kept

-- A page whose path the key follows, the key within both bounds, and the states right for the key at the
-- depth of the page. The entry of the key's next byte, at a slot of the page's type and not null, is
-- among those kept, with states that are right for the key one byte behind the path.
pub range_query_on_page_lem :
    (page : InternalPage) (p : InternalEntry) (from to k : Key) (l r l_end r_end : State) (j : ℕ)
    → IsKey from
    → IsKey to
    → page.hdr.depth + page.hdr.partial_len ≤ 8
    → Follows k page.hdr 0 page.hdr.partial_len
    → Lies above from k page.hdr.depth l
    → Lies below to k page.hdr.depth r
    → Lies above from k 9 l_end
    → l_end ≢ outside
    → Lies below to k 9 r_end
    → r_end ≢ outside
    → j < node_type_to_num page.hdr.node_type
    → eq_entry (get_or page.records j Entry.null) Entry.null ≡ false
    → (get_or page.records j Entry.null).partial ≡ partial k (page.hdr.depth + page.hdr.partial_len)
    → (contexts : List ScanContext) × (l' : State) × (r' : State) × ((range_query_on_page page p
            from to l r
          ≡ some contexts)
        × (Memᴰ (context page p from to l' r' j) contexts
            × (Lies above from k (page.hdr.depth + page.hdr.partial_len + 1) l'
                × Lies below to k (page.hdr.depth + page.hdr.partial_len + 1) r')))
unfolding range_query_on_page scan_page
range_query_on_page_lem page p from to k l r l_end r_end j kf kt fit path hl hr left l_in right r_in
      lt full byte =
    let end = page.hdr.depth + page.hdr.partial_len in
    let n = node_type_to_num page.hdr.node_type in
    let (l1, (l_run, l_lies)) = header_state_lem above from k page.hdr l kf fit path hl in
    let (r1, (r_run, r_lies)) = header_state_lem below to k page.hdr r kt fit path hr in
    let fb = partial from end in
    let tb = partial to end in
    let x = (get_or page.records j Entry.null).partial in
    let l2 : Lies above from k (end + 1) (entry_state above fb x l1) =
      subst (λ b. Lies above from k (end + 1) (entry_state above fb b l1)) (sym byte)
        (entry_state_lem above from k end l1 l_lies) in
    let r2 : Lies below to k (end + 1) (entry_state below tb x r1) =
      subst (λ b. Lies below to k (end + 1) (entry_state below tb b r1)) (sym byte)
        (entry_state_lem below to k end r1 r_lies) in
    let l1_kept = within_end above from k above_self end l_end (omega arith) left l_in l1 l_lies in
    let r1_kept = within_end below to k below_self end r_end (omega arith) right r_in r1 r_lies in
    let l2_kept =
      within_end above from k above_self (end + 1) l_end (omega arith) left l_in
        (entry_state above fb x l1) l2 in
    let r2_kept =
      within_end below to k below_self (end + 1) r_end (omega arith) right r_in
        (entry_state below tb x r1) r2 in
    let read_from = get_partial-partial from end (omega (arith, kf.size)) in
    let read_to = get_partial-partial to end (omega (arith, kt.size)) in
    (
      scan_slots page p from to l1 r1 fb tb 0 n,
      entry_state above fb x l1,
      entry_state below tb x r1,
      (
        rw (range_query_on_page, l_run, r_run)
            (unless_outside-kept page p from to l1 r1 l1_kept r1_kept
              ∙ rw (scan_page, read_from, read_to) refl),
        (
          scan_slots-mem page p from to l1 r1 fb tb j full l2_kept r2_kept 0 n (omega arith)
              (omega arith),
          (l2, r2),
        ),
      ),
    )
