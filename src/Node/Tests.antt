-- ===== src/Node/Tests.antt =====
-- Entries and headers of include/Node.h at concrete values.
use hybrid_heterogeneous_mem.Prelude.{
  ℕ, ◌+◌, ◌≤◌, ◌<◌, ◌≡◌, ◌≢◌, ◌↔◌, refl, [], ◌∷◌, Bool, true, some, get_or, arith,
}
use hybrid_heterogeneous_mem.Address.{GlobalAddress}
use hybrid_heterogeneous_mem.Key.{Key, IsKey}
use hybrid_heterogeneous_mem.Key.Prefix.{partial}
use hybrid_heterogeneous_mem.Node.Types.{node_4}
use hybrid_heterogeneous_mem.Node.Entry.{InternalEntry, IsEntry}
use hybrid_heterogeneous_mem.Node.Entry.Laws.{IsHeld}
use hybrid_heterogeneous_mem.Node.Header.{
  Header, IsHeader, of_key, mismatch, is_match, split_header,
}
use hybrid_heterogeneous_mem.Node.Header.Match.{Follows, mismatch_lem, is_match_lem}
use hybrid_heterogeneous_mem.Node.Header.Build.{of_key_lem, split_header_lem}

abbrev key : Key
key = 7 ∷ 1 ∷ 2 ∷ 3 ∷ 4 ∷ 5 ∷ 6 ∷ 8 ∷ []

abbrev fork : Key
fork = 7 ∷ 1 ∷ 2 ∷ 9 ∷ 4 ∷ 5 ∷ 6 ∷ 8 ∷ []

abbrev hdr : Header
hdr = record { depth = 2; node_type = 1; partial_len = 4; partial = 1 ∷ 2 ∷ 3 ∷ 4 ∷ 0 ∷ 0 ∷ [] }

abbrev entry : InternalEntry
entry = record {
  partial = 9;
  kv_len = 16;
  is_leaf = true;
  packed_addr = record { mn_id = 1; unit = 5 };
}

abbrev place : GlobalAddress
place = record { node_id = 1; offset = 1280 }

key-IsKey : IsKey key
key-IsKey = record { size = refl; bytes = omega arith }

fork-IsKey : IsKey fork
fork-IsKey = record { size = refl; bytes = omega arith }

hdr-IsHeader : IsHeader hdr
hdr-IsHeader = record {
  depth_fits = omega arith;
  node_type_fits = omega arith;
  partial_len_le = omega arith;
  partial_size = refl;
}

entry-IsEntry : IsEntry entry
entry-IsEntry = record {
  partial_fits = omega arith;
  kv_len_fits = omega arith;
  addr_fits = record { mn_id_fits = omega arith; unit_fits = omega arith };
}

place-IsHeld : IsHeld place
place-IsHeld = record { node = omega arith; offset = omega arith; aligned = refl }

mismatch_lem_example :
    (r : ℕ) × (mismatch fork hdr ≡ some r)
    × (r ≤ 4)
    × Follows fork hdr 0 r
    × (r < 4 → partial fork (2 + r) ≢ get_or hdr.partial r 0)
mismatch_lem_example = mismatch_lem fork hdr fork-IsKey (omega arith)

is_match_lem_example : (b : Bool) × (is_match key hdr ≡ some b) × ((b ≡ true) ↔ Follows key hdr 0 4)
is_match_lem_example = is_match_lem key hdr key-IsKey (omega arith)

of_key_lem_example :
    (h : Header) × (of_key (0 ∷ 0 ∷ 0 ∷ 0 ∷ 0 ∷ 0 ∷ []) key 3 2 node_4 ≡ some h)
    × IsHeader h
    × (h.depth ≡ 2)
    × (h.partial_len ≡ 3)
    × (h.node_type ≡ node_4)
    × ((is_match fork h ≡ some true)
        ↔ ((j : ℕ) → 2 ≤ j → j < 2 + 3 → partial fork j ≡ partial key j))
of_key_lem_example =
    of_key_lem (0 ∷ 0 ∷ 0 ∷ 0 ∷ 0 ∷ 0 ∷ []) key fork 3 2 node_4 key-IsKey fork-IsKey refl
      (omega arith) (omega arith) (omega arith)

split_header_lem_example :
    let n = split_header hdr 2 in
    IsHeader n
    × (n.depth ≡ 2 + 2 + 1)
    × (n.depth + n.partial_len ≡ 2 + 4)
    × ((is_match key hdr ≡ some true) ↔ (
        (Follows key hdr 0 2)
        × (partial key (2 + 2) ≡ get_or hdr.partial 2 0)
        × (is_match key n ≡ some true)))
split_header_lem_example =
    split_header_lem key hdr 2 key-IsKey hdr-IsHeader (omega arith) (omega arith)
