-- ===== src/RdmaBuffer/Layout.antt =====
-- Where the buffers that are handed out lie.
use hybrid_heterogeneous_mem.Prelude.{
  ℕ, ◌+◌, ◌<◌, ◌≤◌, ◌≡◌, ◌≢◌, refl, ap, arith, ◌⊎◌, List, [], ◌∷◌, get_or, ◌∙◌,
}
use hybrid_heterogeneous_mem.RdmaBuffer.{
  RdmaBuffer, allocation_page_size, alloc_align_leaf_size, k_per_coro_rdma_buf, set_buffer, new,
  get_cas_buffer, get_page_buffer, get_leaf_buffer, get_header_buffer, get_entry_buffer,
  get_range_buffer, get_zero_byte,
}

-- A call of the class.
pub data Get : Type 0 where
  cas page leaf header entry : Get

-- The buffer that a call gives, and its size.
abbrev pub get : Get → RdmaBuffer → ℕ × RdmaBuffer
get cas = get_cas_buffer
get page = get_page_buffer
get leaf = get_leaf_buffer
get header = get_header_buffer
get entry = get_entry_buffer

abbrev pub size : Get → ℕ
size cas = 8
size page = allocation_page_size
size leaf = alloc_align_leaf_size
size header = 8
size entry = 8

-- Any calls in any order.
pub data Reach (buffer : ℕ) : RdmaBuffer → Type 0 where
  made : Reach buffer (new buffer)
  got : {b : RdmaBuffer} (g : Get) → Reach buffer b → Reach buffer ((get g b).1)

-- The pointers.
abbrev pointers : RdmaBuffer → List ℕ
pointers b =
    b.cas_buffer ∷ b.page_buffer ∷ b.leaf_buffer ∷ b.header_buffer ∷ b.entry_buffer ∷ b.zero_byte
    ∷ b.range_buffer ∷ []

pointers-get : (g : Get) (b : RdmaBuffer) → pointers ((get g b).1) ≡ pointers b
unfolding get_cas_buffer get_page_buffer get_leaf_buffer get_header_buffer get_entry_buffer
pointers-get cas b = refl
pointers-get page b = refl
pointers-get leaf b = refl
pointers-get header b = refl
pointers-get entry b = refl

-- The pointers stay where `set_buffer` puts them.
pointers_lem : {buffer : ℕ} {b : RdmaBuffer} → Reach buffer b → pointers b ≡ pointers (new buffer)
pointers_lem made = refl
pointers_lem (got {b} g r) = pointers-get g b ∙ pointers_lem r

-- Where the ring of each kind starts and ends.
abbrev start : Get → ℕ
start cas = 0
start page = 2048
start leaf = 530432
start header = 538624
start entry = 538880

abbrev stop : Get → ℕ
stop cas = 2048
stop page = 530432
stop leaf = 538624
stop header = 538880
stop entry = 539136

rings_apart : (g g' : Get) → g ≢ g' → (stop g ≤ start g') ⊎ (stop g' ≤ start g)
rings_apart g g' ne = ground arith

get-in_ring :
    {buffer : ℕ} {b : RdmaBuffer} (g : Get)
    → Reach buffer b
    → (buffer + start g ≤ (get g b).0) × ((get g b).0 + size g ≤ buffer + stop g)
unfolding new set_buffer get_cas_buffer get_page_buffer get_leaf_buffer get_header_buffer
    get_entry_buffer
get-in_ring {buffer} {b} cas r =
    let at = ap (λ l. get_or l 0 0) (pointers_lem r) in (omega arith, omega arith)
get-in_ring {buffer} {b} page r =
    let at = ap (λ l. get_or l 1 0) (pointers_lem r) in (omega arith, omega arith)
get-in_ring {buffer} {b} leaf r =
    let at = ap (λ l. get_or l 2 0) (pointers_lem r) in (omega arith, omega arith)
get-in_ring {buffer} {b} header r =
    let at = ap (λ l. get_or l 3 0) (pointers_lem r) in (omega arith, omega arith)
get-in_ring {buffer} {b} entry r =
    let at = ap (λ l. get_or l 4 0) (pointers_lem r) in (omega arith, omega arith)

stop-le : (g : Get) → stop g ≤ 539136
stop-le g = ground arith

-- After any calls on a new `RdmaBuffer`: the buffers that calls of two kinds give do not overlap, even
-- when further calls come between them, and each lies between the start of the memory and the zero
-- byte, which lies below the range buffer and inside the memory of a coroutine.
pub buffers_apart :
    (buffer : ℕ) {b b' : RdmaBuffer} (g g' : Get)
    → Reach buffer b
    → Reach buffer b'
    → g ≢ g'
    → (((get g b).0 + size g ≤ (get g' b').0) ⊎ ((get g' b').0 + size g' ≤ (get g b).0))
      × ((buffer ≤ (get g b).0)
          × (((get g b).0 + size g ≤ get_zero_byte b')
              × ((get_zero_byte b' + 1 ≡ get_range_buffer b')
                  × (get_range_buffer b' < buffer + k_per_coro_rdma_buf))))
unfolding new set_buffer
buffers_apart buffer {b} {b'} g g' r r' ne =
    let (low, high) = get-in_ring g r in
    let (low', high') = get-in_ring g' r' in
    let rings = rings_apart g g' ne in
    let zero = ap (λ l. get_or l 5 0) (pointers_lem r') in
    let range = ap (λ l. get_or l 6 0) (pointers_lem r') in
    (omega arith, (omega arith, (omega (arith, stop-le g), (omega arith, omega arith))))
