-- ===== src/NormalCache/Evict.antt =====
-- `_evict` of src/NormalCache.cpp ends: the list of evictions has every entry that the map holds.
use hybrid_heterogeneous_mem.Prelude.{
  ℕ, zero, suc, ◌*◌, ◌≤◌, ◌≡◌, refl, sym, ap, ◌∙◌, subst, true, false, Option, none, some, List, [],
  ◌∷◌, ◌==◌, ==_iff, length, ltb, arith, Bool-cases, Option-cases, inl, inr, ge→ltb,
}
use mathlib.Core.List.{Memᴰ}
use mathlib.Core.List.Memᴰ.{cases_cons, not-nil, tail}
use hybrid_heterogeneous_mem.LockTable.Slot.{eq_key, eq_key_refl}
use hybrid_heterogeneous_mem.RadixCache.Entry.{CacheEntry}
use hybrid_heterogeneous_mem.NormalCache.{
  held, NormalCache, invalidate_found, invalidate, evict_one, evict,
}
use hybrid_heterogeneous_mem.NormalCache.Accounts.{
  Drifts, invalidate-Drifts, evict_one-Drifts, evict_one-capacity,
}
use hybrid_heterogeneous_mem.NormalCache.Slots.{held-set_slot, IsMap, set_slot-IsMap, weight-none}

-- Every entry of the map is in the list of evictions with its slot.
abbrev pub Listed : NormalCache → Type 0
Listed c = (b : List ℕ) (e : CacheEntry) → held b c.cache_map ≡ some e → Memᴰ (b, e) c.eviction_list

pub invalidate-IsMap :
    (slot : List ℕ) (e : CacheEntry) (c : NormalCache)
    → IsMap c.cache_map
    → IsMap (invalidate slot e c).cache_map
unfolding invalidate invalidate_found
invalidate-IsMap slot e c h = elim (Option-cases (held slot c.cache_map)) [
  | inl missing ↦ rw missing h
  | inr (found, there) ↦ elim (Bool-cases (found.id == e.id)) [
    | inl same ↦ rw (there, same) (set_slot-IsMap slot none c.cache_map h)
    | inr other ↦ rw (there, other) h
  ]
]

evict_one-IsMap :
    (l : List (List ℕ × CacheEntry)) (c : NormalCache)
    → IsMap c.cache_map
    → IsMap (evict_one l c).cache_map
unfolding evict_one
evict_one-IsMap [] c h = h
evict_one-IsMap ((slot, e) ∷ l) c h = invalidate-IsMap slot e (record c { eviction_list = l }) h

invalidate_found-Listed :
    (slot : List ℕ) (e : CacheEntry) (c : NormalCache) (o : Option CacheEntry)
    → held slot c.cache_map ≡ o
    → ((b : List ℕ) (x : CacheEntry)
        → held b c.cache_map ≡ some x
        → Memᴰ (b, x) ((slot, e) ∷ c.eviction_list))
    → Listed (invalidate_found slot e c o)
unfolding invalidate_found
invalidate_found-Listed slot e c none null h = λ b x there. elim (cases_cons (h b x there)) [
  | inl same ↦ absurd (
      let at_slot : held slot c.cache_map ≡ some x =
        subst (λ y. held y c.cache_map ≡ some x) (ap (λ p. p.0) same) there in
      cc)
  | inr later ↦ later
]
invalidate_found-Listed slot e c (some found) has h = elim (Bool-cases (found.id == e.id)) [
  | inl hit ↦ rw hit (λ b x there.
      let back = sym (held-set_slot slot none b c.cache_map) ∙ there in
      elim (Bool-cases (eq_key slot b)) [
        | inl here ↦ let gone = rw here at back in absurd cc
        | inr away ↦ elim (cases_cons (h b x (rw away at back))) [
          | inl same ↦
              let here : eq_key slot b ≡ true =
                ap (λ p. eq_key slot (p.0)) same ∙ eq_key_refl slot in
              absurd cc
          | inr later ↦ later
        ]
      ])
  | inr other ↦ rw other (λ b x there. elim (cases_cons (h b x there)) [
    | inl same ↦
        let at_slot : held slot c.cache_map ≡ some x =
          subst (λ y. held y c.cache_map ≡ some x) (ap (λ p. p.0) same) there in
        let one : found.id ≡ e.id = cc (has, at_slot, ap (λ p. p.1) same) in
        let met : (found.id == e.id) ≡ true = (==_iff found.id e.id).1 one in absurd cc
    | inr later ↦ later
  ])
]

invalidate-Listed :
    (slot : List ℕ) (e : CacheEntry) (c : NormalCache)
    → ((b : List ℕ) (x : CacheEntry)
        → held b c.cache_map ≡ some x
        → Memᴰ (b, x) ((slot, e) ∷ c.eviction_list))
    → Listed (invalidate slot e c)
unfolding invalidate
invalidate-Listed slot e c h = invalidate_found-Listed slot e c (held slot c.cache_map) refl h

invalidate-eviction_list :
    (slot : List ℕ) (e : CacheEntry) (c : NormalCache)
    → (invalidate slot e c).eviction_list ≡ c.eviction_list
unfolding invalidate invalidate_found
invalidate-eviction_list slot e c = elim (Option-cases (held slot c.cache_map)) [
  | inl missing ↦ rw missing refl
  | inr (found, there) ↦
      rw there (elim (Bool-cases (found.id == e.id)) [
        | inl same ↦ rw same refl
        | inr other ↦ rw other refl
      ])
]

-- What holds between two calls, with `n` entries replaced.
pub record IsSound (n : ℕ) (c : NormalCache) : Type 0 where
  pub accounts : Drifts n c
  pub slots : IsMap c.cache_map
  pub listed : Listed c

pub invalidate-IsSound :
    (n : ℕ) (slot : List ℕ) (e : CacheEntry) (c : NormalCache)
    → IsSound n c
    → IsSound n (invalidate slot e c)
invalidate-IsSound n slot e c h = record {
  accounts = invalidate-Drifts n slot e c h.accounts;
  slots = invalidate-IsMap slot e c h.slots;
  listed = invalidate-Listed slot e c (λ b x there. tail (h.listed b x there));
}

evict_one-IsSound :
    (n : ℕ) (l : List (List ℕ × CacheEntry)) (c : NormalCache)
    → c.eviction_list ≡ l
    → IsSound n c
    → IsSound n (evict_one l c)
unfolding evict_one
evict_one-IsSound n [] c e h = h
evict_one-IsSound n ((slot, x) ∷ l) c e h = record {
  accounts = evict_one-Drifts n ((slot, x) ∷ l) c h.accounts;
  slots = evict_one-IsMap ((slot, x) ∷ l) c h.slots;
  listed =
      invalidate-Listed slot x (record c { eviction_list = l })
        (λ b y there. subst (Memᴰ (b, y)) e (h.listed b y there));
}

-- With the list empty, the map has no entry.
nothing_left : (n : ℕ) (c : NormalCache) → c.eviction_list ≡ [] → IsSound n c → c.used ≡ 8 * n
nothing_left n c e h =
    let empty : (b : List ℕ) → held b c.cache_map ≡ none = λ b.
      elim (Option-cases (held b c.cache_map)) [
        | inl missing ↦ missing
        | inr (x, there) ↦ absurd (not-nil (subst (Memᴰ (b, x)) e (h.listed b x there)))
      ] in
    omega (arith, h.accounts, weight-none c.cache_map h.slots empty)

evict-stop :
    (rounds : ℕ) (c next : NormalCache)
    → evict_one c.eviction_list c ≡ next
    → ltb next.capacity next.used ≡ false
    → evict (suc rounds) c ≡ some next
unfolding evict
evict-stop rounds c next e room = rw (e, room) refl

evict-more :
    (rounds : ℕ) (c next : NormalCache)
    → evict_one c.eviction_list c ≡ next
    → ltb next.capacity next.used ≡ true
    → evict (suc rounds) c ≡ evict rounds next
unfolding evict
evict-more rounds c next e full = rw (e, full) refl

-- With room for the pointers that are lost, one round for each entry of the list, and one more, are enough.
pub evict-ends :
    (n : ℕ) (l : List (List ℕ × CacheEntry)) (c : NormalCache)
    → c.eviction_list ≡ l
    → 8 * n ≤ c.capacity
    → IsSound n c
    → (c' : NormalCache) × ((evict (suc (length l)) c ≡ some c')
        × IsSound n c'
        × (c'.used ≤ c'.capacity)
        × (c'.capacity ≡ c.capacity))
unfolding evict_one
evict-ends n [] c e room h =
    let used = nothing_left n c e h in
    let fits : c.used ≤ c.capacity = omega (arith, used, room) in
    (
      c,
      (evict-stop 0 c c (ap (λ l. evict_one l c) e) (ge→ltb c.capacity c.used fits), h, fits, refl),
    )
evict-ends n ((slot, x) ∷ l) c e room h =
    let next = evict_one ((slot, x) ∷ l) c in
    let sound : IsSound n next = evict_one-IsSound n ((slot, x) ∷ l) c e h in
    let left : next.eviction_list ≡ l =
      invalidate-eviction_list slot x (record c { eviction_list = l }) in
    let same : next.capacity ≡ c.capacity = evict_one-capacity ((slot, x) ∷ l) c in
    let stepped : evict_one c.eviction_list c ≡ next = ap (λ l. evict_one l c) e in
    elim (Bool-cases (ltb next.capacity next.used)) [
      | inl full ↦
          let (c', (ends, sound', fits, same')) =
            evict-ends n l next left (omega (arith, room, same)) sound in
          (c', (evict-more (suc (length l)) c next stepped full ∙ ends, sound', fits, same' ∙ same))
      | inr here ↦ (
        next,
        (evict-stop (suc (length l)) c next stepped here, sound, ground (arith, here), same),
      )
    ]

-- What a call of `_evict` that ends leaves.
pub evict-IsSound :
    (n rounds : ℕ) (c : NormalCache) {c' : NormalCache}
    → IsSound n c
    → evict rounds c ≡ some c'
    → IsSound n c' × (c'.used ≤ c'.capacity) × (c'.capacity ≡ c.capacity)
unfolding evict
evict-IsSound n zero c h e = absurd cc
evict-IsSound n (suc rounds) c {c'} h e =
    let next = evict_one c.eviction_list c in
    let sound = evict_one-IsSound n c.eviction_list c refl h in
    let same = evict_one-capacity c.eviction_list c in
    elim (Bool-cases (ltb next.capacity next.used)) [
      | inl full ↦
          let (sound', fits, same') = evict-IsSound n rounds next sound (rw full at e) in
          (sound', fits, same' ∙ same)
      | inr room ↦
          let end : next ≡ c' = cc (rw room at e) in
          let fits : next.used ≤ next.capacity = ground (arith, room) in
          (
            subst (IsSound n) end sound,
            subst (λ x. x.used ≤ x.capacity) end fits,
            ap (λ x. x.capacity) (sym end) ∙ same,
          )
    ]
