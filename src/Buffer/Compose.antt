-- ===== src/Buffer/Compose.antt =====
-- `composeSglistFromBufferSegment`: it ends, and its entries are the segment, cut at the boundary of
-- a page where they start inside one.
use native.Mathlib.Nat.{zero-add, le_refl, mod-add-mod, mod-eq_of_lt, mod-lt, add-mod_right}
use native.Mathlib.Decide.{dec_lt, ℕ_discrete}
use alice_hlt_librorc.Base.{
  ℕ, zero, suc, ◌+◌, ◌-◌, ◌%◌, ◌^◌, ◌<◌, ◌≤◌, ◌≡◌, ◌≢◌, refl, List, [], ◌∷◌, some, arith, All,
  bit_and, ◌⊎◌, ap, ◌∙◌,
}
use alice_hlt_librorc.Buffer.{
  ScatterGatherEntry, Buffer, SglistFile, offset_to_phys_addr, segment_length, next_offset, done,
  compose_loop, compose_sglist_from_buffer_segment,
}
use alice_hlt_librorc.Buffer.Segments.{total, locate, address, Fits}
use alice_hlt_librorc.Buffer.Locate.{IsValid, locate_bounds, locate-total, offset_to_phys_addr_lem}

-- The page size is a power of two that fits 32 bits: its mask gives the remainder.
pub record IsPageSize (page_size : ℕ) : Type 0 where
  pub positive : 0 < page_size
  pub small : page_size < 2 ^ 32
  pub masks : (a : ℕ) → bit_and a (page_size - 1) ≡ a % page_size

-- DMA memory is mapped in whole pages.
abbrev pub PageAligned : ℕ → ScatterGatherEntry → Type 0
PageAligned page_size e = (e.pointer % page_size ≡ 0) × (e.length % page_size ≡ 0)

-- An entry that is not empty, has a 32-bit length, and crosses the boundary of a page only if it
-- starts at one.
abbrev pub StartsAtPage : ℕ → ScatterGatherEntry → Type 0
StartsAtPage page_size e =
    (0 < e.length)
    × (e.length < 2 ^ 32)
    × ((e.pointer % page_size ≡ 0) ⊎ (e.pointer % page_size + e.length ≤ page_size))

mod-add-zero : (n a b : ℕ) → a % n ≡ 0 → b % n ≡ 0 → (a + b) % n ≡ 0
mod-add-zero n a b p q =
    omega (arith, mod-add-mod a n b, ap (λ t. (t + b) % n) p, ap (λ t. t % n) (zero-add b))

room_to_boundary : (n p r : ℕ) → 0 < n → (p + r) % n ≡ 0 → 0 < r → p % n ≢ 0 → n ≤ p % n + r
room_to_boundary n p r pos e hr ne = elim (dec_lt (p % n + r) n) [
  | yes lt ↦ absurd (omega (arith, mod-add-mod p n r, mod-eq_of_lt lt))
  | no ge ↦ omega arith
]

locate_aligned :
    (n : ℕ) (es : List ScatterGatherEntry) (o p r : ℕ)
    → All (PageAligned n) es
    → locate es o ≡ some (p, r)
    → (p + r) % n ≡ 0
unfolding locate
locate_aligned n [] o p r a h = ground arith
locate_aligned n (e ∷ es) o p r a h =
    ground (arith, mod-add-zero n e.pointer e.length, locate_aligned n es (o - e.length) p r)

-- The address runs on inside an entry.
address_shift :
    (es : List ScatterGatherEntry) (o p r i : ℕ)
    → locate es o ≡ some (p, r)
    → i < r
    → address es (o + i) ≡ some (p + i)
unfolding locate address
address_shift [] o p r i h lt = ground arith
address_shift (e ∷ es) o p r i h lt = elim (dec_lt o e.length) [
  | yes here ↦ ground arith
  | no past ↦
      let shift : o + i - e.length ≡ o - e.length + i = omega arith in
      ground (arith, shift, address_shift es (o - e.length) p r i)
]

next_offset_lem :
    (b : Buffer) (cur len i : ℕ)
    → b.size < 2 ^ 64
    → cur + len ≤ b.size
    → 0 < len
    → len ≤ i
    → ((next_offset b cur len + (i - len)) % b.size ≡ (cur + i) % b.size)
      × (next_offset b cur len < b.size)
unfolding next_offset
next_offset_lem b cur len i small le pos past = elim (ℕ_discrete (cur + len) b.size) [
  | yes end ↦ ground (arith, add-mod_right (i - len) b.size, ap (λ t. t % b.size) (wrapped end))
  | no inside ↦ ground (arith, ap (λ t. t % b.size) further)
]
  where
    further : cur + len + (i - len) ≡ cur + i
    further = omega arith

    wrapped : cur + len ≡ b.size → i - len + b.size ≡ cur + i
    wrapped e = omega arith

-- The entries that stand for the `rem` bytes of the buffer from `cur` on, around its end.
pub record Covers (page_size : ℕ) (b : Buffer) (cur rem : ℕ) (out : List ScatterGatherEntry)
    : Type 0 where
  pub complete : total out ≡ rem
  pub starts : All (StartsAtPage page_size) out
  pub same : (i : ℕ) → i < rem → address out i ≡ address b.sglist_vector ((cur + i) % b.size)

module _ (page_size : ℕ) (ps : IsPageSize page_size) where
  segment_length_lem :
      (p r rem_size : ℕ)
      → (p + r) % page_size ≡ 0
      → 0 < r
      → p + r < 2 ^ 64
      → 0 < rem_size
      → (segment_length page_size p r rem_size ≤ r)
        × (segment_length page_size p r rem_size ≤ rem_size)
        × StartsAtPage page_size
            (record { pointer = p; length = segment_length page_size p r rem_size })
  unfolding segment_length
  segment_length_lem p r rem_size e hr hp hrem = ground (
    arith,
    ps.positive,
    ps.small,
    ps.masks p,
    mod-lt p ps.positive,
    room_to_boundary page_size p r ps.positive e hr,
  )

  Covers-cons :
      {b : Buffer} (cur rem p r len : ℕ) {rest : List ScatterGatherEntry}
      → b.size < 2 ^ 64
      → total b.sglist_vector ≡ b.size
      → All Fits b.sglist_vector
      → locate b.sglist_vector cur ≡ some (p, r)
      → len ≤ r
      → len ≤ rem
      → StartsAtPage page_size (record { pointer = p; length = len })
      → Covers page_size b (next_offset b cur len) (rem - len) rest
      → Covers page_size b cur rem (record { pointer = p; length = len } ∷ rest)
  unfolding address
  Covers-cons {b} cur rem p r len {rest} small t f found hr hrem starts c = record {
    complete = omega (arith, c.complete);
    starts = (starts, c.starts);
    same = λ i lt. elim (dec_lt i len) [
      | yes here ↦ ground (
        arith,
        locate_bounds b.sglist_vector cur p r f found,
        mod-eq_of_lt {n = cur + i} {m = b.size},
        address_shift b.sglist_vector cur p r i found,
      )
      | no past ↦ ground (
        arith,
        locate_bounds b.sglist_vector cur p r f found,
        next_offset_lem b cur len i small,
        c.same (i - len),
      )
    ];
  }

  compose_loop-suc :
      (file : SglistFile) {b : Buffer} (fuel cur m p r : ℕ) {rest : List ScatterGatherEntry}
      → offset_to_phys_addr file b cur ≡ (b, some (p, r))
      → let len = segment_length page_size p r (suc m) in
        compose_loop fuel file b page_size (next_offset b cur len) (suc m - len) ≡ (b, done rest)
        → compose_loop (suc fuel) file b page_size cur (suc m)
          ≡ (b, done (record { pointer = p; length = len } ∷ rest))
  unfolding compose_loop
  compose_loop-suc file fuel cur m p r e ih = ground (arith, e, ih)

  compose_loop_lem :
      (file : SglistFile) {b : Buffer} (fuel cur rem : ℕ)
      → IsValid b
      → total b.sglist_vector ≡ b.size
      → All (PageAligned page_size) b.sglist_vector
      → cur < b.size
      → rem < 2 ^ 64
      → rem ≤ fuel
      → (out : List ScatterGatherEntry) × (compose_loop fuel file b page_size cur rem
          ≡ (b, done out))
        × Covers page_size b cur rem out
  unfolding compose_loop
  compose_loop_lem file fuel cur zero v t a c l h =
      ([], refl, record { complete = refl; starts = tt; same = λ i lt. absurd (omega arith) })
  compose_loop_lem file zero cur (suc m) v t a c l h = absurd (omega arith)
  compose_loop_lem file {b} (suc fuel) cur (suc m) v t a c l h =
      let (p, r, found) = locate-total b.sglist_vector cur (omega (arith, t)) in
      let bounds = locate_bounds b.sglist_vector cur p r v.fits found in
      let whole = locate_aligned page_size b.sglist_vector cur p r a found in
      let len = segment_length page_size p r (suc m) in
      let cut = segment_length_lem p r (suc m) whole bounds.1 bounds.2 (omega arith) in
      let after : next_offset b cur len < b.size =
        (next_offset_lem b cur len len (omega (arith, v.small)) (omega (arith, bounds, cut, t))
          cut.2.0 (omega arith)).1 in
      let ih =
        compose_loop_lem file fuel (next_offset b cur len) (suc m - len) v t a after (omega arith)
          (omega (arith, cut)) in
      (
        record { pointer = p; length = len } ∷ ih.0,
        compose_loop-suc file fuel cur m p r
            (offset_to_phys_addr_lem file cur v (omega (arith, v.small, t))
              ∙ ap (λ f. (b, f)) found)
            ih.1,
        Covers-cons cur (suc m) p r len (omega (arith, v.small, t)) t v.fits found cut.0 cut.1 cut.2
            ih.2,
      )

  -- For a 32-bit page size that is a power of two, a valid buffer of whole pages whose list makes up
  -- its size, a start inside the buffer and any 64-bit size, `composeSglistFromBufferSegment` ends
  -- and returns true. Its entries have `size` bytes in all and stand for the bytes of the buffer from
  -- `offset` on, around its end. Each is not empty, has a 32-bit length, and crosses the boundary of
  -- a page only if it starts at one.
  pub compose_sglist-Covers :
      (file : SglistFile) {b : Buffer} (offset size : ℕ)
      → IsValid b
      → total b.sglist_vector ≡ b.size
      → All (PageAligned page_size) b.sglist_vector
      → offset < b.size
      → size < 2 ^ 64
      → (out : List ScatterGatherEntry) × (compose_sglist_from_buffer_segment file b page_size
            offset size
          ≡ (b, done out))
        × Covers page_size b offset size out
  unfolding compose_sglist_from_buffer_segment
  compose_sglist-Covers file offset size v t a o s =
      compose_loop_lem file size offset size v t a o s (le_refl size)
