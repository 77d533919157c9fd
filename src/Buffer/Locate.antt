-- ===== src/Buffer/Locate.antt =====
-- `offsetToPhysAddr` and `physAddrToOffset` against the meaning of the list, and each other.
use alice_hlt_librorc.Base.{
  ℕ, ◌+◌, ◌-◌, ◌^◌, ◌<◌, ◌≤◌, ◌≡◌, refl, List, [], ◌∷◌, some, arith, All, true, length, map, ◌⊎◌,
}
use native.Mathlib.Decide.{dec_lt}
use alice_hlt_librorc.Buffer.{
  ScatterGatherEntry, Scatter, Buffer, SglistFile, entry_of, read_sglist, initialize_sglist,
  ensure_sglist, offset_loop, phys_loop, offset_to_phys_addr, phys_addr_to_offset,
}
use alice_hlt_librorc.Buffer.Segments.{total, locate, address, Fits, ScatterFits, total-combine_all}

pub offset_loop_lem :
    (es : List ScatterGatherEntry) (offset reference : ℕ)
    → All Fits es
    → reference + total es < 2 ^ 64
    → reference ≤ offset
    → offset < 2 ^ 64
    → offset_loop offset reference es ≡ locate es (offset - reference)
unfolding offset_loop locate
offset_loop_lem [] offset reference f t le lt = refl
offset_loop_lem (e ∷ es) offset reference f t le lt =
    ground (arith, offset_loop_lem es offset (reference + e.length))

address-locate :
    (es : List ScatterGatherEntry) (o p r : ℕ) → locate es o ≡ some (p, r) → address es o ≡ some p
unfolding locate address
address-locate [] o p r h = ground arith
address-locate (e ∷ es) o p r h = ground (arith, address-locate es (o - e.length) p r)

locate-address :
    (es : List ScatterGatherEntry) (o p : ℕ)
    → address es o ≡ some p
    → (r : ℕ) × (locate es o ≡ some (p, r))
unfolding locate address
locate-address [] o p h = absurd (ground arith)
locate-address (e ∷ es) o p h = elim (dec_lt o e.length) [
  | yes lt ↦ (e.length - o, ground arith)
  | no ge ↦
      let ih = locate-address es (o - e.length) p (ground arith) in (ih.0, ground (arith, ih.1))
]

-- An address found has its offset below the total, and at least one byte left.
pub locate_bounds :
    (es : List ScatterGatherEntry) (o p r : ℕ)
    → All Fits es
    → locate es o ≡ some (p, r)
    → (o + r ≤ total es) × (0 < r) × (p + r < 2 ^ 64)
unfolding locate
locate_bounds [] o p r f h = ground arith
locate_bounds (e ∷ es) o p r f h = ground (arith, locate_bounds es (o - e.length) p r)

-- Every offset below the total is found.
pub locate-total :
    (es : List ScatterGatherEntry) (o : ℕ)
    → o < total es
    → (p : ℕ) × (r : ℕ) × (locate es o ≡ some (p, r))
unfolding locate
locate-total [] o h = absurd (omega arith)
locate-total (e ∷ es) o h = elim (dec_lt o e.length) [
  | yes p ↦ (e.pointer + o, e.length - o, ground arith)
  | no p ↦
      let ih = locate-total es (o - e.length) (omega arith) in (ih.0, ih.1, ground (arith, ih.2))
]

-- The invariant of a buffer that has read its list.
pub record IsValid (b : Buffer) : Type 0 where
  pub initialized : b.sglist_initialized ≡ true
  pub counted : b.number_of_scatter_gather_entries ≡ length b.sglist_vector
  pub fits : All Fits b.sglist_vector
  pub small : total b.sglist_vector < 2 ^ 64

-- If `initializeSglist` reads a list whose records end within the 64-bit address space and have less
-- than 2 ^ 64 bytes in all, the buffer is valid after it, its entries have as many bytes as the
-- records, and its size is as before.
pub initialize_sglist-IsValid :
    (file : SglistFile) (b : Buffer) {b' : Buffer} {scatter : List Scatter}
    → read_sglist file ≡ some scatter
    → All ScatterFits scatter
    → total (map entry_of scatter) < 2 ^ 64
    → initialize_sglist file b ≡ (b', true)
    → IsValid b' × (total b'.sglist_vector ≡ total (map entry_of scatter)) × (b'.size ≡ b.size)
unfolding initialize_sglist
initialize_sglist-IsValid file b {b'} {scatter} e f t h =
    ground (arith, total-combine_all scatter f)

-- On a valid buffer, for a 64-bit offset, `offsetToPhysAddr` returns the address of the offset in the
-- list and the bytes that are left in its entry, or fails if the list does not reach it, and leaves
-- the buffer unchanged.
pub offset_to_phys_addr_lem :
    (file : SglistFile) {b : Buffer} (offset : ℕ)
    → IsValid b
    → offset < 2 ^ 64
    → offset_to_phys_addr file b offset ≡ (b, locate b.sglist_vector offset)
unfolding offset_to_phys_addr ensure_sglist
offset_to_phys_addr_lem file {b} offset v h =
    rw v.initialized (ground (arith, offset_loop_lem b.sglist_vector offset 0 v.fits))

phys_loop_sound :
    (es : List ScatterGatherEntry) (phys reference o : ℕ)
    → All Fits es
    → reference + total es < 2 ^ 64
    → phys < 2 ^ 64
    → phys_loop phys reference es ≡ some o
    → (reference ≤ o) × (o < 2 ^ 64) × (address es (o - reference) ≡ some phys)
unfolding phys_loop address
phys_loop_sound [] phys reference o f t l h = ground arith
phys_loop_sound (e ∷ es) phys reference o f t l h =
    ground (arith, phys_loop_sound es phys (reference + e.length) o)

-- No byte of the one is a byte of the other.
abbrev pub Apart : ScatterGatherEntry → ScatterGatherEntry → Type 0
Apart a b = (a.pointer + a.length ≤ b.pointer) ⊎ (b.pointer + b.length ≤ a.pointer)

abbrev pub Disjoint : List ScatterGatherEntry → Type 0
Disjoint [] = Unit
Disjoint (e ∷ es) = All (Apart e) es × Disjoint es

locate-Apart :
    (a : ScatterGatherEntry) (es : List ScatterGatherEntry) (o p r : ℕ)
    → All (Apart a) es
    → locate es o ≡ some (p, r)
    → (p < a.pointer) ⊎ (a.pointer + a.length ≤ p)
unfolding locate
locate-Apart a [] o p r d h = ground arith
locate-Apart a (e ∷ es) o p r d h = ground (arith, locate-Apart a es (o - e.length) p r)

phys_loop_complete :
    (es : List ScatterGatherEntry) (reference o p r : ℕ)
    → All Fits es
    → Disjoint es
    → reference + total es < 2 ^ 64
    → locate es o ≡ some (p, r)
    → phys_loop p reference es ≡ some (reference + o)
unfolding phys_loop locate
phys_loop_complete [] reference o p r f d t h = ground arith
phys_loop_complete (e ∷ es) reference o p r f d t h = ground (
  arith,
  locate-Apart e es (o - e.length) p r d.0,
  locate_bounds es (o - e.length) p r f.1,
  phys_loop_complete es (reference + e.length) (o - e.length) p r f.1 d.1,
)

-- On a valid buffer, an offset that `physAddrToOffset` returns for a 64-bit address is one that
-- `offsetToPhysAddr` takes back to the address.
pub offset_to_phys_addr-phys_addr_to_offset :
    (file : SglistFile) {b : Buffer} (phys o : ℕ)
    → IsValid b
    → phys < 2 ^ 64
    → phys_addr_to_offset file b phys ≡ (b, some o)
    → (r : ℕ) × (offset_to_phys_addr file b o ≡ (b, some (phys, r)))
unfolding phys_addr_to_offset ensure_sglist
offset_to_phys_addr-phys_addr_to_offset file {b} phys o v l h =
    let found : phys_loop phys 0 b.sglist_vector ≡ some o = ground arith in
    let s = phys_loop_sound b.sglist_vector phys 0 o v.fits (omega arith) l found in
    let here : address b.sglist_vector o ≡ some phys = ground (arith, s) in
    let (r, e) = locate-address b.sglist_vector o phys here in
    (r, ground (arith, offset_to_phys_addr_lem file o v, e))

-- On a valid buffer in which no two entries share a byte, `physAddrToOffset` takes the address that
-- `offsetToPhysAddr` returns for a 64-bit offset back to that offset.
pub phys_addr_to_offset-offset_to_phys_addr :
    (file : SglistFile) {b : Buffer} (o p r : ℕ)
    → IsValid b
    → Disjoint b.sglist_vector
    → o < 2 ^ 64
    → offset_to_phys_addr file b o ≡ (b, some (p, r))
    → phys_addr_to_offset file b p ≡ (b, some o)
unfolding phys_addr_to_offset ensure_sglist
phys_addr_to_offset-offset_to_phys_addr file {b} o p r v d l h =
    ground (
      arith,
      offset_to_phys_addr_lem file o v l,
      phys_loop_complete b.sglist_vector 0 o p r v.fits d,
    )
