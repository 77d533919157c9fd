-- ===== src/Buffer.antt =====
-- src/buffer.cpp and include/librorc/buffer.hh: the scatter-gather list of a DMA buffer, and the
-- translation between offsets in the buffer and physical addresses.
pub mod Segments
pub mod Locate
pub mod Compose
use alice_hlt_librorc.Base.{
  ℕ, zero, suc, ◌+◌, ◌-◌, ◌*◌, ◌/◌, ◌^◌, ◌==◌, Bool, true, false, ◌&&◌, List, [], ◌∷◌, Option, none,
  some, bit_and, ltb, leb, if◌then◌else◌, length, u64, sub64, ◌>>>◌,
}

pub record ScatterGatherEntry : Type 0 where
  pub pointer : ℕ
  pub length : ℕ

-- `struct scatter`, less the fields that nothing reads.
pub record Scatter : Type 0 where
  pub dma_address : ℕ
  pub length : ℕ

-- The members of a buffer that is not built on PDA, less the memory that it maps.
pub record Buffer : Type 0 where
  pub size : ℕ
  pub wrapmap : Bool
  pub sglist_vector : List ScatterGatherEntry
  pub number_of_scatter_gather_entries : ℕ
  pub sglist_initialized : Bool

unfoldable pub get_physical_size : Buffer → ℕ
get_physical_size b = b.size

-- `sizeof(EventDescriptor)`
abbrev pub event_descriptor_size : ℕ
event_descriptor_size = 32

unfoldable pub get_max_rb_entries : Buffer → ℕ
get_max_rb_entries b = b.size / event_descriptor_size

-- Whether the inner loop of `initializeSglist` takes the next record into the entry. `current` is
-- `sglist[i].length`.
unfoldable pub combines : ScatterGatherEntry → ℕ → Scatter → Bool
combines entry current next =
    (u64 (entry.pointer + entry.length) == next.dma_address)
    && ltb (u64 (entry.length + current)) 0xffffffff

unfoldable pub entry_of : Scatter → ScatterGatherEntry
entry_of s = record { pointer = s.dma_address; length = s.length }

-- The two loops of `initializeSglist`, from the entry under construction on.
unfoldable pub combine : ScatterGatherEntry → ℕ → List Scatter → List ScatterGatherEntry
unfolding combines entry_of
combine entry current [] = entry ∷ []
combine entry current (next ∷ rest) = elim (combines entry current next) [
  | true ↦ combine (record entry { length = u64 (entry.length + next.length) }) next.length rest
  | false ↦ entry ∷ combine (entry_of next) next.length rest
]

unfoldable pub combine_all : List Scatter → List ScatterGatherEntry
unfolding combine entry_of
combine_all [] = []
combine_all (s ∷ rest) = combine (entry_of s) s.length rest

-- What `sysfs_handler` answers: `none` is a negative result. A mapping of n bytes is the list of
-- its `n / sizeof(struct scatter)` records.
pub record SglistFile : Type 0 where
  pub get_sglist_size : Option ℕ
  pub mmap_sglist : ℕ → Option (List Scatter)

unfoldable pub read_sglist : SglistFile → Option (List Scatter)
read_sglist file = elim file.get_sglist_size [ none ↦ none | some n ↦ file.mmap_sglist n ]

-- `true` is the result 0, `false` is -1.
unfoldable pub initialize_sglist : SglistFile → Buffer → Buffer × Bool
unfolding combine_all read_sglist
initialize_sglist file b = elim (read_sglist file) [
  | none ↦ (
    record b {
      sglist_vector = [];
      number_of_scatter_gather_entries = 0;
      sglist_initialized = false;
    },
    false,
  )
  | some scatter ↦ (
    record b {
      sglist_vector = combine_all scatter;
      number_of_scatter_gather_entries = length (combine_all scatter);
      sglist_initialized = true;
    },
    true,
  )
]

-- The test at the head of every operation that reads the list.
unfoldable pub ensure_sglist : SglistFile → Buffer → Buffer × Bool
unfolding initialize_sglist
ensure_sglist file b = if b.sglist_initialized then (b, true) else initialize_sglist file b

unfoldable pub sg_list : SglistFile → Buffer → Buffer × List ScatterGatherEntry
unfolding ensure_sglist
sg_list file b = let (b', ok) = ensure_sglist file b in (b', b'.sglist_vector)

unfoldable pub get_n_sg_entries : SglistFile → Buffer → Buffer × ℕ
unfolding ensure_sglist
get_n_sg_entries file b =
    let (b', ok) = ensure_sglist file b in (b', b'.number_of_scatter_gather_entries)

-- The loop of `offsetToPhysAddr`: the physical address and the bytes left in its entry.
unfoldable pub offset_loop : ℕ → ℕ → List ScatterGatherEntry → Option (ℕ × ℕ)
offset_loop offset reference [] = none
offset_loop offset reference (e ∷ es) =
    if leb reference offset && ltb offset (u64 (reference + e.length))
    then some (u64 (e.pointer + sub64 offset reference), sub64 e.length (sub64 offset reference))
    else offset_loop offset (u64 (reference + e.length)) es

unfoldable pub offset_to_phys_addr : SglistFile → Buffer → ℕ → Buffer × Option (ℕ × ℕ)
unfolding ensure_sglist offset_loop
offset_to_phys_addr file b offset =
    let (b', ok) = ensure_sglist file b in
    (b', if ok then offset_loop offset 0 b'.sglist_vector else none)

-- The loop of `physAddrToOffset`.
unfoldable pub phys_loop : ℕ → ℕ → List ScatterGatherEntry → Option ℕ
phys_loop phys reference [] = none
phys_loop phys reference (e ∷ es) =
    if leb e.pointer phys && ltb phys (u64 (e.pointer + e.length))
    then some (u64 (reference + sub64 phys e.pointer))
    else phys_loop phys (u64 (reference + e.length)) es

unfoldable pub phys_addr_to_offset : SglistFile → Buffer → ℕ → Buffer × Option ℕ
unfolding ensure_sglist phys_loop
phys_addr_to_offset file b phys =
    let (b', ok) = ensure_sglist file b in
    (b', if ok then phys_loop phys 0 b'.sglist_vector else none)

-- The entries that `composeSglistFromBufferSegment` has pushed: when it returns true, when it
-- returns false, and when the fuel of the model ends before the loop does.
pub data Composed : Type 0 where
  done : List ScatterGatherEntry → Composed
  failed : List ScatterGatherEntry → Composed
  out_of_fuel : Composed

abbrev pub push : ScatterGatherEntry → Composed → Composed
push e (done es) = done (e ∷ es)
push e (failed es) = failed (e ∷ es)
push e out_of_fuel = out_of_fuel

-- The length of the next entry, at an address with `remaining` bytes left in its segment.
unfoldable pub segment_length : ℕ → ℕ → ℕ → ℕ → ℕ
segment_length page_size phys remaining rem_size =
    let in_page = bit_and phys (page_size - 1) in
    let to_boundary = if in_page == 0 then remaining else sub64 page_size in_page in
    let short = if to_boundary >>> 32 == 0 then to_boundary else sub64 (2 ^ 32) page_size in
    if leb rem_size short then rem_size else short

-- `cur_offset` after an entry.
unfoldable pub next_offset : Buffer → ℕ → ℕ → ℕ
unfolding get_physical_size
next_offset b cur_offset len =
    let next = u64 (cur_offset + len) in if next == get_physical_size b then 0 else next

-- The loop of `composeSglistFromBufferSegment`. A round that fails to read the list leaves it
-- unread, so every round starts from the same buffer but for its list.
unfoldable pub compose_loop : ℕ → SglistFile → Buffer → ℕ → ℕ → ℕ → Buffer × Composed
compose_loop fuel file b page_size cur_offset zero = (b, done [])
compose_loop zero file b page_size cur_offset (suc r) = (b, out_of_fuel)
compose_loop (suc fuel) file b page_size cur_offset (suc r) =
    let (b', found) = offset_to_phys_addr file b cur_offset in
    elim found [
      | none ↦ (b', failed [])
      | some (phys, remaining) ↦
          let len = segment_length page_size phys remaining (suc r) in
          let (b'', rest) =
            compose_loop fuel file b' page_size (next_offset b' cur_offset len) (suc r - len) in
          (b'', push (record { pointer = phys; length = len }) rest)
    ]

-- Every round takes at least one byte, so `size` rounds are enough.
unfoldable pub compose_sglist_from_buffer_segment :
    SglistFile → Buffer → ℕ → ℕ → ℕ → Buffer × Composed
compose_sglist_from_buffer_segment file b page_size offset size =
    compose_loop size file b page_size offset size
