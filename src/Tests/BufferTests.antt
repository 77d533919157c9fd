-- ===== src/Tests/BufferTests.antt =====
-- A buffer of 16 kB in two segments, read from a list of three records.
use alice_hlt_librorc.Base.{
  ℕ, ◌^◌, ◌<◌, ◌≡◌, refl, List, [], ◌∷◌, some, true, false, arith, All, map,
}
use alice_hlt_librorc.Base.Bits.{bit_and_mask}
use alice_hlt_librorc.Buffer.{
  ScatterGatherEntry, Scatter, Buffer, SglistFile, entry_of, read_sglist, initialize_sglist,
  combine_all, offset_to_phys_addr, phys_addr_to_offset, done, compose_sglist_from_buffer_segment,
}
use alice_hlt_librorc.Buffer.Segments.{total, address, ScatterFits, address-combine_all}
use alice_hlt_librorc.Buffer.Locate.{
  IsValid, Disjoint, initialize_sglist-IsValid, offset_to_phys_addr-phys_addr_to_offset,
  phys_addr_to_offset-offset_to_phys_addr,
}
use alice_hlt_librorc.Buffer.Compose.{IsPageSize, PageAligned, Covers, compose_sglist-Covers}

abbrev records : List Scatter
records =
    record { dma_address = 0x10000; length = 0x1000 }
    ∷ record { dma_address = 0x11000; length = 0x1000 }
    ∷ record { dma_address = 0x40000; length = 0x2000 }
    ∷ []

abbrev pub file : SglistFile
file = record { get_sglist_size = some 3; mmap_sglist = λ n. some records }

abbrev pub unread : Buffer
unread = record {
  size = 0x4000;
  wrapmap = true;
  sglist_vector = [];
  number_of_scatter_gather_entries = 0;
  sglist_initialized = false;
}

abbrev pub segments : List ScatterGatherEntry
segments =
    record { pointer = 0x10000; length = 0x2000 }
    ∷ record { pointer = 0x40000; length = 0x2000 }
    ∷ []

abbrev pub ready : Buffer
ready = record unread {
  sglist_vector = segments;
  number_of_scatter_gather_entries = 2;
  sglist_initialized = true;
}

records-fit : All ScatterFits records
records-fit = omega arith

pub ready-IsValid : IsValid ready
ready-IsValid = record {
  initialized = refl;
  counted = refl;
  fits = omega arith;
  small = omega arith;
}

address-combine_all_example :
    address (combine_all records) 0x1008 ≡ address (map entry_of records) 0x1008
address-combine_all_example = address-combine_all records 0x1008 records-fit

reads : initialize_sglist file unread ≡ (ready, true)
unfolding initialize_sglist
reads = refl

has_records : read_sglist file ≡ some records
unfolding read_sglist
has_records = refl

small : total (map entry_of records) < 2 ^ 64
unfolding entry_of
small = omega arith

initialize_sglist-IsValid_example :
    IsValid ready
    × (total ready.sglist_vector ≡ total (map entry_of records))
    × (ready.size ≡ unread.size)
initialize_sglist-IsValid_example =
    initialize_sglist-IsValid file unread has_records records-fit small reads

found : phys_addr_to_offset file ready 0x40004 ≡ (ready, some 0x2004)
unfolding phys_addr_to_offset
found = refl

offset_to_phys_addr-phys_addr_to_offset_example :
    (r : ℕ) × (offset_to_phys_addr file ready 0x2004 ≡ (ready, some (0x40004, r)))
offset_to_phys_addr-phys_addr_to_offset_example =
    offset_to_phys_addr-phys_addr_to_offset file 0x40004 0x2004 ready-IsValid (omega arith) found

translated : offset_to_phys_addr file ready 0x2004 ≡ (ready, some (0x40004, 0x1ffc))
unfolding offset_to_phys_addr
translated = refl

segments-Disjoint : Disjoint segments
segments-Disjoint = ground arith

phys_addr_to_offset-offset_to_phys_addr_example :
    phys_addr_to_offset file ready 0x40004 ≡ (ready, some 0x2004)
phys_addr_to_offset-offset_to_phys_addr_example =
    phys_addr_to_offset-offset_to_phys_addr file 0x2004 0x40004 0x1ffc ready-IsValid
      segments-Disjoint (omega arith) translated

pub page : IsPageSize 4096
page = record { positive = omega arith; small = omega arith; masks = λ a. bit_and_mask 12 a }

segments-PageAligned : All (PageAligned 4096) segments
segments-PageAligned = ground arith

-- A segment that starts inside a page of the second entry and runs round the end of the buffer.
compose_sglist-Covers_example :
    (out : List ScatterGatherEntry) × (compose_sglist_from_buffer_segment file ready 4096 0x3c00
        0x1000
      ≡ (ready, done out))
    × Covers 4096 ready 0x3c00 0x1000 out
compose_sglist-Covers_example =
    compose_sglist-Covers 4096 page file 0x3c00 0x1000 ready-IsValid refl segments-PageAligned
      (omega arith) (omega arith)
