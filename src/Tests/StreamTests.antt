-- ===== src/Tests/StreamTests.antt =====
-- A stream of four report entries: three events are received, the second of them is released.
use alice_hlt_librorc.Base.{ℕ, ◌-◌, ◌≡◌, refl, [], ◌∷◌, true, false, some, arith}
use alice_hlt_librorc.Base.Int.{pos, negsuc}
use alice_hlt_librorc.DmaChannel.Configure.{to_host}
use alice_hlt_librorc.EventStream.{
  EventDescriptor, EventStream, cleared, candidate, get_next_event, get_ringbuffer_fill_count,
  update_buffer_offsets, release_event,
}
use alice_hlt_librorc.EventStream.Validity.{
  IsValid, Updated, mark, update_buffer_offsets-Updated, release_event-Updated,
}
use alice_hlt_librorc.EventStream.FillCount.{get_ringbuffer_fill_count_freed}
use alice_hlt_librorc.EventStream.Receive.{receive_up_to, positions, receive_up_to-positions}
use alice_hlt_librorc.Base.{◌==◌, ◌&&◌, ◌%◌, ◌/◌, ◌+◌, ◌^◌, inl, leb, if◌then◌else◌}
use alice_hlt_librorc.Link.{}
use alice_hlt_librorc.Buffer.{Buffer, get_max_rb_entries}
use alice_hlt_librorc.Registers.{rorc_reg_dma_pkt_size}
use alice_hlt_librorc.EventStream.{get_number_of_pending_releases}
use alice_hlt_librorc.EventStream.Runs.{
  Steps, stay, step, delivers, receives, releases, deliver, Steps-IsValid,
}
use alice_hlt_librorc.EventStream.Setup.{
  initialize_stream, override_pcie_packet_size, initialize_stream-IsValid,
  override_pcie_packet_size_lem,
}
use alice_hlt_librorc.Tests.Device.{
  board, first_link, power_on, Board, registers, registers-IsMemory,
}

abbrev event_at : ℕ → EventDescriptor
event_at offset = record { offset = offset; reported_event_size = 16; calc_event_size = 16 }

abbrev stream : EventStream
stream = record {
  channel_id = 0;
  device_id = 0;
  es_type = to_host;
  link_type = 0;
  pcie_packet_size = 128;
  reports = event_at 0 ∷ event_at 64 ∷ event_at 128 ∷ cleared ∷ [];
  release_map = false ∷ true ∷ false ∷ false ∷ [];
  max_rb_entries = 4;
  receive_index = 2;
  release_index = 0;
  report_buffer_size = 128;
  channel_status = record {
    n_events = 3;
    bytes_received = 192;
    channel = 0;
    device = 0;
    receive_offset = 128;
    release_offset = 0;
  };
  dma_channel = record {
    pci_tag = 0;
    last_ebdm_offset = 0;
    last_rbdm_offset = 0;
    out_fifo_depth = 0;
  };
}

-- Nothing is received yet, and three events have arrived.
abbrev waiting : EventStream
waiting = record stream {
  receive_index = 0xffff_ffff_ffff_ffff;
  release_map = false ∷ false ∷ false ∷ false ∷ [];
}

-- Two of the events are received, the third has arrived.
abbrev behind : EventStream
behind = record stream { receive_index = 1 }

-- All three events have been freed.
abbrev drained : EventStream
drained = record stream {
  reports = cleared ∷ cleared ∷ cleared ∷ cleared ∷ [];
  release_map = false ∷ false ∷ false ∷ false ∷ [];
  release_index = 3;
}

stream-IsValid : IsValid stream
stream-IsValid = ground arith

waiting-IsValid : IsValid waiting
waiting-IsValid = ground arith

behind-IsValid : IsValid behind
behind-IsValid = ground arith

drained-IsValid : IsValid drained
drained-IsValid = ground arith

release_event-Updated_example :
    (es' : EventStream) × (w' : Board) × (release_event board first_link 0 stream power_on
      ≡ ((pos 0, some es'), w'))
    × Updated board first_link (mark 0 stream) power_on es' w'
release_event-Updated_example =
    release_event-Updated board first_link 0 power_on stream-IsValid (omega arith)

update_buffer_offsets-Updated_example :
    (es' : EventStream) × (w' : Board) × (update_buffer_offsets board first_link stream power_on
      ≡ (some es', w'))
    × Updated board first_link stream power_on es' w'
update_buffer_offsets-Updated_example =
    update_buffer_offsets-Updated board first_link power_on stream-IsValid

get_ringbuffer_fill_count_freed_example : get_ringbuffer_fill_count drained ≡ 4 - 1
get_ringbuffer_fill_count_freed_example =
    get_ringbuffer_fill_count_freed drained drained-IsValid (omega arith) refl

receive_up_to-positions_example : (receive_up_to 3 waiting).1 ≡ positions 4 (candidate waiting) 3
receive_up_to-positions_example =
    receive_up_to-positions 3 waiting waiting-IsValid
      (omega arith, (omega arith, (omega arith, tt)))

abbrev report_buffer : Buffer
report_buffer = record {
  size = 128;
  wrapmap = true;
  sglist_vector = [];
  number_of_scatter_gather_entries = 0;
  sglist_initialized = false;
}

four_reports : 4 ≡ get_max_rb_entries report_buffer
unfolding get_max_rb_entries
four_reports = refl

initialize_stream-IsValid_example :
    let es = initialize_stream 0 0 to_host 0 128 report_buffer stream.reports stream.dma_channel in
    IsValid es × (get_ringbuffer_fill_count es ≡ 0) × (get_number_of_pending_releases es ≡ 0)
initialize_stream-IsValid_example =
    initialize_stream-IsValid 0 0 to_host 0 128 report_buffer stream.reports stream.dma_channel
      (omega arith) (omega arith) four_reports

abbrev keeps : ℕ → (ℕ → ℕ) → ℕ
keeps a w = w a

abbrev zeros : ℕ → ℕ
zeros a = 0

ahead : release_event board first_link 2 stream power_on ≡ ((pos 0, some (mark 2 stream)), power_on)
unfolding release_event update_buffer_offsets
ahead = refl

-- Entry 2 is released, a fourth report arrives and is received.
run :
    Steps board first_link stream power_on
      (get_next_event (deliver 3 (event_at 192) (mark 2 stream))).0
      power_on
run =
    step (releases 2 (pos 0) ahead) (step (delivers 3 (event_at 192) power_on) (step receives stay))

Steps-IsValid_example : IsValid (get_next_event (deliver 3 (event_at 192) (mark 2 stream))).0
Steps-IsValid_example = Steps-IsValid board first_link stream-IsValid run

override_pcie_packet_size_lem_example :
    let accepted = 256 % 4 == 0 && leb 4 256 && leb 256 256 in
    let (answer, w') = override_pcie_packet_size registers first_link 256 stream zeros in
    (answer ≡ (
      if accepted then (pos 0, record stream { pcie_packet_size = 256 }) else (negsuc 0, stream)))
    × ((b : ℕ)
        → keeps b w' ≡ (
            if accepted && b == (first_link.base + rorc_reg_dma_pkt_size) % 2 ^ 32
            then 256 / 4
            else keeps b zeros))
override_pcie_packet_size_lem_example =
    override_pcie_packet_size_lem registers keeps registers-IsMemory first_link 256 256 stream zeros
      (inl (refl, refl))
