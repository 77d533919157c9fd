-- ===== src/EventStream.antt =====
-- src/event_stream.cpp and include/librorc/event_stream.hh: events in the report buffer of a
-- channel are handed out in order and released in any order.
pub mod Ring
pub mod Release
pub mod Validity
pub mod FillCount
pub mod Receive
pub mod Setup
pub mod Runs
use alice_hlt_librorc.Base.{
  ℕ, zero, suc, ◌+◌, ◌*◌, ◌/◌, ◌%◌, ◌^◌, ◌-◌, ◌==◌, Bool, true, false, List, [], ◌∷◌, Option, none,
  some, bit_and, get_or, set, ltb, leb, if◌then◌else◌, u32, u64, sub64, ◌<<<◌,
}
use alice_hlt_librorc.Base.Int.{ℤ, pos, negsuc}
use alice_hlt_librorc.Base.State.{State}
use alice_hlt_librorc.Bar.{Bar}
use alice_hlt_librorc.Link.{Link}
use alice_hlt_librorc.Buffer.{event_descriptor_size}
use alice_hlt_librorc.DmaChannel.{DmaChannel}
use alice_hlt_librorc.DmaChannel.Configure.{EventStreamDirection}
use alice_hlt_librorc.DmaChannel.Pointers.{set_buffer_offsets_on_device}

-- Without the two unused words.
pub record EventDescriptor : Type 0 where
  pub offset : ℕ
  pub reported_event_size : ℕ
  pub calc_event_size : ℕ

-- What `memset` leaves in a descriptor.
abbrev pub cleared : EventDescriptor
cleared = record { offset = 0; reported_event_size = 0; calc_event_size = 0 }

-- Without the members that nothing writes after `memset`.
pub record ChannelStatus : Type 0 where
  pub n_events : ℕ
  pub bytes_received : ℕ
  pub channel : ℕ
  pub device : ℕ
  pub receive_offset : ℕ
  pub release_offset : ℕ

-- The members of an event stream whose DMA buffers are there. `reports` is the memory of the
-- report buffer, `report_buffer_size` its physical size. Each operation below is one step.
pub record EventStream : Type 0 where
  pub channel_id : ℕ
  pub device_id : ℕ
  pub es_type : EventStreamDirection
  pub link_type : ℕ
  pub pcie_packet_size : ℕ
  pub reports : List EventDescriptor
  pub release_map : List Bool
  pub max_rb_entries : ℕ
  pub receive_index : ℕ
  pub release_index : ℕ
  pub report_buffer_size : ℕ
  pub channel_status : ChannelStatus
  pub dma_channel : DmaChannel

abbrev pub event_index_undefined : ℕ
event_index_undefined = 0xffff_ffff_ffff_ffff

-- The index after `i` in a ring of `max` entries.
abbrev pub next_index : ℕ → ℕ → ℕ
next_index max i = if ltb i (sub64 max 1) then u64 (i + 1) else 0

-- What `getNextEvent` returns with `true`: the descriptor, the index in the raw event buffer of
-- 32-bit words, and the reference.
pub record Event : Type 0 where
  pub report : EventDescriptor
  pub raw_index : ℕ
  pub reference : ℕ

unfoldable pub get_raw_event : EventDescriptor → ℕ
get_raw_event report = report.offset / 4

-- The index that `getNextEvent` looks at.
abbrev pub candidate : EventStream → ℕ
candidate es =
    if es.receive_index == event_index_undefined
    then 0
    else next_index es.max_rb_entries es.receive_index

unfoldable pub get_next_event : EventStream → EventStream × Option Event
unfolding get_raw_event
get_next_event es =
    let report = get_or es.reports (candidate es) cleared in
    if report.reported_event_size == 0 then (es, none) else (
      record es {
        receive_index = candidate es;
        channel_status = record es.channel_status { receive_offset = report.offset };
      },
      some (record { report = report; raw_index = get_raw_event report; reference = candidate es }),
    )

-- The loop of `getNumberOfPendingReleases`.
unfoldable pub count_pending : List Bool → ℕ
count_pending [] = 0
count_pending (b ∷ bs) = if b then suc (count_pending bs) else count_pending bs

unfoldable pub get_number_of_pending_releases : EventStream → ℕ
unfolding count_pending
get_number_of_pending_releases es = count_pending es.release_map

unfoldable pub get_ringbuffer_fill_count : EventStream → ℕ
get_ringbuffer_fill_count es =
    if es.receive_index == event_index_undefined
    then 0
    else if leb es.release_index es.receive_index
    then sub64 es.receive_index es.release_index
    else sub64 es.max_rb_entries (sub64 es.release_index es.receive_index)

unfoldable pub update_channel_status : EventDescriptor → EventStream → EventStream
update_channel_status report es =
    let calc_event_size = bit_and report.calc_event_size 0x3fff_ffff in
    record es {
      channel_status = record es.channel_status {
        bytes_received = u64 (es.channel_status.bytes_received + u32 (calc_event_size <<< 2));
        n_events = u64 (es.channel_status.n_events + 1);
      };
    }

-- `memset` of `count` descriptors from `start` on.
unfoldable pub clear_reports : List EventDescriptor → ℕ → ℕ → List EventDescriptor
clear_reports [] start count = []
clear_reports (r ∷ rs) zero zero = r ∷ rs
clear_reports (r ∷ rs) zero (suc count) = cleared ∷ clear_reports rs zero count
clear_reports (r ∷ rs) (suc start) count = r ∷ clear_reports rs start count

-- The variables of the loop of `updateBufferOffsets`.
pub record Releasing : Type 0 where
  pub reports : List EventDescriptor
  pub release_map : List Bool
  pub release_index : ℕ
  pub index_start : ℕ
  pub index_count : ℕ
  pub event_buffer_offset : ℕ
  pub report_buffer_offset : ℕ

-- The body of the loop up to the test for the wrap-around.
advance : ℕ → ℕ → Releasing → Releasing
advance max size r = record r {
  release_map = set r.release_map r.release_index false;
  event_buffer_offset = (get_or r.reports r.release_index cleared).offset;
  report_buffer_offset = u64 (r.release_index * event_descriptor_size) % size;
  index_count = u64 (r.index_count + 1);
  release_index = next_index max r.release_index;
}

unfoldable pub release_body : ℕ → ℕ → Releasing → Releasing
unfolding advance
release_body max size r =
    let r' = advance max size r in
    if r'.release_index == 0
    then record r' {
      reports = clear_reports r'.reports r'.index_start r'.index_count;
      index_count = 0;
      index_start = 0;
    }
    else r'

-- Each round clears a flag, so one round more than there are flags is enough.
unfoldable pub release_loop : ℕ → ℕ → ℕ → Releasing → Option Releasing
release_loop zero max size r = none
release_loop (suc fuel) max size r = elim (get_or r.release_map r.release_index false) [
  | true ↦ release_loop fuel max size (release_body max size r)
  | false ↦ some r
]

module _ {W : Type 0} (bar : Bar W) (l : Link) where
  -- What follows the loop.
  unfoldable pub finish_release : EventStream → Releasing → State W EventStream
  finish_release es r w =
      let (channel, w') =
        set_buffer_offsets_on_device bar l r.event_buffer_offset r.report_buffer_offset
          es.dma_channel w in
      (
        record es {
          reports = clear_reports r.reports r.index_start r.index_count;
          release_map = r.release_map;
          release_index = r.release_index;
          dma_channel = channel;
          channel_status = record es.channel_status { release_offset = r.event_buffer_offset };
        },
        w',
      )

  -- `none` if the fuel ends before the loop.
  unfoldable pub update_buffer_offsets : EventStream → State W (Option EventStream)
  update_buffer_offsets es w =
      if get_or es.release_map es.release_index false
      then elim (release_loop (suc es.max_rb_entries) es.max_rb_entries es.report_buffer_size
          (record {
            reports = es.reports;
            release_map = es.release_map;
            release_index = es.release_index;
            index_start = es.release_index;
            index_count = 0;
            event_buffer_offset = 0;
            report_buffer_offset = 0;
          })) [
            | none ↦ (none, w)
            | some r ↦ let (es', w') = finish_release es r w in (some es', w')
          ]
      else (some es, w)

  -- The result and the stream after it.
  unfoldable pub release_event : ℕ → EventStream → State W (ℤ × Option EventStream)
  release_event reference es w =
      if leb es.max_rb_entries reference
      then ((negsuc 0, some es), w)
      else (let (es', w') =
            update_buffer_offsets (record es { release_map = set es.release_map reference true })
              w in
          ((pos 0, es'), w'))
