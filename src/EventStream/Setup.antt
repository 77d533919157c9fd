-- ===== src/EventStream/Setup.antt =====
-- The start of an event stream: the members that `initMembers`, `clearSharedMemory` and
-- `initializeDmaBuffers` of src/event_stream.cpp set, and `overridePciePacketSize`.
use alice_hlt_librorc.Base.{
  ℕ, zero, suc, ◌*◌, ◌/◌, ◌%◌, ◌^◌, ◌<◌, ◌≤◌, ◌≡◌, ◌==◌, ◌||◌, ◌&&◌, refl, Bool, false, not, List,
  arith, ltb, leb, length, replicate, length-replicate, if◌then◌else◌, u64, inl, inr, ◌⊎◌, u32, ◌+◌,
  ◌-◌, bit_and,
}
use alice_hlt_librorc.Base.Bits.{bit_and_mask}
use alice_hlt_librorc.Base.Int.{ℤ, pos, negsuc}
use alice_hlt_librorc.Base.State.{State}
use alice_hlt_librorc.Bar.{Bar}
use alice_hlt_librorc.Bar.Memory.{IsMemory}
use alice_hlt_librorc.Link.{Link, set_pci_reg}
use alice_hlt_librorc.Buffer.{Buffer, get_physical_size, get_max_rb_entries, event_descriptor_size}
use alice_hlt_librorc.Registers.{rorc_cfg_link_type_siu, rorc_reg_dma_pkt_size}
use alice_hlt_librorc.DmaChannel.{DmaChannel}
use alice_hlt_librorc.DmaChannel.Configure.{EventStreamDirection, to_host, to_device}
use alice_hlt_librorc.DmaChannel.Pointers.{set_pcie_packet_size}
use alice_hlt_librorc.EventStream.{
  EventDescriptor, ChannelStatus, EventStream, event_index_undefined,
  get_number_of_pending_releases, get_ringbuffer_fill_count, count_pending,
}
use alice_hlt_librorc.EventStream.Validity.{IsValid}

-- `false` is the exception.
unfoldable pub check_link_type_compatibility : EventStreamDirection → ℕ → Bool
check_link_type_compatibility to_host link_type = not (link_type == rorc_cfg_link_type_siu)
check_link_type_compatibility to_device link_type = link_type == rorc_cfg_link_type_siu

unfoldable pub clear_shared_memory : ℕ → ℕ → ChannelStatus
clear_shared_memory channel_id device_id = record {
  n_events = 0;
  bytes_received = 0;
  channel = channel_id;
  device = device_id;
  receive_offset = 0;
  release_offset = 0;
}

-- The size that the report buffer is allocated with.
unfoldable pub report_buffer_size_for : Buffer → ℕ → ℕ
report_buffer_size_for event_buffer pcie_packet_size =
    u64 (get_physical_size event_buffer / pcie_packet_size * event_descriptor_size)

-- The stream once its report buffer is there, with what its memory holds.
unfoldable pub initialize_stream :
    ℕ → ℕ → EventStreamDirection → ℕ → ℕ → Buffer → List EventDescriptor → DmaChannel → EventStream
initialize_stream channel_id device_id es_type link_type pcie_packet_size report_buffer reports
      dma_channel =
    record {
      channel_id = channel_id;
      device_id = device_id;
      es_type = es_type;
      link_type = link_type;
      pcie_packet_size = pcie_packet_size;
      reports = reports;
      release_map = replicate (get_max_rb_entries report_buffer) false;
      max_rb_entries = get_max_rb_entries report_buffer;
      receive_index = event_index_undefined;
      release_index = 0;
      report_buffer_size = get_physical_size report_buffer;
      channel_status = clear_shared_memory channel_id device_id;
      dma_channel = dma_channel;
    }

-- The largest packet of a direction.
abbrev pub max_packet_size : EventStreamDirection → ℕ
max_packet_size to_host = 256
max_packet_size to_device = 512

unfoldable pub override_pcie_packet_size :
    {W : Type 0} → Bar W → Link → ℕ → EventStream → State W (ℤ × EventStream)
override_pcie_packet_size bar l pcie_packet_size es w =
    if pcie_packet_size == 0 || not (pcie_packet_size % 4 == 0)
    then ((negsuc 0, es), w)
    else if ltb (max_packet_size es.es_type) pcie_packet_size
    then ((negsuc 0, es), w)
    else (let (_, w') = set_pcie_packet_size bar l pcie_packet_size w in
        ((pos 0, record es { pcie_packet_size = pcie_packet_size }), w'))

count_pending-replicate : (n : ℕ) → count_pending (replicate n false) ≡ 0
unfolding count_pending
count_pending-replicate zero = refl
count_pending-replicate (suc n) = count_pending-replicate n

max_packet_size-le :
    (d : EventStreamDirection) → (4 ≤ max_packet_size d) × (max_packet_size d ≤ 512)
max_packet_size-le to_host = omega arith
max_packet_size-le to_device = omega arith

-- A stream whose report buffer has room for an entry, and less than 2 ^ 63 bytes, starts valid,
-- with no event received and none released.
pub initialize_stream-IsValid :
    (channel_id device_id : ℕ) (es_type : EventStreamDirection) (link_type pcie_packet_size : ℕ)
    (report_buffer : Buffer) (reports : List EventDescriptor) (dma_channel : DmaChannel)
    → 32 ≤ report_buffer.size
    → report_buffer.size < 2 ^ 63
    → length reports ≡ get_max_rb_entries report_buffer
    → let es =
        initialize_stream channel_id device_id es_type link_type pcie_packet_size report_buffer
          reports dma_channel in
      IsValid es × (get_ringbuffer_fill_count es ≡ 0) × (get_number_of_pending_releases es ≡ 0)
unfolding initialize_stream get_max_rb_entries get_ringbuffer_fill_count
    get_number_of_pending_releases
initialize_stream-IsValid channel_id device_id es_type link_type pcie_packet_size b reports c lo hi
      e =
    (
      record {
        positive = omega arith;
        small = omega arith;
        map_length = length-replicate (b.size / 32) false;
        reports_length = e;
        release_inside = omega arith;
        receive_inside = inl refl;
      },
      refl,
      count_pending-replicate (b.size / 32),
    )

limit_of :
    (d : EventStreamDirection) (limit : ℕ)
    → ((d ≡ to_host) × (limit ≡ 256)) ⊎ ((d ≡ to_device) × (limit ≡ 512))
    → max_packet_size d ≡ limit
limit_of d limit (inl (host, e)) = rw (host, e) refl
limit_of d limit (inr (device, e)) = rw (device, e) refl

-- On registers that keep their values, `overridePciePacketSize` accepts the multiples of 4 from 4 to
-- 256 of a stream to the host, and to 512 of a stream to the device: it returns 0, records the size,
-- and leaves the number of words of 4 bytes in the register of the device. Otherwise it returns -1
-- and records nothing. It changes no other register.
pub override_pcie_packet_size_lem :
    {W : Type 0} (bar : Bar W) (word : ℕ → W → ℕ) (memory : IsMemory bar word) (l : Link)
    (size limit : ℕ) (es : EventStream) (w : W)
    → ((es.es_type ≡ to_host) × (limit ≡ 256)) ⊎ ((es.es_type ≡ to_device) × (limit ≡ 512))
    → let accepted = size % 4 == 0 && leb 4 size && leb size limit in
      let (answer, w') = override_pcie_packet_size bar l size es w in
      (answer
        ≡ (if accepted then (pos 0, record es { pcie_packet_size = size }) else (negsuc 0, es)))
      × ((b : ℕ)
          → word b w' ≡ (
              if accepted && b == (l.base + rorc_reg_dma_pkt_size) % 2 ^ 32
              then size / 4
              else word b w))
unfolding override_pcie_packet_size set_pcie_packet_size set_pci_reg
override_pcie_packet_size_lem bar word memory l size limit es w which =
    let largest = limit_of es.es_type limit which in
    let limits = max_packet_size-le es.es_type in
    let register = u32 (l.base + rorc_reg_dma_pkt_size) in
    let words = bit_and (size / 2 ^ 2) (2 ^ 10 - 1) in
    let masked : words ≡ size / 2 ^ 2 % 2 ^ 10 = bit_and_mask 10 (size / 2 ^ 2) in
    (
      ground (arith, largest, limits),
      λ b. ground (arith, largest, limits, masked, memory.writes register words w b),
    )
