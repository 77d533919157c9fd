-- ===== src/DmaChannel/Configure.antt =====
-- `configure` and `configureDmaChannelRegisters` of src/dma_channel.cpp.
use alice_hlt_librorc.Base.{ℕ, ◌^◌, List, [], ◌∷◌, Option, none, some, bit_or, u32, sub64}
use alice_hlt_librorc.Base.State.{State, ◌>>◌, pure}
use alice_hlt_librorc.Bar.{Bar}
use alice_hlt_librorc.Buffer.{
  Buffer, SglistFile, get_physical_size, get_n_sg_entries, event_descriptor_size,
}
use alice_hlt_librorc.Link.{Link, memcopy}
use alice_hlt_librorc.Registers.{rorc_reg_ebdm_n_sg_config}
use alice_hlt_librorc.DmaChannel.{DmaChannel, set_dma_config, sync_swrdptrs_bit}
use alice_hlt_librorc.DmaChannel.Pointers.{
  low_word, high_word, set_pcie_packet_size, out_fifo_depth,
}
use alice_hlt_librorc.DmaChannel.SgList.{
  RamResult, written, efbig, out_of_fuel, configure_buffer_descriptor_ram,
}

-- `EventStreamDirection` of include/librorc/defines.hh.
pub data EventStreamDirection : Type 0 where
  to_host to_device : EventStreamDirection

-- A buffer and the file that its list is read from.
pub record DmaBuffer : Type 0 where
  pub file : SglistFile
  pub buffer : Buffer

-- The state of a call of `configure`: the channel and the two buffers.
pub record Configured : Type 0 where
  pub channel : DmaChannel
  pub event : DmaBuffer
  pub report : DmaBuffer

-- What `configure` returns: 0, ENODEV or a result of `configureBufferDescriptorRam`.
pub data ConfigureResult : Type 0 where
  configured enodev : ConfigureResult
  failed : RamResult → ConfigureResult

-- The ten registers from RORC_REG_EBDM_N_SG_CONFIG on, `DmaChannelConfigRegisters`.
unfoldable pub config_words : ℕ → ℕ → ℕ → ℕ → ℕ → List ℕ
config_words eb_entries eb_size rb_entries rb_size pcie_packet_size =
    let ebrdptr = sub64 eb_size pcie_packet_size in
    let rbrdptr = sub64 rb_size event_descriptor_size in
    u32 eb_entries
    ∷ low_word eb_size
    ∷ high_word eb_size
    ∷ u32 rb_entries
    ∷ low_word rb_size
    ∷ high_word rb_size
    ∷ low_word ebrdptr
    ∷ high_word ebrdptr
    ∷ low_word rbrdptr
    ∷ high_word rbrdptr
    ∷ []

module _ {W : Type 0} (bar : Bar W) (l : Link) where
  unfoldable pub configure_dma_channel_registers :
      DmaBuffer → DmaBuffer → ℕ → DmaChannel → State W (DmaChannel × DmaBuffer × DmaBuffer)
  configure_dma_channel_registers event report pcie_packet_size c = do
    let eb_size = get_physical_size event.buffer
    let rb_size = get_physical_size report.buffer
    let eb = get_n_sg_entries event.file event.buffer
    let rb = get_n_sg_entries report.file report.buffer
    memcopy bar l rorc_reg_ebdm_n_sg_config
        (config_words eb.1 eb_size rb.1 rb_size pcie_packet_size)
    set_dma_config bar l (bit_or (2 ^ sync_swrdptrs_bit) c.pci_tag)
    set_pcie_packet_size bar l pcie_packet_size
    pure (
      record c {
        last_ebdm_offset = sub64 eb_size pcie_packet_size;
        last_rbdm_offset = sub64 rb_size event_descriptor_size;
      },
      record event { buffer = eb.0 },
      record report { buffer = rb.0 },
    )

  -- The report buffer and the registers, once the event side is done.
  unfoldable pub configure_report : ℕ → ℕ → Configured → State W (ConfigureResult × Configured)
  configure_report page_size pcie_packet_size s w =
      let ((result, rbuf), w') =
        configure_buffer_descriptor_ram bar l page_size s.report.file s.report.buffer 1 w in
      let s' : Configured = record s { report = record s.report { buffer = rbuf } } in
      elim result [
        | written ↦
            let ((c, event, report), w'') =
              configure_dma_channel_registers s'.event s'.report pcie_packet_size s'.channel w' in
            ((configured, record { channel = c; event = event; report = report }), w'')
        | efbig ↦ ((failed efbig, s'), w')
        | out_of_fuel ↦ ((failed out_of_fuel, s'), w')
      ]

  -- `configure` with both buffers.
  unfoldable pub configure_with :
      ℕ → EventStreamDirection → ℕ → Configured → State W (ConfigureResult × Configured)
  configure_with page_size to_host pcie_packet_size s w =
      let ((result, ebuf), w') =
        configure_buffer_descriptor_ram bar l page_size s.event.file s.event.buffer 0 w in
      let s' : Configured = record s { event = record s.event { buffer = ebuf } } in
      elim result [
        | written ↦ configure_report page_size pcie_packet_size s' w'
        | efbig ↦ ((failed efbig, s'), w')
        | out_of_fuel ↦ ((failed out_of_fuel, s'), w')
      ]
  configure_with page_size to_device pcie_packet_size s w =
      let (depth, w') = out_fifo_depth bar l w in
      configure_report page_size pcie_packet_size
        (record s { channel = record s.channel { out_fifo_depth = depth } }) w'

  -- A missing buffer is a null pointer; the result has the channel and the buffers as they are then.
  unfoldable pub configure :
      ℕ
      → Option DmaBuffer
      → Option DmaBuffer
      → EventStreamDirection
      → ℕ
      → DmaChannel
      → State W (ConfigureResult × Option Configured)
  configure page_size (some event) (some report) dir pcie_packet_size c w =
      let ((result, s), w') =
        configure_with page_size dir pcie_packet_size
          (record { channel = c; event = event; report = report }) w in
      ((result, some s), w')
  configure page_size _ _ dir pcie_packet_size c w = ((enodev, none), w)
