-- ===== src/DmaChannel/Pointers.antt =====
-- The offsets, sizes, counters and rates of src/dma_channel.cpp.
use alice_hlt_librorc.Base.{
  ℕ, ◌+◌, ◌-◌, ◌/◌, ◌^◌, ◌==◌, [], ◌∷◌, bit_and, bit_or, if◌then◌else◌, u32, u64, ◌<<<◌, ◌>>>◌,
}
use alice_hlt_librorc.Base.State.{State, ◌>>=◌, ◌>>◌, pure}
use alice_hlt_librorc.Bar.{Bar}
use alice_hlt_librorc.Link.{Link, pci_reg, set_pci_reg, memcopy}
use alice_hlt_librorc.Registers.{
  rorc_reg_ebdm_n_sg_config, rorc_reg_rbdm_n_sg_config, rorc_reg_ebdm_buffer_size_l,
  rorc_reg_ebdm_buffer_size_h, rorc_reg_rbdm_buffer_size_l, rorc_reg_rbdm_buffer_size_h,
  rorc_reg_ebdm_sw_read_pointer_l, rorc_reg_ebdm_sw_read_pointer_h, rorc_reg_rbdm_sw_read_pointer_l,
  rorc_reg_rbdm_sw_read_pointer_h, rorc_reg_dma_n_events_processed,
  rorc_reg_ebdm_fpga_write_pointer_h, rorc_reg_ebdm_fpga_write_pointer_l,
  rorc_reg_rbdm_fpga_write_pointer_l, rorc_reg_rbdm_fpga_write_pointer_h, rorc_reg_dma_stall_cnt,
  rorc_reg_dma_pkt_size, rorc_reg_dma_rate_limiter_waittime,
}
use alice_hlt_librorc.DmaChannel.{
  DmaChannel, dma_config, set_dma_config, enable_bit, ebdm_enable_bit, rbdm_enable_bit,
  sync_swrdptrs_bit,
}

-- The two 32-bit words of a 64-bit value.
abbrev pub low_word : ℕ → ℕ
low_word x = u32 (bit_and x (2 ^ 32 - 1))

abbrev pub high_word : ℕ → ℕ
high_word x = u32 (x >>> 32)

-- The value that `setBufferOffsetsOnDevice` writes to the control register.
unfoldable pub running_config : DmaChannel → ℕ
running_config c =
    bit_or
      (bit_or (bit_or (bit_or (2 ^ sync_swrdptrs_bit) c.pci_tag) (2 ^ ebdm_enable_bit))
        (2 ^ rbdm_enable_bit))
      (2 ^ enable_bit)

module _ {W : Type 0} (bar : Bar W) (l : Link) where
  -- A 64-bit value from its high and its low register.
  read_pair : ℕ → ℕ → State W ℕ
  read_pair high low = do
    h ← pci_reg bar l high
    lo ← pci_reg bar l low
    pure (u64 ((h <<< 32) + lo))

  unfoldable pub set_buffer_offsets_on_device : ℕ → ℕ → DmaChannel → State W DmaChannel
  unfolding running_config
  set_buffer_offsets_on_device eboffset rboffset c = do
    memcopy bar l rorc_reg_ebdm_sw_read_pointer_l
        (low_word eboffset ∷ high_word eboffset ∷ low_word rboffset ∷ high_word rboffset ∷ [])
    set_dma_config bar l (running_config c)
    pure (record c { last_ebdm_offset = eboffset; last_rbdm_offset = rboffset })

  unfoldable pub set_pcie_packet_size : ℕ → State W (Unit {0})
  set_pcie_packet_size packet_size =
      set_pci_reg bar l rorc_reg_dma_pkt_size (bit_and (packet_size >>> 2) 0x3ff)

  unfoldable pub pcie_packet_size : State W ℕ
  pcie_packet_size = pci_reg bar l rorc_reg_dma_pkt_size

  unfoldable pub set_eb_offset : ℕ → DmaChannel → State W DmaChannel
  set_eb_offset offset c = do
    memcopy bar l rorc_reg_ebdm_sw_read_pointer_l (low_word offset ∷ high_word offset ∷ [])
    cfg ← dma_config bar l
    set_dma_config bar l (bit_or cfg (2 ^ sync_swrdptrs_bit))
    pure (record c { last_ebdm_offset = offset })

  unfoldable pub set_rb_offset : ℕ → DmaChannel → State W DmaChannel
  set_rb_offset offset c = do
    memcopy bar l rorc_reg_rbdm_sw_read_pointer_l (low_word offset ∷ high_word offset ∷ [])
    cfg ← dma_config bar l
    set_dma_config bar l (bit_or cfg (2 ^ sync_swrdptrs_bit))
    pure (record c { last_rbdm_offset = offset })

  unfoldable pub get_eb_offset : State W ℕ
  unfolding read_pair
  get_eb_offset = read_pair rorc_reg_ebdm_sw_read_pointer_h rorc_reg_ebdm_sw_read_pointer_l

  unfoldable pub get_ebdma_offset : State W ℕ
  unfolding read_pair
  get_ebdma_offset = read_pair rorc_reg_ebdm_fpga_write_pointer_h rorc_reg_ebdm_fpga_write_pointer_l

  unfoldable pub get_rb_offset : State W ℕ
  unfolding read_pair
  get_rb_offset = read_pair rorc_reg_rbdm_sw_read_pointer_h rorc_reg_rbdm_sw_read_pointer_l

  unfoldable pub get_rbdma_offset : State W ℕ
  unfolding read_pair
  get_rbdma_offset = read_pair rorc_reg_rbdm_fpga_write_pointer_h rorc_reg_rbdm_fpga_write_pointer_l

  unfoldable pub get_eb_size : State W ℕ
  unfolding read_pair
  get_eb_size = read_pair rorc_reg_ebdm_buffer_size_h rorc_reg_ebdm_buffer_size_l

  unfoldable pub get_rb_size : State W ℕ
  unfolding read_pair
  get_rb_size = read_pair rorc_reg_rbdm_buffer_size_h rorc_reg_rbdm_buffer_size_l

  unfoldable pub get_last_eb_offset : DmaChannel → ℕ
  get_last_eb_offset c = c.last_ebdm_offset

  unfoldable pub get_last_rb_offset : DmaChannel → ℕ
  get_last_rb_offset c = c.last_rbdm_offset

  unfoldable pub out_fifo_fill_state : State W ℕ
  out_fifo_fill_state = do
    state ← pci_reg bar l rorc_reg_ebdm_n_sg_config
    pure (bit_and state 0xffff)

  unfoldable pub out_fifo_depth : State W ℕ
  out_fifo_depth = do
    state ← pci_reg bar l rorc_reg_ebdm_n_sg_config
    pure (bit_and (state >>> 16) 0xffff)

  unfoldable pub get_ebdm_number_of_sg_entries : State W ℕ
  get_ebdm_number_of_sg_entries = do
    config ← pci_reg bar l rorc_reg_ebdm_n_sg_config
    pure (bit_and config 0xffff)

  unfoldable pub get_ebdm_max_sg_entries : State W ℕ
  get_ebdm_max_sg_entries = do
    config ← pci_reg bar l rorc_reg_ebdm_n_sg_config
    pure (config >>> 16)

  unfoldable pub get_rbdm_number_of_sg_entries : State W ℕ
  get_rbdm_number_of_sg_entries = do
    config ← pci_reg bar l rorc_reg_rbdm_n_sg_config
    pure (bit_and config 0xffff)

  unfoldable pub get_rbdm_max_sg_entries : State W ℕ
  get_rbdm_max_sg_entries = do
    config ← pci_reg bar l rorc_reg_rbdm_n_sg_config
    pure (config >>> 16)

  unfoldable pub stall_count : State W ℕ
  stall_count = pci_reg bar l rorc_reg_dma_stall_cnt

  unfoldable pub clear_stall_count : State W (Unit {0})
  clear_stall_count = set_pci_reg bar l rorc_reg_dma_stall_cnt 0

  unfoldable pub event_count : State W ℕ
  event_count = pci_reg bar l rorc_reg_dma_n_events_processed

  unfoldable pub clear_event_count : State W (Unit {0})
  clear_event_count = set_pci_reg bar l rorc_reg_dma_n_events_processed 0

  -- The clock of the rate limiter for a PCIe generation.
  abbrev clk_freq : ℕ → ℕ
  clk_freq pcie_gen = if pcie_gen == 2 then 250000000 else 125000000

  unfoldable pub set_rate_limit : ℕ → ℕ → State W (Unit {0})
  set_rate_limit rate pcie_gen =
      set_pci_reg bar l rorc_reg_dma_rate_limiter_waittime
        (if rate == 0 then 0 else clk_freq pcie_gen / rate)

  unfoldable pub rate_limit : ℕ → State W ℕ
  rate_limit pcie_gen = do
    waittime ← pci_reg bar l rorc_reg_dma_rate_limiter_waittime
    pure (if waittime == 0 then 0 else clk_freq pcie_gen / waittime)
