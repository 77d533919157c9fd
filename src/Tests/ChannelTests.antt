-- ===== src/Tests/ChannelTests.antt =====
-- The DMA channel on the two boards.
use alice_hlt_librorc.Base.{
  ℕ, ◌+◌, ◌-◌, ◌*◌, ◌%◌, ◌^◌, ◌≤◌, ◌≡◌, refl, List, [], ◌∷◌, some, none, arith, All, ltb,
  if◌then◌else◌,
}
use alice_hlt_librorc.Base.Int.{pos}
use alice_hlt_librorc.Buffer.{ScatterGatherEntry, SglistFile, read_sglist}
use alice_hlt_librorc.Link.{pci_reg, set_pci_reg}
use alice_hlt_librorc.DmaChannel.{
  set_dma_config, get_enable, get_dma_busy, set_suspend, wait_idle, disable, dma_config,
}
use alice_hlt_librorc.DmaChannel.Pointers.{get_ebdm_max_sg_entries}
use alice_hlt_librorc.DmaChannel.SgList.{prepare_sg_list, written, configure_buffer_descriptor_ram}
use alice_hlt_librorc.DmaChannel.Control.{IdleAt, disable_enabled}
use alice_hlt_librorc.DmaChannel.Prepare.{Short, Prepared, prepare_sg_list-Prepared}
use alice_hlt_librorc.DmaChannel.Ram.{empty_entry}
use alice_hlt_librorc.DmaChannel.Load.{
  max_sg, Loaded, configure_buffer_descriptor_ram-Loaded, configure_buffer_descriptor_ram_unread,
}
use alice_hlt_librorc.Bar.{hw_get32, hw_set32, hw_get16, hw_set16, Mapped}
use alice_hlt_librorc.Bar.Bounds.{Agree, bar_impl_hw-Agree, hw_set32_outside}
use alice_hlt_librorc.DmaChannel.{DmaChannel}
use alice_hlt_librorc.DmaChannel.Pointers.{
  set_buffer_offsets_on_device, get_eb_offset, get_rb_offset,
}
use alice_hlt_librorc.DmaChannel.Offsets.{set_buffer_offsets_on_device-get}
use alice_hlt_librorc.Tests.Device.{
  registers, registers-IsMemory, clocked, board, first_link, power_on, firmware,
}
use alice_hlt_librorc.Tests.BufferTests.{segments, file, unread, ready, ready-IsValid}

-- 5 GB from 4 GB on.
abbrev large : List ScatterGatherEntry
large = record { pointer = 0x1_0000_0000; length = 0x1_4000_0000 } ∷ []

prepare_sg_list-Prepared_example :
    (out : List ScatterGatherEntry) × (prepare_sg_list 4096 large ≡ some out) × Prepared large out
prepare_sg_list-Prepared_example =
    prepare_sg_list-Prepared 4096 large (omega arith) (omega arith) (omega arith)

segments-Short : All Short segments
segments-Short = omega arith

capacity : (max_sg board first_link firmware 0 power_on).0 ≡ 4
unfolding get_ebdm_max_sg_entries pci_reg board
capacity = refl

configure_buffer_descriptor_ram-Loaded_example :
    Loaded board first_link firmware 0 segments ready power_on
      (configure_buffer_descriptor_ram board first_link 4096 file ready 0 power_on)
configure_buffer_descriptor_ram-Loaded_example =
    configure_buffer_descriptor_ram-Loaded board first_link firmware 4096 file 0 power_on
      (omega arith) (omega arith) ready-IsValid (omega arith) (omega (arith, capacity))

abbrev no_file : SglistFile
no_file = record { get_sglist_size = none; mmap_sglist = λ n. none }

unreadable : read_sglist no_file ≡ none
unfolding read_sglist
unreadable = refl

configure_buffer_descriptor_ram_unread_example :
    let result = configure_buffer_descriptor_ram board first_link 4096 no_file unread 0 power_on in
    (result.0.0 ≡ written) × (firmware.ram 0 0 result.1 ≡ empty_entry)
configure_buffer_descriptor_ram_unread_example =
    configure_buffer_descriptor_ram_unread board first_link firmware 4096 no_file unread 0 power_on
      refl unreadable (omega arith) (omega (arith, capacity)) (omega (arith, capacity))

-- Enabled, and busy for 200 microseconds.
abbrev working : ℕ → ℕ
working t = if ltb t 200 then 0x81 else 1

enabled : (get_enable (clocked working) first_link 0).0 ≡ 1
unfolding get_enable dma_config pci_reg
enabled = refl

idles :
    IdleAt
      (clocked working)
      first_link
      2
      (set_suspend (clocked working) first_link 1 (get_enable (clocked working) first_link 0).1).1
      200
unfolding get_dma_busy set_suspend get_enable dma_config set_dma_config pci_reg set_pci_reg
idles = (refl, (refl, refl))

disable_enabled_example :
    ((disable (clocked working) first_link 0).0 ≡ pos 0)
    × ((disable (clocked working) first_link 0).1
        ≡ (set_dma_config
            (clocked working)
            first_link
            2
            (wait_idle (clocked working) first_link 0).1).1)
disable_enabled_example = disable_enabled (clocked working) first_link 2 0 200 enabled idles

abbrev blank : ℕ → ℕ
blank a = 0

abbrev channel : DmaChannel
channel = record { pci_tag = 0; last_ebdm_offset = 0; last_rbdm_offset = 0; out_fifo_depth = 0 }

set_buffer_offsets_on_device-get_example :
    let (c', w') =
      set_buffer_offsets_on_device registers first_link 0x1_0000_0080 0x60 channel blank in
    (get_eb_offset registers first_link w' ≡ (0x1_0000_0080, w'))
    × (get_rb_offset registers first_link w' ≡ (0x60, w'))
set_buffer_offsets_on_device-get_example =
    set_buffer_offsets_on_device-get registers first_link registers-IsMemory (omega arith)
      0x1_0000_0080 0x60 channel blank (omega arith) (omega arith)

-- Two mappings that differ outside 64 bytes.
abbrev mapped : ℕ → Mapped ℕ
mapped outside = record {
  load32 = λ a w. (if ltb a 16 then w else outside, w);
  store32 = λ a v w. if ltb a 16 then v else outside;
  load16 = λ a w. (if ltb a 32 then w else outside, w);
  store16 = λ a v w. if ltb a 32 then v else outside;
  copy = λ a words w. w;
  sync = λ page w. w + page;
  elapse = λ n w. w;
}

agree : Agree 64 (mapped 1) (mapped 2)
agree = record {
  load32 = λ a w h. ground arith;
  store32 = λ a v w h. ground arith;
  load16 = λ a w h. ground arith;
  store16 = λ a v w h. ground arith;
}

bar_impl_hw-Agree_example :
    (hw_get32 (mapped 1) 64 4096 15 7 ≡ hw_get32 (mapped 2) 64 4096 15 7)
    × (hw_get16 (mapped 1) 64 4096 15 7 ≡ hw_get16 (mapped 2) 64 4096 15 7)
    × (hw_set32 (mapped 1) 64 4096 15 5 7 ≡ (
      tt,
      if ltb (4 * 15) 64
          then (mapped 1).sync (4 * (4 * 15 - 4 * 15 % 4096)) ((mapped 2).store32 15 (5 % 2 ^ 32) 7)
          else 7,
    ))
    × (hw_set16 (mapped 1) 64 4096 15 5 7 ≡ (
      tt,
      if ltb (2 * 15) 64
          then (mapped 1).sync (2 * (2 * 15 - 2 * 15 % 4096)) ((mapped 2).store16 15 (5 % 2 ^ 16) 7)
          else 7,
    ))
bar_impl_hw-Agree_example =
    bar_impl_hw-Agree 64 (mapped 1) (mapped 2) 15 5 7 agree refl (omega arith)

-- 64 pages: the last word of either width.
hw_set32_outside_example :
    ((page : ℕ) × (0x40000 ≤ page)
      × (hw_set32 (mapped 1) 0x40000 4096 0xffff 5 7
          ≡ (tt, (mapped 1).sync page ((mapped 1).store32 0xffff (5 % 2 ^ 32) 7))))
    × ((page : ℕ) × (0x40000 ≤ page)
        × (hw_set16 (mapped 1) 0x40000 4096 0x1ffff 5 7
            ≡ (tt, (mapped 1).sync page ((mapped 1).store16 0x1ffff (5 % 2 ^ 16) 7))))
hw_set32_outside_example =
    hw_set32_outside (mapped 1) 0x40000 0xffff 0x1ffff 5 7 (omega arith) (omega arith) (omega arith)
      (omega arith) (omega arith)
