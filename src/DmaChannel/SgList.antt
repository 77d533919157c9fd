-- ===== src/DmaChannel/SgList.antt =====
-- The scatter-gather entries that src/dma_channel.cpp prepares and hands to the firmware.
use alice_hlt_librorc.Base.{
  ℕ, zero, suc, ◌+◌, ◌^◌, ◌==◌, List, [], ◌∷◌, ◌++◌, Option, none, some, true, false, bit_and,
  bit_or, leb, length, if◌then◌else◌, u32, u64, sub64, ◌<<<◌, ◌>>>◌,
}
use alice_hlt_librorc.Base.State.{State, ◌>>=◌, ◌>>◌, pure}
use alice_hlt_librorc.Bar.{Bar}
use alice_hlt_librorc.Buffer.{ScatterGatherEntry, Buffer, SglistFile, sg_list}
use alice_hlt_librorc.Link.{Link, pci_reg, set_pci_reg, memcopy}
use alice_hlt_librorc.Registers.{
  rorc_reg_sgentry_addr_low, rorc_reg_sgentry_addr_high, rorc_reg_sgentry_len,
  rorc_reg_sgentry_ctrl,
}
use alice_hlt_librorc.DmaChannel.Pointers.{
  low_word, high_word, get_ebdm_max_sg_entries, get_rbdm_max_sg_entries,
}

-- The length of a piece that is cut off a segment of more than 32 bits.
abbrev pub piece : ℕ → ℕ
piece page_size = sub64 (2 ^ 32) page_size

-- The inner loop of `prepareSgList` and the entry after it; `none` if the fuel ends first.
unfoldable pub split_loop : ℕ → ℕ → ℕ → ℕ → Option (List ScatterGatherEntry)
split_loop zero page_size cur_offset rem_size = none
split_loop (suc fuel) page_size cur_offset rem_size = elim (rem_size >>> 32 == 0) [
  | true ↦ some (record { pointer = cur_offset; length = rem_size } ∷ [])
  | false ↦
      elim (split_loop fuel page_size (u64 (cur_offset + piece page_size))
        (sub64 rem_size (piece page_size))) [
          | none ↦ none
          | some rest ↦ some (record { pointer = cur_offset; length = piece page_size } ∷ rest)
        ]
]

-- Each round of the inner loop takes at least one byte.
unfoldable pub prepare_sg_list : ℕ → List ScatterGatherEntry → Option (List ScatterGatherEntry)
prepare_sg_list page_size [] = some []
prepare_sg_list page_size (e ∷ es) = elim (split_loop (suc e.length) page_size e.pointer e.length) [
  | none ↦ none
  | some pieces ↦ elim (prepare_sg_list page_size es) [
    | none ↦ none
    | some rest ↦ some (pieces ++ rest)
  ]
]

abbrev pub sgctrl_write_enable : ℕ
sgctrl_write_enable = 2 ^ 31

abbrev pub sgctrl_target_ebdmram : ℕ
sgctrl_target_ebdmram = 0

abbrev pub sgctrl_target_rbdmram : ℕ
sgctrl_target_rbdmram = 2 ^ 30

abbrev pub sgctrl_eoe_flag : ℕ
sgctrl_eoe_flag = 1

-- The control word of an entry of the descriptor RAM.
unfoldable pub ram_ctrl : ℕ → ℕ → ℕ
ram_ctrl target_ram entry_addr =
    bit_or (bit_or sgctrl_write_enable entry_addr)
      (if target_ram == 0 then sgctrl_target_ebdmram else sgctrl_target_rbdmram)

-- The control word of an entry of an announced event.
unfoldable pub event_ctrl : List ScatterGatherEntry → ℕ
event_ctrl [] = bit_or (bit_or sgctrl_write_enable sgctrl_target_ebdmram) sgctrl_eoe_flag
event_ctrl (_ ∷ _) = bit_or sgctrl_write_enable sgctrl_target_ebdmram

-- What `configureBufferDescriptorRam` returns; the last is of the model alone.
pub data RamResult : Type 0 where
  written efbig out_of_fuel : RamResult

module _ {W : Type 0} (bar : Bar W) (l : Link) where
  unfoldable pub push_sglist_entry_to_ram : ℕ → ℕ → ℕ → State W (Unit {0})
  push_sglist_entry_to_ram sg_addr sg_len ctrl = do
    memcopy bar l rorc_reg_sgentry_addr_low
        (low_word sg_addr ∷ high_word sg_addr ∷ low_word sg_len ∷ [])
    set_pci_reg bar l rorc_reg_sgentry_ctrl ctrl

  -- The loop of `configureBufferDescriptorRam`, and the trailing entry after it.
  unfoldable pub write_entries : ℕ → ℕ → List ScatterGatherEntry → State W (Unit {0})
  write_entries target_ram entry_addr [] =
      push_sglist_entry_to_ram 0 0 (ram_ctrl target_ram entry_addr)
  write_entries target_ram entry_addr (e ∷ es) = do
    push_sglist_entry_to_ram e.pointer (u32 e.length) (ram_ctrl target_ram entry_addr)
    write_entries target_ram (u32 (entry_addr + 1)) es

  -- What follows once the list is prepared.
  unfoldable pub write_prepared : ℕ → ℕ → Option (List ScatterGatherEntry) → State W RamResult
  write_prepared target_ram max_num_sg none w = (out_of_fuel, w)
  write_prepared target_ram max_num_sg (some prepared) w =
      if leb max_num_sg (length prepared)
      then (efbig, w)
      else (let (_, w') = write_entries target_ram 0 prepared w in (written, w'))

  unfoldable pub configure_buffer_descriptor_ram :
      ℕ → SglistFile → Buffer → ℕ → State W (RamResult × Buffer)
  configure_buffer_descriptor_ram page_size file buf target_ram = do
    max_num_sg ←
        (if target_ram == 0 then get_ebdm_max_sg_entries bar l else get_rbdm_max_sg_entries bar l)
    let listed = sg_list file buf
    result ← write_prepared target_ram max_num_sg (prepare_sg_list page_size listed.1)
    pure (result, listed.0)

  unfoldable pub announce_event : List ScatterGatherEntry → State W (Unit {0})
  announce_event [] = pure tt
  announce_event (e ∷ es) = do
    push_sglist_entry_to_ram e.pointer (u32 e.length) (event_ctrl es)
    announce_event es

  -- The address and the length of an entry of the selected RAM.
  unfoldable pub read_sg_list_entry : ℕ → ℕ → State W (ℕ × ℕ)
  read_sg_list_entry ram_sel addr = do
    set_pci_reg bar l rorc_reg_sgentry_ctrl (bit_or (bit_and ram_sel 1 <<< 30) addr)
    high ← pci_reg bar l rorc_reg_sgentry_addr_high
    low ← pci_reg bar l rorc_reg_sgentry_addr_low
    len ← pci_reg bar l rorc_reg_sgentry_len
    pure (bit_or (high <<< 32) low, len)
