-- ===== src/DmaChannel.antt =====
-- src/dma_channel.cpp and include/librorc/dma_channel.hh: a DMA channel of a link.
-- This file: the members of `dma_channel` and its control register.
pub mod Pointers
pub mod SgList
pub mod Configure
pub mod Control
pub mod Prepare
pub mod Ram
pub mod Load
pub mod Offsets
use alice_hlt_librorc.Base.{
  ℕ, zero, suc, ◌+◌, ◌-◌, ◌^◌, ◌==◌, Bool, true, false, bit_and, bit_or, not, if◌then◌else◌, u32,
  ◌<<<◌, ◌>>>◌,
}
use alice_hlt_librorc.Base.Int.{ℤ, pos, negsuc}
use alice_hlt_librorc.Base.State.{State, ◌>>=◌, ◌>>◌, pure}
use alice_hlt_librorc.Bar.{Bar}
use alice_hlt_librorc.Link.{Link, pci_reg, set_pci_reg}
use alice_hlt_librorc.Registers.{rorc_reg_dma_ctrl}

-- The members, less the link. `out_fifo_depth` is not set before `configure`.
pub record DmaChannel : Type 0 where
  pub pci_tag : ℕ
  pub last_ebdm_offset : ℕ
  pub last_rbdm_offset : ℕ
  pub out_fifo_depth : ℕ

-- The constructor sets the tag alone; what the other members hold before is arbitrary.
unfoldable pub new_dma_channel : Link → DmaChannel → DmaChannel
new_dma_channel l fresh = record fresh { pci_tag = u32 (l.link_number <<< 16) }

abbrev pub dma_channel_timeout : ℕ
dma_channel_timeout = 10000

abbrev pub enable_bit : ℕ
enable_bit = 0

abbrev pub fifo_reset_bit : ℕ
fifo_reset_bit = 1

abbrev pub ebdm_enable_bit : ℕ
ebdm_enable_bit = 2

abbrev pub rbdm_enable_bit : ℕ
rbdm_enable_bit = 3

abbrev pub busy_bit : ℕ
busy_bit = 7

abbrev pub suspend_bit : ℕ
suspend_bit = 10

abbrev pub sync_swrdptrs_bit : ℕ
sync_swrdptrs_bit = 31

-- `~(1 << k)` as a `uint32_t`.
abbrev pub clear_mask : ℕ → ℕ
clear_mask k = 2 ^ 32 - 1 - 2 ^ k

module _ {W : Type 0} (bar : Bar W) (l : Link) where
  unfoldable pub dma_config : State W ℕ
  dma_config = pci_reg bar l rorc_reg_dma_ctrl

  unfoldable pub set_dma_config : ℕ → State W (Unit {0})
  set_dma_config config = set_pci_reg bar l rorc_reg_dma_ctrl config

  unfoldable pub enable : State W (Unit {0})
  enable = do
    cfg ← dma_config
    let bits = bit_or (bit_or (2 ^ ebdm_enable_bit) (2 ^ rbdm_enable_bit)) (2 ^ enable_bit)
    set_dma_config (bit_or cfg bits)

  unfoldable pub get_enable : State W ℕ
  get_enable = do cfg ← dma_config; pure (bit_and (cfg >>> enable_bit) 1)

  unfoldable pub get_dma_busy : State W ℕ
  get_dma_busy = do cfg ← dma_config; pure (bit_and (cfg >>> busy_bit) 1)

  unfoldable pub set_ebdm_enable : ℕ → State W (Unit {0})
  set_ebdm_enable value = do
    cfg ← dma_config
    let cleared = bit_and cfg (clear_mask ebdm_enable_bit)
    set_dma_config (bit_or cleared (bit_and value 1 <<< ebdm_enable_bit))

  unfoldable pub set_rbdm_enable : ℕ → State W (Unit {0})
  set_rbdm_enable value = do
    cfg ← dma_config
    let cleared = bit_and cfg (clear_mask rbdm_enable_bit)
    set_dma_config (bit_or cleared (bit_and value 1 <<< rbdm_enable_bit))

  unfoldable pub set_suspend : ℕ → State W (Unit {0})
  set_suspend value = do
    cfg ← dma_config
    let cleared = bit_and cfg (clear_mask suspend_bit)
    set_dma_config (bit_or cleared (bit_and value 1 <<< suspend_bit))

  unfoldable pub get_suspend : State W ℕ
  get_suspend = do cfg ← dma_config; pure (bit_and (cfg >>> suspend_bit) 1)

  -- The loop of `disable`: the timeout that is left.
  unfoldable pub busy_loop : ℕ → State W ℕ
  busy_loop zero w = (0, w)
  busy_loop (suc timeout) w =
      let (busy, w') = get_dma_busy w in
      elim (busy == 0) [
        | true ↦ (suc timeout, w')
        | false ↦ let (_, slept) = bar.usleep 100 w' in busy_loop timeout slept
      ]

  -- The part of `disable` before the reset: the timeout that is left.
  unfoldable pub wait_idle : State W ℕ
  wait_idle w =
      let (enabled, w') = get_enable w in
      elim (enabled == 0) [
        | true ↦ (dma_channel_timeout, w')
        | false ↦ let (_, w'') = set_suspend 1 w' in busy_loop dma_channel_timeout w''
      ]

  unfoldable pub disable : State W ℤ
  disable = do
    timeout ← wait_idle
    set_dma_config (2 ^ fifo_reset_bit)
    pure (if timeout == 0 then negsuc 0 else pos 0)

  unfoldable pub ptr_stall_flags : State W ℕ
  ptr_stall_flags = do cfg ← dma_config; pure (bit_and (cfg >>> 11) 3)

  unfoldable pub read_and_clear_ptr_stall_flags : State W ℕ
  read_and_clear_ptr_stall_flags w =
      let (cfg, w') = dma_config w in
      let flags = bit_and (cfg >>> 11) 3 in
      if flags == 0
      then (flags, w')
      else (let (_, w'') = set_dma_config (bit_or cfg (3 <<< 11)) w' in (flags, w''))

  -- Bit `k` of the control register, as the four flags of the output FIFO read it.
  dma_flag : ℕ → State W Bool
  dma_flag k = do cfg ← dma_config; pure (not (bit_and (cfg >>> k) 1 == 0))

  unfoldable pub eoe_in_fifo : State W Bool
  unfolding dma_flag
  eoe_in_fifo = dma_flag 4

  unfoldable pub fifo_empty : State W Bool
  unfolding dma_flag
  fifo_empty = dma_flag 5

  unfoldable pub fifo_almost_empty : State W Bool
  unfolding dma_flag
  fifo_almost_empty = dma_flag 6

  unfoldable pub fifo_underrun : State W Bool
  unfolding dma_flag
  fifo_underrun = dma_flag 13

  unfoldable pub clear_fifo_underrun_flag : State W (Unit {0})
  clear_fifo_underrun_flag = do cfg ← dma_config; set_dma_config (bit_or cfg (2 ^ 13))
