-- ===== src/Flash.antt =====
-- src/flash.cpp and include/librorc/flash.hh: the flash chips that hold the FPGA's configuration,
-- on a `Bar` of 16-bit words. This file: the commands on one block.
pub mod Layout
pub mod Chip
pub mod Blocks
pub mod Program
pub mod SyncWord
pub mod Wait
use alice_hlt_librorc.Base.{
  ℕ, zero, suc, ◌+◌, ◌-◌, ◌*◌, ◌^◌, ◌==◌, Bool, true, false, ◌||◌, not, Option, none, some, bit_and,
  leb, if◌then◌else◌, u16, u32, ◌<<<◌, ◌>>>◌,
}
use alice_hlt_librorc.Base.Int.{ℤ, pos, neg}
use alice_hlt_librorc.Base.State.{State, ◌>>=◌, ◌>>◌, pure}
use alice_hlt_librorc.Bar.{Bar}

pub record Flash : Type 0 where
  pub base_addr : ℕ
  pub chip_select : ℕ

-- `none` is the exception for a chip that is not there.
unfoldable pub new_flash : ℕ → Option Flash
new_flash chip_select =
    if leb chip_select 1
    then some (record { base_addr = u32 (chip_select <<< 23); chip_select = chip_select })
    else none

abbrev pub cmd_read_array : ℕ
cmd_read_array = 0xffff

abbrev pub cmd_reset : ℕ
cmd_reset = 0xf0f0

abbrev pub cmd_read_identifier : ℕ
cmd_read_identifier = 0x9090

abbrev pub cmd_read_status : ℕ
cmd_read_status = 0x7070

abbrev pub cmd_block_erase_setup : ℕ
cmd_block_erase_setup = 0x2020

abbrev pub cmd_confirm : ℕ
cmd_confirm = 0xd0d0

abbrev pub cmd_prog_erase_suspend : ℕ
cmd_prog_erase_suspend = 0xb0b0

abbrev pub cmd_block_lock_setup : ℕ
cmd_block_lock_setup = 0x6060

abbrev pub cmd_block_lock_confirm : ℕ
cmd_block_lock_confirm = 0x0101

abbrev pub cmd_buffer_prog : ℕ
cmd_buffer_prog = 0xe8e8

abbrev pub cmd_cfg_reg_confirm : ℕ
cmd_cfg_reg_confirm = 0x0303

abbrev pub cmd_clr_sts : ℕ
cmd_clr_sts = 0x5050

abbrev pub cmd_bc_setup : ℕ
cmd_bc_setup = 0xbcbc

abbrev pub cmd_bc_confirm : ℕ
cmd_bc_confirm = 0xcbcb

abbrev pub cfg_flash_timeout : ℕ
cfg_flash_timeout = 0x10000

-- Bit 7 of the status: the chip is ready.
abbrev pub flash_pec_busy : ℕ
flash_pec_busy = 2 ^ 7

abbrev pub is_busy : ℕ → Bool
is_busy status = bit_and status flash_pec_busy == 0

-- `eraseBlock` takes a status of all ones for busy as well.
abbrev pub is_erasing : ℕ → Bool
is_erasing status = is_busy status || status == 0xffff

-- How a loop that waits for a status ends.
pub data Waited : Type 0 where
  ready : ℕ → Waited
  timed_out : ℕ → Waited

module _ {W : Type 0} (bar : Bar W) (f : Flash) where
  unfoldable pub send_command : ℕ → ℕ → State W (Unit {0})
  send_command addr cmd = bar.set16 (u32 (f.base_addr + addr)) cmd

  unfoldable pub get : ℕ → State W ℕ
  get addr = bar.get16 (u32 (f.base_addr + addr))

  unfoldable pub get_status_register : ℕ → State W ℕ
  get_status_register blkaddr = do send_command blkaddr cmd_read_status; get blkaddr

  unfoldable pub clear_status_register : ℕ → State W (Unit {0})
  clear_status_register blkaddr = send_command blkaddr cmd_clr_sts

  unfoldable pub reset_block : ℕ → State W ℕ
  reset_block blkaddr = do
    clear_status_register blkaddr
    status ← get_status_register blkaddr
    send_command blkaddr cmd_reset
    send_command blkaddr cmd_read_array
    pure status

  -- The four identifiers: a word is read in identifier mode, which `resetBlock` ends.
  identifier : ℕ → ℕ → State W ℕ
  identifier blkaddr addr = do
    send_command blkaddr cmd_read_identifier
    code ← get addr
    _ ← reset_block 0
    pure code

  unfoldable pub get_manufacturer_code : State W ℕ
  unfolding identifier
  get_manufacturer_code = identifier 0 0

  unfoldable pub get_device_id : State W ℕ
  unfolding identifier
  get_device_id = identifier 0 1

  unfoldable pub get_block_lock_configuration : ℕ → State W ℕ
  unfolding identifier
  get_block_lock_configuration blkaddr = identifier blkaddr (u32 (blkaddr + 2))

  unfoldable pub get_read_configuration_register : State W ℕ
  unfolding identifier
  get_read_configuration_register = identifier 0 5

  -- The loop that five operations have: sleep and read the status until it is not busy.
  unfoldable pub wait_loop : (ℕ → Bool) → State W ℕ → ℕ → ℕ → State W Waited
  wait_loop busy poll zero status w = (timed_out status, w)
  wait_loop busy poll (suc timeout) status w = elim (busy status) [
    | true ↦
        let (_, slept) = bar.usleep 100 w in
        let (status', w') = poll slept in wait_loop busy poll timeout status' w'
    | false ↦ (ready status, w)
  ]

  -- After the loop: -status on a timeout, and else the rest of the operation.
  unfoldable pub unless_timeout : Waited → (ℕ → State W ℤ) → State W ℤ
  unless_timeout (ready status) rest = rest status
  unless_timeout (timed_out status) rest = pure (neg status)

  unfoldable pub erase_block : ℕ → State W ℤ
  erase_block blkaddr = do
    send_command blkaddr cmd_block_erase_setup
    send_command blkaddr cmd_confirm
    status ← get blkaddr
    result ← wait_loop is_erasing (get blkaddr) cfg_flash_timeout status
    unless_timeout result (λ _. do _ ← reset_block blkaddr; pure (pos 0))

  -- `lockBlock` and `unlockBlock` differ in the second command.
  unfoldable pub set_lock : ℕ → ℕ → State W ℤ
  set_lock confirm blkaddr = do
    clear_status_register blkaddr
    send_command blkaddr cmd_block_lock_setup
    send_command blkaddr confirm
    status ← get_status_register blkaddr
    result ← wait_loop is_busy (get_status_register blkaddr) cfg_flash_timeout status
    unless_timeout result
        (λ _. do clear_status_register blkaddr; _ ← reset_block blkaddr; pure (pos 0))

  unfoldable pub lock_block : ℕ → State W ℤ
  lock_block = set_lock cmd_block_lock_confirm

  unfoldable pub unlock_block : ℕ → State W ℤ
  unlock_block = set_lock cmd_confirm

  -- 1 is an empty block, 0 one that is not.
  unfoldable pub blank_check : ℕ → State W ℤ
  blank_check blkaddr = do
    send_command blkaddr cmd_bc_setup
    send_command blkaddr cmd_bc_confirm
    status ← get blkaddr
    result ← wait_loop is_busy (get blkaddr) cfg_flash_timeout status
    unless_timeout result (λ last. do
      clear_status_register blkaddr
      pure (pos (if bit_and (last >>> 5) 1 == 0 then 1 else 0)))

  unfoldable pub program_suspend : ℕ → State W (Unit {0})
  program_suspend blkaddr = send_command blkaddr cmd_prog_erase_suspend

  unfoldable pub program_resume : ℕ → State W (Unit {0})
  program_resume blkaddr = send_command blkaddr cmd_confirm

  unfoldable pub set_config_reg : ℕ → State W (Unit {0})
  set_config_reg value = do
    bar.set16 (u32 (f.base_addr + value)) cmd_block_lock_setup
    bar.set16 (u32 (f.base_addr + value)) cmd_cfg_reg_confirm

  unfoldable pub set_asynchronous_read_mode : State W (Unit {0})
  set_asynchronous_read_mode = set_config_reg 0xbddf
