-- ===== src/Tests/FlashTests.antt =====
-- Flash chips that get ready, that do not, and that hold an FPGA configuration.
use alice_hlt_librorc.Base.{
  ℕ, ◌+◌, ◌-◌, ◌/◌, ◌%◌, ◌*◌, ◌^◌, ◌≡◌, ◌==◌, refl, true, [], ◌∷◌, some, arith, ltb, if◌then◌else◌,
}
use alice_hlt_librorc.Base.Int.{pos}
use alice_hlt_librorc.Bar.{Bar}
use alice_hlt_librorc.Flash.{
  Flash, is_erasing, is_busy, get, send_command, clear_status_register, get_status_register,
  reset_block, erase_block, unlock_block, set_lock, unless_timeout, wait_loop,
  get_block_lock_configuration,
}
use alice_hlt_librorc.Flash.Layout.{
  FlashArchitecture, get_flash_architecture, Describes, get_flash_architecture-Describes,
}
use alice_hlt_librorc.Flash.Chip.{reset_chip, erase, erase_one}
use alice_hlt_librorc.Flash.Blocks.{
  reset_blocks, erase_blocks, blocks_for, reset_chip-reset_blocks, erase-erase_blocks,
}
use alice_hlt_librorc.Flash.Program.{FlashFile, words_read, flash_write, find_fpga_sync_word}
use alice_hlt_librorc.Flash.SyncWord.{
  Holds, first_sync, second_half, find_fpga_sync_word-first_sync,
}
use alice_hlt_librorc.Flash.Wait.{
  SettlesAt, erasing, unlocking, erase_block_silent, flash_write_erased,
}
use alice_hlt_librorc.Tests.Device.{clocked}

abbrev chip : Flash
chip = record { base_addr = 0x800000; chip_select = 1 }

get_flash_architecture-Describes_example :
    (arch : FlashArchitecture) × (get_flash_architecture 0x7f4001 ≡ some arch)
    × Describes 0x7f4001 arch
get_flash_architecture-Describes_example = get_flash_architecture-Describes 0x7f4001 (omega arith)

-- Busy for 200 microseconds.
abbrev settling : ℕ → ℕ
settling t = if ltb t 200 then 0 else 0x80

reset_chip-reset_blocks_example : reset_chip (clocked settling) chip 0 ≡ (
  some (reset_blocks (clocked settling) chip 131 0 0).0,
  (reset_blocks (clocked settling) chip 131 0 0).1,
)
reset_chip-reset_blocks_example = reset_chip-reset_blocks (clocked settling) chip 0

erase-erase_blocks_example : erase (clocked settling) chip 0x30000 0 ≡ (
  some (erase_blocks (clocked settling) chip (blocks_for 0x30000) 0 0).0,
  (erase_blocks (clocked settling) chip (blocks_for 0x30000) 0 0).1,
)
erase-erase_blocks_example = erase-erase_blocks (clocked settling) chip 0x30000 0 (omega arith)

erase_settles :
    SettlesAt
      (clocked settling)
      chip
      is_erasing
      (get (clocked settling) chip 0x10000)
      2
      (erasing (clocked settling) chip 0x10000 0)
      200
unfolding get send_command
erase_settles = (refl, (refl, (refl, refl)))

unlock_settles :
    SettlesAt
      (clocked settling)
      chip
      is_busy
      (get_status_register (clocked settling) chip 0x10000)
      2
      (unlocking (clocked settling) chip 0x10000 0)
      200
unfolding get send_command get_status_register clear_status_register
unlock_settles = (refl, (refl, (refl, refl)))

no_answer : (t : ℕ) → (get (clocked (λ t. 0)) chip 0x10000 t).0 ≡ 0
unfolding get
no_answer t = refl

erase_block_silent_example : (erase_block (clocked (λ t. 0)) chip 0x10000 0).0 ≡ pos 0
erase_block_silent_example = erase_block_silent (clocked (λ t. 0)) chip 0x10000 0 no_answer

-- The chip reads 0x80 everywhere, which is not what the file holds.
abbrev bitfile : FlashFile
bitfile = record { size = some 4; opens = true; chunks = words_read (0x1234 ∷ 0x5678 ∷ []) ∷ [] }

erases : (erase (clocked (λ t. 0x80)) chip 4 0).0 ≡ some (pos 0)
unfolding erase erase_one get_flash_architecture get_block_lock_configuration unlock_block set_lock
    erase_block unless_timeout wait_loop get send_command get_status_register clear_status_register
    reset_block
erases = refl

flash_write_erased_example : (flash_write (clocked (λ t. 0x80)) chip bitfile 0).0 ≡ some (pos 0)
flash_write_erased_example =
    flash_write_erased (clocked (λ t. 0x80)) chip bitfile 4 0 refl refl (tt, tt) erases

-- The synchronisation word stands at word 3.
abbrev content : ℕ → ℕ
content a = if a == 3 then 0x5599 else if a == 4 then 0xaa66 else 0xffff

abbrev holding : Bar ℕ
holding = record (clocked (λ t. 0)) { get16 = λ a w. (content (a - 0x800000), w) }

holding-Holds : Holds holding chip (λ a. content ((0x800000 + a) % 2 ^ 32 - 0x800000))
unfolding get
holding-Holds = record { reads = λ a w. refl; words = λ a. ground arith }

find_fpga_sync_word-first_sync_example : find_fpga_sync_word holding chip 0 32 0 ≡ (
  some (
      second_half (
        first_sync
          (λ a. content ((0x800000 + a) % 2 ^ 32 - 0x800000))
          (0 / 2)
          ((0 + 32 / 2 * 2 + 1) / 2 - 0 / 2 - 1))),
  0,
)
find_fpga_sync_word-first_sync_example =
    find_fpga_sync_word-first_sync holding chip (λ a. content ((0x800000 + a) % 2 ^ 32 - 0x800000))
      holding-Holds 0 32 0 (omega arith) (omega arith)
