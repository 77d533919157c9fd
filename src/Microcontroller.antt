-- ===== src/Microcontroller.antt =====
-- src/microcontroller.cpp and include/librorc/microcontroller.hh: the microcontroller of a board is
-- programmed by commands over a serial interface (SPI).
pub mod Commands
use alice_hlt_librorc.Base.{
  ℕ, zero, suc, ◌+◌, ◌-◌, ◌*◌, ◌%◌, ◌^◌, ◌==◌, Bool, true, false, Option, none, some, List, [], ◌∷◌,
  bit_and, bit_or, u32, if◌then◌else◌, ◌<<<◌, ◌>>>◌,
}
use alice_hlt_librorc.Base.Fallible.{Fallible, ◌>>=◌, ◌>>◌, pure, throw, lift, thrown, returned}
use alice_hlt_librorc.Bar.{Bar}
use alice_hlt_librorc.Registers.{
  rorc_reg_uc_spi_data, rorc_reg_uc_spi_ctrl, rorc_cfg_timeout_pattern,
}

abbrev pub uc_spi_prescaler : ℕ
uc_spi_prescaler = 1000

abbrev pub uc_spi_prog_enable : ℕ
uc_spi_prog_enable = 0xac53_0000

abbrev pub uc_spi_read_sig : ℕ
uc_spi_read_sig = 0x3000_0000

abbrev pub uc_spi_erase_chip : ℕ
uc_spi_erase_chip = 0xac80_0000

abbrev pub uc_spi_ext_addr : ℕ
uc_spi_ext_addr = 0x4d00_0000

abbrev pub uc_spi_prog_high : ℕ
uc_spi_prog_high = 0x4800_0000

abbrev pub uc_spi_prog_low : ℕ
uc_spi_prog_low = 0x4000_0000

abbrev pub uc_spi_write_page : ℕ
uc_spi_write_page = 0x4c00_0000

abbrev pub uc_spi_read_low : ℕ
uc_spi_read_low = 0x2000_0000

abbrev pub uc_spi_read_high : ℕ
uc_spi_read_high = 0x2800_0000

-- In words.
abbrev pub uc_spi_pagesize : ℕ
uc_spi_pagesize = 64

-- The exceptions LIBRORC_UC_*.
pub data UcError : Type 0 where
  spi_not_implemented send_cmd_timeout prog_mode_failed file_error : UcError

-- The file to program: whether it opens, its size if `fstat` gives it, and the words of each `read`
-- of a page, none of which fails.
pub record UcFile : Type 0 where
  pub opens : Bool
  pub size : Option ℕ
  pub pages : List (List ℕ)

-- `load_mem_page` sends these two commands.
unfoldable pub low_command : ℕ → ℕ → ℕ
low_command addr value = bit_or (bit_or uc_spi_prog_low (u32 (addr <<< 8))) (bit_and value 0xff)

unfoldable pub high_command : ℕ → ℕ → ℕ
high_command addr value =
    bit_or (bit_or uc_spi_prog_high (u32 (addr <<< 8))) (bit_and (value >>> 8) 0xff)

unfoldable pub page_command : ℕ → ℕ
page_command addr = bit_or uc_spi_write_page (u32 (addr <<< 8))

module _ {W : Type 0} (bar : Bar W) where
  unfoldable pub configure_spi : Fallible UcError W (Unit {0})
  configure_spi = do
    ctrl ← lift (bar.get32 rorc_reg_uc_spi_ctrl)
    if ctrl == rorc_cfg_timeout_pattern
        then throw spi_not_implemented
        else lift (bar.set32 rorc_reg_uc_spi_ctrl uc_spi_prescaler)

  unfoldable pub set_reset : ℕ → Fallible UcError W (Unit {0})
  set_reset rstval = do
    ucctrl ← lift (bar.get32 rorc_reg_uc_spi_ctrl)
    lift (
        bar.set32 rorc_reg_uc_spi_ctrl (
          if rstval == 0
          then bit_or ucctrl (1 <<< 30)
          else bit_and ucctrl (2 ^ 32 - 1 - (1 <<< 30))))
    lift (bar.usleep 20000)

  -- The wait in `send_command`.
  unfoldable pub ce_loop : ℕ → Fallible UcError W (Unit {0})
  ce_loop zero w =
      let (ctrl, w') = bar.get32 rorc_reg_uc_spi_ctrl w in
      if bit_and ctrl (1 <<< 31) == 0 then (returned tt, w') else (thrown send_cmd_timeout, w')
  ce_loop (suc timeout) w =
      let (ctrl, w') = bar.get32 rorc_reg_uc_spi_ctrl w in
      elim (bit_and ctrl (1 <<< 31) == 0) [
        | true ↦ (returned tt, w')
        | false ↦ ce_loop timeout (bar.usleep 100 w').1
      ]

  unfoldable pub send_command : ℕ → Fallible UcError W ℕ
  send_command cmd = do
    lift (bar.set32 rorc_reg_uc_spi_data cmd)
    ce_loop 10000
    lift (bar.get32 rorc_reg_uc_spi_data)

  unfoldable pub enter_prog_mode : Fallible UcError W (Unit {0})
  enter_prog_mode = do
    result ← send_command uc_spi_prog_enable
    if bit_and result 0xff00 == 0x5300 then pure tt else throw prog_mode_failed

  unfoldable pub read_device_signature : Fallible UcError W ℕ
  read_device_signature = do
    sig0 ← send_command (bit_or uc_spi_read_sig (0 <<< 8))
    sig1 ← send_command (bit_or uc_spi_read_sig (1 <<< 8))
    sig2 ← send_command (bit_or uc_spi_read_sig (2 <<< 8))
    pure (
        (bit_and sig0 0xff <<< 8 * 0)
        + (bit_and sig1 0xff <<< 8 * 1)
        + (bit_and sig2 0xff <<< 8 * 2))

  -- Named so in the source.
  unfoldable pub earse_chip : Fallible UcError W (Unit {0})
  earse_chip = do
    set_reset 1
    enter_prog_mode
    erased ← send_command uc_spi_erase_chip
    lift (bar.usleep 9000)
    set_reset 0

  unfoldable pub load_extended_addr : ℕ → Fallible UcError W (Unit {0})
  load_extended_addr addr = do
    answer ← send_command (bit_or uc_spi_ext_addr (bit_and addr 0xff <<< 8))
    pure tt

  unfoldable pub load_mem_page : ℕ → ℕ → Fallible UcError W (Unit {0})
  load_mem_page addr value = do
    low ← send_command (low_command addr value)
    high ← send_command (high_command addr value)
    pure tt

  unfoldable pub read_mem_page : ℕ → Fallible UcError W ℕ
  read_mem_page addr = do
    low ← send_command (bit_or uc_spi_read_low (u32 (addr <<< 8)))
    high ← send_command (bit_or uc_spi_read_high (u32 (addr <<< 8)))
    pure (bit_or (bit_and low 0xff) (bit_and high 0xff <<< 8))

  unfoldable pub prog_mem_page : ℕ → Fallible UcError W (Unit {0})
  prog_mem_page addr = do answer ← send_command (page_command addr); lift (bar.usleep 4500)

  -- The words of one page, from index `i` on.
  unfoldable pub load_words : ℕ → List ℕ → Fallible UcError W (Unit {0})
  load_words i [] = pure tt
  load_words i (word ∷ words) = do load_mem_page i word; load_words (suc i) words

  unfoldable pub program_pages : ℕ → List (List ℕ) → Fallible UcError W (Unit {0})
  program_pages addr [] = pure tt
  program_pages addr (page ∷ pages) = do
    load_words 0 page
    prog_mem_page addr
    program_pages (u32 (addr + uc_spi_pagesize)) pages

  unfoldable pub program_opened : List (List ℕ) → Fallible UcError W (Unit {0})
  program_opened pages = do
    configure_spi
    earse_chip
    set_reset 1
    enter_prog_mode
    load_extended_addr 0
    program_pages 0 pages
    set_reset 0

  unfoldable pub program_from_file : UcFile → Fallible UcError W (Unit {0})
  program_from_file file = elim file.opens [
    | false ↦ throw file_error
    | true ↦ elim file.size [
      | none ↦ throw file_error
      | some size ↦ if size % 2 == 0 then program_opened file.pages else throw file_error
    ]
  ]
