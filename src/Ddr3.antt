-- ===== src/Ddr3.antt =====
-- src/ddr3.cpp and include/librorc/ddr3.hh: the status of the two DDR3 controllers.
pub mod Status
use alice_hlt_librorc.Base.{
  ℕ, ◌+◌, ◌-◌, ◌*◌, ◌^◌, ◌==◌, Bool, not, bit_and, bit_or, if◌then◌else◌, u16, u32, sub32, ◌<<<◌,
  ◌>>>◌,
}
use alice_hlt_librorc.Base.State.{State, ◌>>=◌, pure}
use alice_hlt_librorc.Bar.{Bar}
use alice_hlt_librorc.Registers.{
  rorc_reg_ddr3_ctrl, rorc_reg_ddr3_c0_tester_rdcnt, rorc_reg_ddr3_c0_tester_wrcnt,
  rorc_reg_ddr3_c1_tester_rdcnt, rorc_reg_ddr3_c1_tester_wrcnt,
}

-- The bits LIBRORC_DDR3_*.
abbrev pub librorc_ddr3_tg_error : ℕ
librorc_ddr3_tg_error = 15

abbrev pub successful_mask : ℕ
successful_mask = 2 ^ 0 + 2 ^ 1 + 2 ^ 2 + 2 ^ 3 + 2 ^ 4 + 2 ^ 5 + 2 ^ 7 + 2 ^ 8

abbrev pub successful_value : ℕ
successful_value = 2 ^ 1 + 2 ^ 2 + 2 ^ 3 + 2 ^ 4 + 2 ^ 7

abbrev pub phase_done_mask : ℕ
phase_done_mask = 2 ^ 0 + 2 ^ 1 + 2 ^ 2 + 2 ^ 4 + 2 ^ 7

abbrev pub phase_done_value : ℕ
phase_done_value = 2 ^ 1 + 2 ^ 2 + 2 ^ 4 + 2 ^ 7

pub record Ddr3 : Type 0 where
  pub id : ℕ
  pub offset : ℕ

unfoldable pub new_ddr3 : ℕ → Ddr3
new_ddr3 module_id = record { id = bit_and module_id 1; offset = bit_and module_id 1 * 16 }

-- The `switch` of `getBitrate`.
unfoldable pub bitrate_of : ℕ → ℕ
bitrate_of code =
    if code == 1 then 606 else if code == 2 then 800 else if code == 3 then 1066 else 0

-- `8 * (1 << addr_width)` of a uint32_t; the shift is of an `int`.
unfoldable pub module_size : ℕ → ℕ → ℕ
module_size width_code rank_bit =
    let addr_width = 32 - width_code in
    let nranks = rank_bit + 1 in
    let width = if nranks == 1 then addr_width - 1 else addr_width in u32 (8 * 2 ^ width)

unfoldable pub is_successful : ℕ → Bool
is_successful controller_status = bit_and controller_status successful_mask == successful_value

unfoldable pub is_phase_done : ℕ → Bool
is_phase_done controller_status = bit_and controller_status phase_done_mask == phase_done_value

module _ {W : Type 0} (bar : Bar W) (d : Ddr3) where
  unfoldable pub set_reset : ℕ → State W (Unit {0})
  set_reset value = do
    ddrctrl ← bar.get32 rorc_reg_ddr3_ctrl
    let cleared = bit_and ddrctrl (2 ^ 32 - 1 - (1 <<< d.offset))
    bar.set32 rorc_reg_ddr3_ctrl (bit_or cleared (bit_and value 1 <<< d.offset))

  unfoldable pub get_reset : State W ℕ
  get_reset = do ddrctrl ← bar.get32 rorc_reg_ddr3_ctrl; pure (bit_and (ddrctrl >>> d.offset) 1)

  unfoldable pub get_bitrate : State W ℕ
  get_bitrate = do
    ddr3ctrl ← bar.get32 rorc_reg_ddr3_ctrl
    pure (bitrate_of (bit_and (ddr3ctrl >>> (d.offset + 9)) 3))

  unfoldable pub is_implemented : State W Bool
  is_implemented = do bitrate ← get_bitrate; pure (not (bitrate == 0))

  unfoldable pub max_module_size : State W ℕ
  max_module_size = do
    ddr3ctrl ← bar.get32 rorc_reg_ddr3_ctrl
    let width_code = bit_and (ddr3ctrl >>> (d.offset + 11)) 0x7
    pure (module_size width_code (bit_and (ddr3ctrl >>> (14 + d.offset)) 1))

  unfoldable pub init_successful : State W Bool
  init_successful = do
    ddr3ctrl ← bar.get32 rorc_reg_ddr3_ctrl
    pure (is_successful (bit_and (ddr3ctrl >>> d.offset) 0xffff))

  unfoldable pub init_phase_done : State W Bool
  init_phase_done = do
    ddr3ctrl ← bar.get32 rorc_reg_ddr3_ctrl
    pure (is_phase_done (bit_and (ddr3ctrl >>> d.offset) 0xffff))

  unfoldable pub controller_state : State W ℕ
  controller_state = do
    ddr3ctrl ← bar.get32 rorc_reg_ddr3_ctrl
    pure (bit_and (ddr3ctrl >>> d.offset) 0xffff)

  -- The same bit for both controllers.
  unfoldable pub get_tg_error_flag : State W ℕ
  get_tg_error_flag = do
    ddr3ctrl ← bar.get32 rorc_reg_ddr3_ctrl
    pure (bit_and (ddr3ctrl >>> librorc_ddr3_tg_error) 1)

  unfoldable pub get_tg_rd_count : State W ℕ
  get_tg_rd_count =
      if d.id == 0
      then bar.get32 rorc_reg_ddr3_c0_tester_rdcnt
      else bar.get32 rorc_reg_ddr3_c1_tester_rdcnt

  unfoldable pub get_tg_wr_count : State W ℕ
  get_tg_wr_count =
      if d.id == 0
      then bar.get32 rorc_reg_ddr3_c0_tester_wrcnt
      else bar.get32 rorc_reg_ddr3_c1_tester_wrcnt
