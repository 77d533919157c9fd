-- ===== src/Sysmon/I2c.antt =====
-- src/sysmon.cpp: the serial buses of a board and what is read over them. The wait for a transfer
-- has no timeout: `fuel` bounds its polls. `mode` is the member m_i2c_hsmode.
use alice_hlt_librorc.Base.{
  ℕ, zero, suc, ◌+◌, ◌-◌, ◌^◌, ◌==◌, ltb, Bool, true, false, not, ◌||◌, ◌&&◌, List, [], ◌∷◌,
  bit_and, bit_or, u8, if◌then◌else◌, ◌<<<◌, ◌>>>◌,
}
use alice_hlt_librorc.Base.Fallible.{Fallible, ◌>>=◌, ◌>>◌, pure, throw, lift, thrown, returned}
use alice_hlt_librorc.Bar.{Bar}
use alice_hlt_librorc.Registers.{rorc_reg_i2c_config, rorc_reg_i2c_operation}

abbrev pub qsfp_i2c_slvaddr : ℕ
qsfp_i2c_slvaddr = 0x50

abbrev pub ddr3_spd_slvaddr : ℕ
ddr3_spd_slvaddr = 0x50

abbrev pub i2c_read : ℕ
i2c_read = 2 ^ 1

abbrev pub i2c_write : ℕ
i2c_write = 2 ^ 2

-- The exceptions LIBRORC_SYSMON_ERROR_*, and the end of the fuel of a loop.
pub data SysmonError : Type 0 where
  i2c_rxack i2c_invalid_param data_replay_invalid data_replay_timeout : SysmonError
  out_of_fuel : SysmonError

-- The parameters that `i2c_module_start` refuses.
unfoldable pub is_invalid : ℕ → ℕ → ℕ → ℕ → Bool
is_invalid chain cmd mode byte_enable =
    ltb 5 chain
    || ltb 3 byte_enable
    || (not (cmd == i2c_read) && not (cmd == i2c_write))
    || ltb 1 mode

unfoldable pub config_command : ℕ → ℕ → ℕ → ℕ → ℕ → ℕ
config_command chain slvaddr cmd mode byte_enable =
    let chain_select = u8 (1 <<< chain) in
    bit_or
      (bit_or (bit_or (bit_or (chain_select <<< 24) (slvaddr <<< 8)) (mode <<< 5))
        (byte_enable <<< 3))
      cmd

unfoldable pub i2c_set_mode : {W : Type 0} → ℕ → Fallible SysmonError W ℕ
i2c_set_mode mode =
    if not (bit_and mode (2 ^ 8 - 1 - 0x1) == 0) then throw i2c_invalid_param else pure mode

-- The kinds of `qsfpGetRateSelectionSupport`, by the three bytes that it reads.
unfoldable pub rate_selection : ℕ → ℕ → ℕ → ℕ
rate_selection options enh_options ext_rate_sel =
    if bit_and enh_options 0x0c == 0x00 && bit_and options 0x20 == 0x00
    then 0
    else if bit_and enh_options 0x0c == 0x08 && bit_and ext_rate_sel 0x01 == 0x01
    then 1
    else if bit_and enh_options 0x0c == 0x04
    then 2
    else 0

module _ {W : Type 0} (bar : Bar W) where
  unfoldable pub i2c_module_start : ℕ → ℕ → ℕ → ℕ → ℕ → Fallible SysmonError W (Unit {0})
  i2c_module_start chain slvaddr cmd mode byte_enable =
      if is_invalid chain cmd mode byte_enable
      then throw i2c_invalid_param
      else lift (bar.set32 rorc_reg_i2c_config (config_command chain slvaddr cmd mode byte_enable))

  -- The loop of `i2c_wait_for_cmpl`, after a read of the status.
  unfoldable pub cmpl_loop : ℕ → ℕ → Fallible SysmonError W ℕ
  cmpl_loop zero status w = (thrown out_of_fuel, w)
  cmpl_loop (suc rounds) status w = elim (bit_and status 0x1 == 0) [
    | true ↦
        let (_, slept) = bar.usleep 100 w in
        let (status', w') = bar.get32 rorc_reg_i2c_config slept in cmpl_loop rounds status' w'
    | false ↦ (returned status, w)
  ]

  unfoldable pub check_status : ℕ → Fallible SysmonError W ℕ
  check_status status = if bit_and status 0xc0 == 0 then pure status else throw i2c_rxack

module _ {W : Type 0} (bar : Bar W) (fuel mode : ℕ) where
  unfoldable pub i2c_wait_for_cmpl : Fallible SysmonError W ℕ
  i2c_wait_for_cmpl = do
    first ← lift (bar.get32 rorc_reg_i2c_config)
    status ← cmpl_loop bar fuel first
    check_status bar status

  unfoldable pub i2c_read_mem : ℕ → ℕ → ℕ → Fallible SysmonError W ℕ
  i2c_read_mem chain slvaddr memaddr = do
    lift (bar.set32 rorc_reg_i2c_operation memaddr)
    i2c_module_start bar chain slvaddr i2c_read mode 1
    status ← i2c_wait_for_cmpl
    value ← lift (bar.get32 rorc_reg_i2c_operation)
    pure (bit_and (value >>> 8) 0xff)

  unfoldable pub i2c_write_mem : ℕ → ℕ → ℕ → ℕ → Fallible SysmonError W (Unit {0})
  i2c_write_mem chain slvaddr memaddr value = do
    lift (bar.set32 rorc_reg_i2c_operation (bit_or (value <<< 8) memaddr))
    i2c_module_start bar chain slvaddr i2c_write mode 1
    status ← i2c_wait_for_cmpl
    pure tt

  unfoldable pub i2c_write_mem_dual : ℕ → ℕ → ℕ → ℕ → ℕ → ℕ → Fallible SysmonError W (Unit {0})
  i2c_write_mem_dual chain slvaddr memaddr0 data0 memaddr1 data1 = do
    let upper = bit_or (data1 <<< 24) (memaddr1 <<< 16)
    lift (bar.set32 rorc_reg_i2c_operation (bit_or (bit_or upper (data0 <<< 8)) memaddr0))
    i2c_module_start bar chain slvaddr i2c_write mode 3
    status ← i2c_wait_for_cmpl
    pure tt

  -- A string loop over `count` addresses from `start` on; `read` reads one.
  unfoldable pub read_string :
      (ℕ → Fallible SysmonError W ℕ) → ℕ → ℕ → Fallible SysmonError W (List ℕ)
  read_string read start zero = pure []
  read_string read start (suc count) = do
    char ← read start
    rest ← read_string read (suc start) count
    pure (char ∷ rest)

  -- From `start` to `end`, both included; `end` is below 255, at which the source does not stop.
  unfoldable pub qsfp_i2c_string_readout : ℕ → ℕ → ℕ → Fallible SysmonError W (List ℕ)
  qsfp_i2c_string_readout index start end =
      read_string (i2c_read_mem index qsfp_i2c_slvaddr) start (end + 1 - start)

  unfoldable pub qsfp_select_page0 : ℕ → Fallible SysmonError W (Unit {0})
  qsfp_select_page0 index = do
    page ← i2c_read_mem index qsfp_i2c_slvaddr 127
    if page == 0 then pure tt else i2c_write_mem index qsfp_i2c_slvaddr 127 0

  unfoldable pub qsfp_vendor_name : ℕ → Fallible SysmonError W (List ℕ)
  qsfp_vendor_name index = do qsfp_select_page0 index; qsfp_i2c_string_readout index 148 163

  unfoldable pub qsfp_part_number : ℕ → Fallible SysmonError W (List ℕ)
  qsfp_part_number index = do qsfp_select_page0 index; qsfp_i2c_string_readout index 168 183

  unfoldable pub qsfp_serial_number : ℕ → Fallible SysmonError W (List ℕ)
  qsfp_serial_number index = do qsfp_select_page0 index; qsfp_i2c_string_readout index 196 211

  unfoldable pub qsfp_revision_number : ℕ → Fallible SysmonError W (List ℕ)
  qsfp_revision_number index = do qsfp_select_page0 index; qsfp_i2c_string_readout index 184 185

  unfoldable pub qsfp_tx_fault_map : ℕ → Fallible SysmonError W ℕ
  qsfp_tx_fault_map index = do
    value ← i2c_read_mem index qsfp_i2c_slvaddr 4
    pure (bit_and value 0x0f)

  unfoldable pub qsfp_get_rate_selection_support : ℕ → Fallible SysmonError W ℕ
  qsfp_get_rate_selection_support index = do
    qsfp_select_page0 index
    options ← i2c_read_mem index qsfp_i2c_slvaddr 195
    enh_options ← i2c_read_mem index qsfp_i2c_slvaddr 221
    ext_rate_sel ← i2c_read_mem index qsfp_i2c_slvaddr 141
    pure (rate_selection options enh_options ext_rate_sel)

  unfoldable pub qsfp_power_class : ℕ → Fallible SysmonError W ℕ
  qsfp_power_class index = do
    value ← i2c_read_mem index qsfp_i2c_slvaddr 129
    pure (u8 ((value >>> 6) + 1))

  unfoldable pub qsfp_has_txcdr : ℕ → Fallible SysmonError W Bool
  qsfp_has_txcdr index = do
    value ← i2c_read_mem index qsfp_i2c_slvaddr 129
    pure (not (bit_and value (1 <<< 3) == 0))

  unfoldable pub qsfp_has_rxcdr : ℕ → Fallible SysmonError W Bool
  qsfp_has_rxcdr index = do
    value ← i2c_read_mem index qsfp_i2c_slvaddr 129
    pure (not (bit_and value (1 <<< 2) == 0))

  unfoldable pub ddr3_spd_read : ℕ → ℕ → Fallible SysmonError W ℕ
  ddr3_spd_read module_ address = i2c_read_mem 3 (ddr3_spd_slvaddr + bit_and module_ 1) address

  unfoldable pub ddr3_spd_read_string : ℕ → ℕ → ℕ → Fallible SysmonError W (List ℕ)
  ddr3_spd_read_string module_ start_address end_address =
      read_string (ddr3_spd_read module_) start_address (end_address + 1 - start_address)
