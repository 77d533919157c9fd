-- ===== src/Sysmon.antt =====
-- src/sysmon.cpp and include/librorc/sysmon.hh: the monitoring of a board. Sysmon/I2c has the serial
-- buses, Sysmon/Replay the events that are replayed from the DDR3 memory.
pub mod Fields
pub mod I2c
pub mod Bus
pub mod Replay
pub mod Events
pub mod Stored
use alice_hlt_librorc.Base.{
  ℕ, ◌+◌, ◌-◌, ◌*◌, ◌^◌, ◌==◌, Bool, true, not, bit_and, bit_or, if◌then◌else◌, u16, ◌<<<◌, ◌>>>◌,
}
use alice_hlt_librorc.Base.State.{State, ◌>>=◌, ◌>>◌, pure}
use alice_hlt_librorc.Bar.{Bar}
use alice_hlt_librorc.Registers.{
  rorc_reg_firmware_revision, rorc_reg_firmware_date, rorc_reg_type_channels, rorc_reg_pcie_ctrl,
  rorc_reg_ddr3_ctrl, rorc_reg_fan_ctrl, rorc_reg_bracket_led_ctrl, rorc_reg_uc_spi_ctrl,
  rorc_reg_qsfp_led_ctrl, rorc_reg_sc_req_canceled, rorc_reg_dma_tx_timeout, rorc_reg_illegal_req,
  rorc_reg_multidwread, rorc_reg_pcie_dst_busy, rorc_reg_pcie_terr_drop, rorc_reg_pcie_dst_max_busy,
  rorc_reg_refclk_freq, rorc_cfg_project_hlt_in, rorc_cfg_project_hlt_out,
  rorc_cfg_project_hlt_in_fcf, rorc_cfg_project_hlt_in_fcf_ddl2, rorc_cfg_project_hwtest,
  rorc_cfg_project_ibert, rorc_cfg_project_hwcf_coproc, rorc_cfg_project_trorc,
}

-- The texts of `firmwareDescription`.
pub data FirmwareDescription : Type 0 where
  hlt_in hlt_out hlt_in_fcf hlt_in_fcf_ddl2 hwtest ibert hwcf_coproc t_rorc : FirmwareDescription
  unknown_firmware : FirmwareDescription

unfoldable pub describe_firmware : ℕ → FirmwareDescription
describe_firmware type =
    if type == rorc_cfg_project_hlt_in
    then hlt_in
    else if type == rorc_cfg_project_hlt_out
    then hlt_out
    else if type == rorc_cfg_project_hlt_in_fcf
    then hlt_in_fcf
    else if type == rorc_cfg_project_hlt_in_fcf_ddl2
    then hlt_in_fcf_ddl2
    else if type == rorc_cfg_project_hwtest
    then hwtest
    else if type == rorc_cfg_project_ibert
    then ibert
    else if type == rorc_cfg_project_hwcf_coproc
    then hwcf_coproc
    else if type == rorc_cfg_project_trorc
    then t_rorc
    else unknown_firmware

-- The new value in `systemFanSetEnable`.
unfoldable pub fan_value : ℕ → ℕ → ℕ → ℕ
fan_value ovrd enable fanctrl =
    let driven = bit_and fanctrl (2 ^ 32 - 1 - (1 <<< 30)) in
    let cleared = bit_and driven (2 ^ 32 - 1 - (1 <<< 31)) in
    if ovrd == 0 then bit_or fanctrl (1 <<< 30) else bit_or cleared (bit_and enable 1 <<< 31)

module _ {W : Type 0} (bar : Bar W) where
  unfoldable pub fw_revision : State W ℕ
  fw_revision = bar.get32 rorc_reg_firmware_revision

  unfoldable pub fw_build_date : State W ℕ
  fw_build_date = bar.get32 rorc_reg_firmware_date

  unfoldable pub firmware_type : State W ℕ
  firmware_type = do value ← bar.get32 rorc_reg_type_channels; pure (bit_and (value >>> 16) 0xffff)

  unfoldable pub firmware_is_hlt_in : State W Bool
  firmware_is_hlt_in = do type ← firmware_type; pure (type == rorc_cfg_project_hlt_in)

  unfoldable pub firmware_is_hlt_out : State W Bool
  firmware_is_hlt_out = do type ← firmware_type; pure (type == rorc_cfg_project_hlt_out)

  unfoldable pub firmware_is_hlt_in_fcf : State W Bool
  firmware_is_hlt_in_fcf = do type ← firmware_type; pure (type == rorc_cfg_project_hlt_in_fcf)

  unfoldable pub firmware_is_hlt_hardware_test : State W Bool
  firmware_is_hlt_hardware_test = do type ← firmware_type; pure (type == rorc_cfg_project_hwtest)

  unfoldable pub firmware_description : State W FirmwareDescription
  firmware_description = do type ← firmware_type; pure (describe_firmware type)

  unfoldable pub pcie_number_of_lanes : State W ℕ
  pcie_number_of_lanes = do
    status ← bar.get32 rorc_reg_pcie_ctrl
    pure (1 <<< bit_and (status >>> 3) 0x3)

  unfoldable pub pcie_generation : State W ℕ
  pcie_generation = do
    status ← bar.get32 rorc_reg_pcie_ctrl
    pure (1 <<< bit_and (status >>> 5) 0x01)

  unfoldable pub number_of_channels : State W ℕ
  number_of_channels = do value ← bar.get32 rorc_reg_type_channels; pure (bit_and value 0xffff)

  clock_bit : State W Bool
  clock_bit = do ddrctrl ← bar.get32 rorc_reg_ddr3_ctrl; pure (bit_and (ddrctrl >>> 3) 1 == 1)

  unfoldable pub system_clock_is_running : State W Bool
  unfolding clock_bit
  system_clock_is_running = do
    value ← bar.get32 rorc_reg_type_channels
    if value >>> 16 == rorc_cfg_project_hwtest then clock_bit else pure true

  unfoldable pub system_fan_is_enabled : State W Bool
  system_fan_is_enabled = do
    fanctrl ← bar.get32 rorc_reg_fan_ctrl
    pure (not (bit_and fanctrl (1 <<< 31) == 0))

  unfoldable pub system_fan_is_running : State W Bool
  system_fan_is_running = do
    fanctrl ← bar.get32 rorc_reg_fan_ctrl
    pure (not (bit_and fanctrl (1 <<< 29) == 0))

  unfoldable pub system_fan_set_enable : ℕ → ℕ → State W (Unit {0})
  system_fan_set_enable ovrd enable = do
    fanctrl ← bar.get32 rorc_reg_fan_ctrl
    bar.set32 rorc_reg_fan_ctrl (fan_value ovrd enable fanctrl)

  unfoldable pub system_fan_is_auto_mode : State W Bool
  system_fan_is_auto_mode = do
    fanctrl ← bar.get32 rorc_reg_fan_ctrl
    pure (not (bit_and fanctrl (1 <<< 30) == 0))

  unfoldable pub bracket_led_in_blink_mode : State W Bool
  bracket_led_in_blink_mode = do
    ledctrl ← bar.get32 rorc_reg_bracket_led_ctrl
    pure (not (bit_and ledctrl (1 <<< 31) == 0))

  unfoldable pub set_bracket_led_mode : ℕ → State W (Unit {0})
  set_bracket_led_mode mode = do
    ledctrl ← bar.get32 rorc_reg_bracket_led_ctrl
    let cleared = bit_and ledctrl (2 ^ 32 - 1 - (1 <<< 31))
    bar.set32 rorc_reg_bracket_led_ctrl (bit_or cleared (bit_and mode 1 <<< 31))

  -- A field at bit 0 has a shift by 0, here and below.
  unfoldable pub get_linkmask : State W ℕ
  get_linkmask = do
    ledctrl ← bar.get32 rorc_reg_bracket_led_ctrl
    pure (bit_and (ledctrl >>> 0) 0x7fff_ffff)

  unfoldable pub set_linkmask : ℕ → State W (Unit {0})
  set_linkmask mask = do
    ledctrl ← bar.get32 rorc_reg_bracket_led_ctrl
    let cleared = bit_and ledctrl (1 <<< 31)
    bar.set32 rorc_reg_bracket_led_ctrl (bit_or cleared (bit_and mask 0x7fff_ffff <<< 0))

  unfoldable pub dipswitch : State W ℕ
  dipswitch = do value ← bar.get32 rorc_reg_uc_spi_ctrl; pure (bit_and (value >>> 16) 0xff)

  -- The complement of a bit of the register of the QSFP modules. `index` is below 3.
  unfoldable pub qsfp_flag : ℕ → State W Bool
  qsfp_flag k = do
    qsfp_ctrl ← bar.get32 rorc_reg_qsfp_led_ctrl
    pure (bit_and ((2 ^ 32 - 1 - qsfp_ctrl) >>> k) 0x01 == 1)

  unfoldable pub qsfp_is_present : ℕ → State W Bool
  qsfp_is_present index = qsfp_flag (8 * index + 2)

  unfoldable pub qsfp_get_reset : ℕ → State W Bool
  qsfp_get_reset index = qsfp_flag (8 * index + 3)

  -- The reset is active low.
  unfoldable pub qsfp_set_reset : ℕ → ℕ → State W (Unit {0})
  qsfp_set_reset index reset = do
    qsfp_ctrl ← bar.get32 rorc_reg_qsfp_led_ctrl
    bar.set32 rorc_reg_qsfp_led_ctrl (
        if reset == 0
        then bit_or qsfp_ctrl (1 <<< (8 * index + 3))
        else bit_and qsfp_ctrl (2 ^ 32 - 1 - (1 <<< (8 * index + 3))))

  unfoldable pub qsfp_led_is_on : ℕ → ℕ → State W Bool
  qsfp_led_is_on qsfp_index led_index = qsfp_flag (8 * qsfp_index + led_index)

  unfoldable pub pcie_request_canceled_counter : State W ℕ
  pcie_request_canceled_counter = bar.get32 rorc_reg_sc_req_canceled

  unfoldable pub clear_pcie_request_canceled_counter : State W (Unit {0})
  clear_pcie_request_canceled_counter = bar.set32 rorc_reg_sc_req_canceled 0

  unfoldable pub pcie_tx_timeout_counter : State W ℕ
  pcie_tx_timeout_counter = bar.get32 rorc_reg_dma_tx_timeout

  unfoldable pub clear_pcie_tx_timeout_counter : State W (Unit {0})
  clear_pcie_tx_timeout_counter = bar.set32 rorc_reg_dma_tx_timeout 0

  unfoldable pub pcie_illegal_request_counter : State W ℕ
  pcie_illegal_request_counter = bar.get32 rorc_reg_illegal_req

  unfoldable pub clear_pcie_illegal_request_counter : State W (Unit {0})
  clear_pcie_illegal_request_counter = bar.set32 rorc_reg_illegal_req 0

  unfoldable pub pcie_multi_dw_read_counter : State W ℕ
  pcie_multi_dw_read_counter = bar.get32 rorc_reg_multidwread

  unfoldable pub clear_pcie_multi_dw_read_counter : State W (Unit {0})
  clear_pcie_multi_dw_read_counter = bar.set32 rorc_reg_multidwread 0

  unfoldable pub pcie_tx_destination_busy_counter : State W ℕ
  pcie_tx_destination_busy_counter = bar.get32 rorc_reg_pcie_dst_busy

  unfoldable pub clear_pcie_tx_destination_busy_counter : State W (Unit {0})
  clear_pcie_tx_destination_busy_counter = bar.set32 rorc_reg_pcie_dst_busy 0

  unfoldable pub pcie_transmission_error_counter : State W ℕ
  pcie_transmission_error_counter = bar.get32 rorc_reg_pcie_terr_drop

  unfoldable pub clear_pcie_transmission_error_counter : State W (Unit {0})
  clear_pcie_transmission_error_counter = bar.set32 rorc_reg_pcie_terr_drop 0

  unfoldable pub clear_all_error_counters : State W (Unit {0})
  clear_all_error_counters = do
    clear_pcie_request_canceled_counter
    clear_pcie_tx_timeout_counter
    clear_pcie_illegal_request_counter
    clear_pcie_multi_dw_read_counter
    clear_pcie_tx_destination_busy_counter
    clear_pcie_transmission_error_counter

  unfoldable pub ddr3_set_reset : ℕ → ℕ → State W (Unit {0})
  ddr3_set_reset controller value = do
    let ctrl = bit_and controller 1
    ddrctrl ← bar.get32 rorc_reg_ddr3_ctrl
    let cleared = bit_and ddrctrl (2 ^ 32 - 1 - (1 <<< (16 * ctrl)))
    bar.set32 rorc_reg_ddr3_ctrl (bit_or cleared (bit_and value 1 <<< (16 * ctrl)))

  unfoldable pub ddr3_get_reset : ℕ → State W ℕ
  ddr3_get_reset controller = do
    ddrctrl ← bar.get32 rorc_reg_ddr3_ctrl
    let ctrl = bit_and controller 1
    pure (bit_and (ddrctrl >>> (16 * ctrl)) 1)

  unfoldable pub clear_max_pcie_deadtime : State W (Unit {0})
  clear_max_pcie_deadtime = bar.set32 rorc_reg_pcie_dst_max_busy 0

  unfoldable pub store_refclk_freq : ℕ → State W (Unit {0})
  store_refclk_freq freq = bar.set32 rorc_reg_refclk_freq freq

  unfoldable pub refclk_freq : State W ℕ
  refclk_freq = bar.get32 rorc_reg_refclk_freq
