-- ===== src/Ddl/Diu.antt =====
-- src/diu.cpp and include/librorc/diu.hh: the destination interface unit, and its commands to the
-- other end of the link.
use alice_hlt_librorc.Base.{
  ℕ, zero, suc, ◌+◌, ◌-◌, ◌^◌, ◌==◌, Bool, true, false, not, List, [], ◌∷◌, bit_and, bit_or, u8,
  u32, if◌then◌else◌, ltb, ◌<<<◌, ◌>>>◌,
}
use alice_hlt_librorc.Base.Int.{ℤ, pos, negsuc, is_negative}
use alice_hlt_librorc.Base.State.{State, ◌>>=◌, ◌>>◌, pure}
use alice_hlt_librorc.Base.Polling.{wait_until}
use alice_hlt_librorc.Bar.{Bar}
use alice_hlt_librorc.Link.{Link, ddl_reg, set_ddl_reg}
use alice_hlt_librorc.Registers.{
  rorc_reg_ddl_ctrl, rorc_reg_ddl_total_words, rorc_reg_ddl_deadtime, rorc_reg_ddl_ec,
  rorc_reg_ddl_cmd, rorc_reg_ddl_festw, rorc_reg_ddl_ctstw, rorc_reg_ddl_dtstw, rorc_reg_ddl_ifstw,
}
use alice_hlt_librorc.Ddl.{set_reset, get_reset}

abbrev pub librorc_diu_timeout : ℕ
librorc_diu_timeout = 10000

-- The commands LIBRORC_DIUCMD_*.
abbrev pub diucmd_diu_rcifstw : ℕ
diucmd_diu_rcifstw = 0x1

abbrev pub diucmd_siu_rcifstw : ℕ
diucmd_siu_rcifstw = 0x2

abbrev pub diucmd_siu_eobtr : ℕ
diucmd_siu_eobtr = 0xb4

abbrev pub diucmd_siu_rdyrx : ℕ
diucmd_siu_rdyrx = 0x14

abbrev pub diucmd_diu_diurst : ℕ
diucmd_diu_diurst = 0xa1

abbrev pub diucmd_siu_rst : ℕ
diucmd_siu_rst = 0xf1

abbrev pub diucmd_diu_diuinit : ℕ
diucmd_diu_diuinit = 0xb1

abbrev pub diucmd_remote_hwvers : ℕ
diucmd_remote_hwvers = 0x62

-- What a wait for a status word that no unit has written gives.
abbrev pub no_status : ℕ
no_status = 0xffff_ffff

module _ {W : Type 0} (bar : Bar W) (l : Link) where
  unfoldable pub link_up : State W Bool
  link_up = do
    ddlctrl ← ddl_reg bar l rorc_reg_ddl_ctrl
    pure (not (bit_and ddlctrl (1 <<< 5) == 0))

  unfoldable pub link_full : State W Bool
  link_full = do
    ddlctrl ← ddl_reg bar l rorc_reg_ddl_ctrl
    pure (not (bit_and (ddlctrl >>> 4) 1 == 1))

  unfoldable pub get_forced_xoff : State W ℕ
  get_forced_xoff = do ddlctrl ← ddl_reg bar l rorc_reg_ddl_ctrl; pure (bit_and (ddlctrl >>> 6) 1)

  -- Without the line that it prints.
  unfoldable pub set_forced_xoff : ℕ → State W (Unit {0})
  set_forced_xoff xoff = do
    ddlctrl ← ddl_reg bar l rorc_reg_ddl_ctrl
    let cleared = bit_and ddlctrl (2 ^ 32 - 1 - (1 <<< 6))
    set_ddl_reg bar l rorc_reg_ddl_ctrl (bit_or cleared (bit_and xoff 1 <<< 6))

  unfoldable pub clear_interface_counters : State W (Unit {0})
  clear_interface_counters = do
    ddlctrl ← ddl_reg bar l rorc_reg_ddl_ctrl
    set_ddl_reg bar l rorc_reg_ddl_ctrl (bit_or ddlctrl (1 <<< 2))

  unfoldable pub total_words_received : State W ℕ
  total_words_received = ddl_reg bar l rorc_reg_ddl_total_words

  unfoldable pub get_ddl_deadtime : State W ℕ
  get_ddl_deadtime = ddl_reg bar l rorc_reg_ddl_deadtime

  unfoldable pub clear_ddl_deadtime : State W (Unit {0})
  clear_ddl_deadtime = set_ddl_reg bar l rorc_reg_ddl_deadtime 0

  unfoldable pub get_eventcount : State W ℕ
  get_eventcount = ddl_reg bar l rorc_reg_ddl_ec

  unfoldable pub clear_eventcount : State W (Unit {0})
  clear_eventcount = set_ddl_reg bar l rorc_reg_ddl_ec 0

  unfoldable pub last_diu_command : State W ℕ
  last_diu_command = ddl_reg bar l rorc_reg_ddl_cmd

  unfoldable pub send_command : ℕ → State W (Unit {0})
  send_command command = set_ddl_reg bar l rorc_reg_ddl_cmd command

  unfoldable pub last_front_end_status_word : State W ℕ
  last_front_end_status_word = ddl_reg bar l rorc_reg_ddl_festw

  unfoldable pub clear_last_front_end_status_word : State W (Unit {0})
  clear_last_front_end_status_word = set_ddl_reg bar l rorc_reg_ddl_festw 0

  unfoldable pub last_command_transmission_status_word : State W ℕ
  last_command_transmission_status_word = ddl_reg bar l rorc_reg_ddl_ctstw

  unfoldable pub clear_last_command_transmission_status_word : State W (Unit {0})
  clear_last_command_transmission_status_word = set_ddl_reg bar l rorc_reg_ddl_ctstw 0

  unfoldable pub last_data_transmission_status_word : State W ℕ
  last_data_transmission_status_word = ddl_reg bar l rorc_reg_ddl_dtstw

  unfoldable pub clear_last_data_transmission_status_word : State W (Unit {0})
  clear_last_data_transmission_status_word = set_ddl_reg bar l rorc_reg_ddl_dtstw 0

  unfoldable pub last_interface_status_word : State W ℕ
  last_interface_status_word = ddl_reg bar l rorc_reg_ddl_ifstw

  unfoldable pub clear_last_interface_status_word : State W (Unit {0})
  clear_last_interface_status_word = set_ddl_reg bar l rorc_reg_ddl_ifstw 0

  unfoldable pub clear_all_last_status_words : State W (Unit {0})
  clear_all_last_status_words = do
    clear_last_front_end_status_word
    clear_last_command_transmission_status_word
    clear_last_data_transmission_status_word
    clear_last_interface_status_word

  -- The loop of `waitForStatusWord`: the status is read once more than the program sleeps.
  unfoldable pub status_loop : ℕ → ℕ → State W ℕ
  status_loop address zero = ddl_reg bar l address
  status_loop address (suc timeout) = λ w.
      let (status, w') = ddl_reg bar l address w in
      elim (status == no_status) [
        | true ↦ status_loop address timeout (bar.usleep 100 w').1
        | false ↦ (status, w')
      ]

  unfoldable pub wait_for_status_word : ℕ → State W ℕ
  wait_for_status_word address = status_loop address librorc_diu_timeout

  unfoldable pub wait_for_command_transmission_status_word : State W ℤ
  wait_for_command_transmission_status_word = do
    result ← wait_for_status_word rorc_reg_ddl_ctstw
    pure (if result == no_status then negsuc 0 else pos 0)

  -- The two below return the word as an `int`, and their callers take it as a uint32_t again.
  unfoldable pub wait_for_interface_status_word : State W ℕ
  wait_for_interface_status_word = wait_for_status_word rorc_reg_ddl_ifstw

  unfoldable pub wait_for_front_end_status_word : State W ℕ
  wait_for_front_end_status_word = wait_for_status_word rorc_reg_ddl_festw

  unfoldable pub send_fee_end_of_block_transfer_cmd : State W ℤ
  send_fee_end_of_block_transfer_cmd = do
    clear_last_command_transmission_status_word
    send_command diucmd_siu_eobtr
    wait_for_command_transmission_status_word

  unfoldable pub send_fee_ready_to_receive_cmd : State W ℤ
  send_fee_ready_to_receive_cmd = do
    clear_last_command_transmission_status_word
    send_command diucmd_siu_rdyrx
    wait_for_command_transmission_status_word

  -- The four commands that are answered by the interface status word.
  unfoldable pub interface_command : ℕ → State W ℕ
  interface_command command = do
    clear_last_interface_status_word
    send_command command
    wait_for_interface_status_word

  unfoldable pub read_and_clear_diu_interface_status : State W ℕ
  read_and_clear_diu_interface_status = interface_command diucmd_diu_rcifstw

  unfoldable pub read_and_clear_siu_interface_status : State W ℕ
  read_and_clear_siu_interface_status = interface_command diucmd_siu_rcifstw

  unfoldable pub send_diu_link_initialization_cmd : State W ℕ
  send_diu_link_initialization_cmd = interface_command diucmd_diu_diuinit

  unfoldable pub send_diu_link_reset_cmd : State W ℕ
  send_diu_link_reset_cmd = interface_command diucmd_diu_diurst

  -- An `int` as a uint32_t.
  abbrev pub unsigned : ℤ → ℕ
  unsigned (pos n) = u32 n
  unsigned (negsuc n) = 2 ^ 32 - 1 - n

  -- It clears the interface status word, and waits for the command transmission status word.
  unfoldable pub send_siu_reset_cmd : State W ℕ
  send_siu_reset_cmd = do
    clear_last_interface_status_word
    send_command diucmd_siu_rst
    result ← wait_for_command_transmission_status_word
    pure (unsigned result)

  unfoldable pub wait_for_link_up : State W ℤ
  wait_for_link_up = do
    timeout ← wait_until link_up (bar.usleep 100) librorc_diu_timeout
    pure (if timeout == 0 then negsuc 0 else pos 0)

  unfoldable pub toggle_ddl_reset : State W ℤ
  toggle_ddl_reset = do
    set_reset bar l 1
    first ← get_reset bar l
    set_reset bar l 0
    second ← get_reset bar l
    wait_for_link_up

  -- The comparison `sendSiuResetCmd() < 0` is of a uint32_t.
  unfoldable pub prepare_for_siu_data : State W ℤ
  prepare_for_siu_data w =
      let (ret, toggled) = toggle_ddl_reset w in
      if is_negative ret
      then (negsuc 0, toggled)
      else let (status, sent) = send_siu_reset_cmd toggled in
        if ltb status 0
        then (negsuc 0, sent)
        else let (ret', again) = toggle_ddl_reset sent in
          if is_negative ret' then (negsuc 0, again) else (pos 0, again)

  unfoldable pub prepare_for_diu_data : State W ℤ
  prepare_for_diu_data = toggle_ddl_reset

  unfoldable pub use_as_data_source : State W (Unit {0})
  use_as_data_source = do
    ddlctrl ← ddl_reg bar l rorc_reg_ddl_ctrl
    set_ddl_reg bar l rorc_reg_ddl_ctrl (bit_and ddlctrl (2 ^ 32 - 1 - (3 <<< 16)))

  unfoldable pub read_remote_hw_version : ℕ → State W ℕ
  read_remote_hw_version addr = do
    clear_last_front_end_status_word
    send_command (bit_or diucmd_remote_hwvers (u32 (addr <<< 12)))
    wait_for_front_end_status_word

  -- The loop of `readRemoteSerial`, of `left` more addresses from `addr` on: the bytes of the string.
  unfoldable pub serial_loop : ℕ → ℕ → State W (List ℕ)
  serial_loop addr zero w = ([], w)
  serial_loop addr (suc left) w =
      let (result, w') = read_remote_hw_version (u8 addr) w in
      elim (result == no_status) [
        | true ↦ ([], w')
        | false ↦
            let (rest, w'') = serial_loop (addr + 1) left w' in
            (bit_and (result >>> 20) 0xff ∷ rest, w'')
      ]

  unfoldable pub read_remote_serial : State W (List ℕ)
  read_remote_serial = serial_loop 0 50
