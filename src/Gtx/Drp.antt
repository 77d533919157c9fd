-- ===== src/Gtx/Drp.antt =====
-- src/gtx.cpp: the dynamic reconfiguration port (DRP) of a transceiver. The wait for the port has no
-- timeout: `fuel` bounds its polls.
use alice_hlt_librorc.Base.{
  ℕ, zero, suc, ◌-◌, ◌^◌, ◌==◌, Bool, true, false, not, bit_and, bit_or, if◌then◌else◌, u16, u32,
  ◌<<<◌, ◌>>>◌,
}
use alice_hlt_librorc.Base.Fallible.{
  Fallible, OutOfFuel, out_of_fuel, ◌>>=◌, ◌>>◌, pure, lift, thrown, returned,
}
use alice_hlt_librorc.Bar.{Bar}
use alice_hlt_librorc.Link.{Link, pci_reg, set_pci_reg}
use alice_hlt_librorc.Registers.{rorc_reg_gtx_drp_ctrl}

-- `drp_status & (1 << 31)`
unfoldable pub is_busy : ℕ → Bool
is_busy status = not (bit_and status (1 <<< 31) == 0)

-- The new value in `drpUpdateField`, a uint16_t.
unfoldable pub updated_field : ℕ → ℕ → ℕ → ℕ → ℕ
updated_field drp_data_orig field_data field_bit field_width =
    let bitmask = u16 (u32 (1 <<< field_width) - 1) in
    let cleared = u16 (bit_and drp_data_orig (2 ^ 32 - 1 - (bitmask <<< field_bit))) in
    u16 (bit_or cleared (bit_and field_data bitmask <<< field_bit))

module _ {W : Type 0} (bar : Bar W) (l : Link) where
  -- The rounds of `waitForDrpDenToDeassert`.
  unfoldable pub den_loop : ℕ → Fallible OutOfFuel W ℕ
  unfolding is_busy
  den_loop zero w = (thrown out_of_fuel, w)
  den_loop (suc rounds) w =
      let (_, slept) = bar.usleep 100 w in
      let (drp_status, w') = pci_reg bar l rorc_reg_gtx_drp_ctrl slept in
      elim (is_busy drp_status) [ true ↦ den_loop rounds w' | false ↦ (returned drp_status, w') ]

module _ {W : Type 0} (bar : Bar W) (l : Link) (fuel : ℕ) where
  unfoldable pub wait_for_drp_den_to_deassert : Fallible OutOfFuel W ℕ
  unfolding den_loop
  wait_for_drp_den_to_deassert = den_loop bar l fuel

  unfoldable pub drp_read : ℕ → Fallible OutOfFuel W ℕ
  unfolding wait_for_drp_den_to_deassert
  drp_read drp_addr = do
    let drp_cmd = bit_or (bit_or (0 <<< 24) (drp_addr <<< 16)) 0x00
    lift (set_pci_reg bar l rorc_reg_gtx_drp_ctrl drp_cmd)
    drp_status ← wait_for_drp_den_to_deassert
    pure (bit_and drp_status 0xffff)

  unfoldable pub drp_write : ℕ → ℕ → Fallible OutOfFuel W (Unit {0})
  unfolding wait_for_drp_den_to_deassert
  drp_write drp_addr drp_data = do
    let drp_cmd = bit_or (bit_or (1 <<< 24) (drp_addr <<< 16)) drp_data
    lift (set_pci_reg bar l rorc_reg_gtx_drp_ctrl drp_cmd)
    drp_status ← wait_for_drp_den_to_deassert
    pure tt

  -- The end of `drpUpdateField`: the register is written if it changes.
  unfoldable pub write_changed : ℕ → ℕ → ℕ → Fallible OutOfFuel W (Unit {0})
  unfolding drp_read drp_write
  write_changed drp_addr drp_data_orig drp_data_new =
      if drp_data_orig == drp_data_new
      then pure tt
      else (do drp_write drp_addr drp_data_new; ignored ← drp_read 0; pure tt)

  unfoldable pub drp_update_field : ℕ → ℕ → ℕ → ℕ → Fallible OutOfFuel W (Unit {0})
  unfolding drp_read write_changed updated_field
  drp_update_field drp_addr field_data field_bit field_width = do
    drp_data_orig ← drp_read drp_addr
    write_changed drp_addr drp_data_orig
        (updated_field drp_data_orig field_data field_bit field_width)

  -- A uint32_t argument that becomes the uint16_t of the field.
  unfoldable pub set_drp_rx_eye_scan_mode : ℕ → Fallible OutOfFuel W (Unit {0})
  unfolding drp_update_field
  set_drp_rx_eye_scan_mode value = drp_update_field 0x2e (u16 value) 9 2

  unfoldable pub drp_rx_eye_scan_mode : Fallible OutOfFuel W ℕ
  unfolding drp_read
  drp_rx_eye_scan_mode = do value ← drp_read 0x2e; pure (bit_and (value >>> 9) 0x3)

  unfoldable pub drp_rx_eye_offset : Fallible OutOfFuel W ℕ
  unfolding drp_read
  drp_rx_eye_offset = do value ← drp_read 0x2d; pure (value >>> 8)

  unfoldable pub set_drp_rx_eye_offset : ℕ → Fallible OutOfFuel W (Unit {0})
  unfolding drp_update_field
  set_drp_rx_eye_offset value = drp_update_field 0x2d (u16 value) 8 8
