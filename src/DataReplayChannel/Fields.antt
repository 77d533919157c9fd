-- ===== src/DataReplayChannel/Fields.antt =====
-- The control register of a replay channel: the mode bits around the start address.
use alice_hlt_librorc.Base.{ℕ, ◌-◌, ◌*◌, ◌/◌, ◌%◌, ◌^◌, ◌≡◌, refl, arith, bit_and}
use alice_hlt_librorc.Base.Bits.{bit_and_shifted}
use alice_hlt_librorc.Base.Slices.{get_field-put_field}
use alice_hlt_librorc.Bar.{Bar}
use alice_hlt_librorc.Bar.Memory.{IsMemory}
use alice_hlt_librorc.Bar.Fields.{IsFlag, SetsField, Modifies-IsFlag, Modifies-SetsField}
use alice_hlt_librorc.Link.{Link, ddl_reg, set_ddl_reg}
use alice_hlt_librorc.Registers.{rorc_reg_ddr3_data_replay_channel_ctrl}
use alice_hlt_librorc.Ddl.Fields.{ddl_address}
use alice_hlt_librorc.DataReplayChannel.{
  is_oneshot_enabled, is_continuous_enabled, is_enabled, is_in_reset, set_enable, set_reset,
  set_mode_oneshot, set_mode_continuous, start_address, set_start_address,
}

-- The address without a shift is the field of its upper bits.
masked_address : (v : ℕ) → bit_and v 0x7fff_fff8 ≡ bit_and (v / 8) (2 ^ 28 - 1) * 8
masked_address v = bit_and_shifted 3 v (2 ^ 28 - 1)

module _ {W : Type 0} (bar : Bar W) (word : ℕ → W → ℕ) (memory : IsMemory bar word) (l : Link) where
  -- On registers that keep their values, the four mode bits are each set and read back with no
  -- effect on another bit, and the start address is set in the bits between them: `startAddress`
  -- reads it back without its three low bits.
  pub replay_ctrl-fields :
      let ctrl = ddl_address l rorc_reg_ddr3_data_replay_channel_ctrl in
      IsFlag bar word ctrl 0 (is_enabled bar l) (set_enable bar l)
      × IsFlag bar word ctrl 1 (is_continuous_enabled bar l) (set_mode_continuous bar l)
      × IsFlag bar word ctrl 2 (is_oneshot_enabled bar l) (set_mode_oneshot bar l)
      × IsFlag bar word ctrl 31 (is_in_reset bar l) (set_reset bar l)
      × ((v : ℕ) (w : W) → SetsField bar word ctrl 3 28 (v / 8) (set_start_address bar l v) w)
      × ((v : ℕ) (w : W)
          → (start_address bar l (set_start_address bar l v w).1).0 ≡ v / 8 % 2 ^ 28 * 8)
  unfolding ddl_reg set_ddl_reg is_oneshot_enabled is_continuous_enabled is_enabled is_in_reset
      set_enable set_reset set_mode_oneshot set_mode_continuous start_address set_start_address
  replay_ctrl-fields =
      let ctrl = ddl_address l rorc_reg_ddr3_data_replay_channel_ctrl in
      (
        Modifies-IsFlag bar word memory ctrl 0 _ _ (omega arith) (λ v w. refl) (λ w. refl),
        Modifies-IsFlag bar word memory ctrl 1 _ _ (omega arith) (λ v w. refl) (λ w. refl),
        Modifies-IsFlag bar word memory ctrl 2 _ _ (omega arith) (λ v w. refl) (λ w. refl),
        Modifies-IsFlag bar word memory ctrl 31 _ _ (omega arith) (λ v w. refl) (λ w. refl),
        λ v w.
            Modifies-SetsField bar word memory ctrl 3 28 (v / 8) _ w (omega arith)
              (λ w. rw (masked_address v) refl),
        λ v w.
            rw
              (
                masked_address v,
                masked_address,
                memory.reads ctrl w,
                memory.reads ctrl,
                memory.writes ctrl,
              )
              (ground (arith, get_field-put_field 3 28 (v / 8) (word ctrl w) (omega arith))),
      )
