-- ===== src/Sysmon/Fields.antt =====
-- The control registers of the system monitor: LEDs and DDR3 resets.
use alice_hlt_librorc.Base.{ℕ, ◌*◌, ◌%◌, ◌≡◌, refl, arith, bit_and}
use alice_hlt_librorc.Base.Bits.{bit_and_mask}
use alice_hlt_librorc.Base.Slices.{}
use alice_hlt_librorc.Bar.{Bar}
use alice_hlt_librorc.Bar.Memory.{IsMemory}
use alice_hlt_librorc.Bar.Fields.{IsField, IsFlag, Modifies-IsField, Modifies-IsFlag}
use alice_hlt_librorc.Registers.{rorc_reg_bracket_led_ctrl, rorc_reg_ddr3_ctrl}
use alice_hlt_librorc.Ddr3.{new_ddr3, set_reset}
use alice_hlt_librorc.Sysmon.{
  bracket_led_in_blink_mode, set_bracket_led_mode, get_linkmask, set_linkmask, ddr3_set_reset,
  ddr3_get_reset,
}

module _ {W : Type 0} (bar : Bar W) (word : ℕ → W → ℕ) (memory : IsMemory bar word) where
  -- On registers that keep their values, the LED mode and the link mask are fields of one register,
  -- and the reset of a DDR3 controller a bit of its half of another, each set and read back with no
  -- effect on the rest; `ddr3SetReset` does what `setReset` of the class `ddr3` does.
  pub sysmon_fields :
      IsFlag bar word rorc_reg_bracket_led_ctrl 31
        (bracket_led_in_blink_mode bar)
        (set_bracket_led_mode bar)
      × IsField bar word rorc_reg_bracket_led_ctrl 0 31 (get_linkmask bar) (set_linkmask bar)
      × ((controller : ℕ)
          → IsField bar word rorc_reg_ddr3_ctrl
              (controller % 2 * 16)
              1
              (ddr3_get_reset bar controller)
              (ddr3_set_reset bar controller))
      × ((controller value : ℕ) (w : W)
          → ddr3_set_reset bar controller value w ≡ set_reset bar (new_ddr3 controller) value w)
  unfolding bracket_led_in_blink_mode set_bracket_led_mode get_linkmask set_linkmask ddr3_get_reset
      ddr3_set_reset set_reset new_ddr3
  sysmon_fields = (
    Modifies-IsFlag bar word memory rorc_reg_bracket_led_ctrl 31 _ _ (omega arith) (λ v w. refl)
        (λ w. refl),
    Modifies-IsField bar word memory rorc_reg_bracket_led_ctrl 0 31 _ _ (omega arith) (λ v w. refl)
        (λ w. refl),
    λ c.
        let low : bit_and c 1 ≡ c % 2 = bit_and_mask 1 c in
        let half : 16 * (c % 2) ≡ c % 2 * 16 = omega arith in
        Modifies-IsField bar word memory rorc_reg_ddr3_ctrl (c % 2 * 16) 1 _ _ (omega arith)
          (λ v w. rw (low, half) refl) (λ w. rw (low, half) refl),
    λ c v w. let half : 16 * bit_and c 1 ≡ bit_and c 1 * 16 = omega arith in rw half refl,
  )
