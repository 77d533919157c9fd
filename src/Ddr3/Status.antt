-- ===== src/Ddr3/Status.antt =====
-- The status tests of a DDR3 controller, bit by bit, and its reset.
use alice_hlt_librorc.Base.{ℕ, ◌*◌, ◌%◌, ◌≡◌, ◌↔◌, refl, true, arith}
use alice_hlt_librorc.Base.Bits.{bit, bit_and-masked, bit_and_mask}
use alice_hlt_librorc.Bar.{Bar}
use alice_hlt_librorc.Bar.Memory.{IsMemory}
use alice_hlt_librorc.Bar.Fields.{IsField, Modifies-IsField}
use alice_hlt_librorc.Registers.{rorc_reg_ddr3_ctrl}
use alice_hlt_librorc.Ddr3.{
  new_ddr3, successful_mask, phase_done_mask, is_successful, is_phase_done, set_reset, get_reset,
}

-- The status of a controller is one of success exactly when it is not in reset, the PHY is
-- initialised, the PLL is locked, read levelling has started and both levellings are done, with no
-- error of either; every such status passes the weaker test of the initialisation phase.
pub is_successful_iff :
    (s : ℕ)
    → ((is_successful s ≡ true) ↔ (
        (bit 0 s ≡ 0)
        × (bit 1 s ≡ 1)
        × (bit 2 s ≡ 1)
        × (bit 3 s ≡ 1)
        × (bit 4 s ≡ 1)
        × (bit 5 s ≡ 0)
        × (bit 7 s ≡ 1)
        × (bit 8 s ≡ 0)))
      × (is_successful s ≡ true → is_phase_done s ≡ true)
unfolding is_successful is_phase_done bit
is_successful_iff s = (
  ground (arith, bit_and-masked 9 s successful_mask),
  ground (arith, bit_and-masked 9 s successful_mask, bit_and-masked 9 s phase_done_mask),
)

module _ {W : Type 0} (bar : Bar W) (word : ℕ → W → ℕ) (memory : IsMemory bar word) where
  -- On registers that keep their values, the reset of a controller is a bit of its half of the
  -- shared register, set and read back with no effect on the other controller.
  pub reset-IsField :
      (module_id : ℕ)
      → let d = new_ddr3 module_id in
        (d.offset ≡ module_id % 2 * 16)
        × IsField bar word rorc_reg_ddr3_ctrl d.offset 1 (get_reset bar d) (set_reset bar d)
  unfolding set_reset get_reset new_ddr3
  reset-IsField module_id =
      let d = new_ddr3 module_id in
      let half : d.offset ≡ module_id % 2 * 16 = rw (bit_and_mask 1 module_id) refl in
      (
        half,
        Modifies-IsField bar word memory rorc_reg_ddr3_ctrl d.offset 1 _ _ (omega (arith, half))
            (λ v w. refl) (λ w. refl),
      )
