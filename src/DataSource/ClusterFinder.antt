-- ===== src/DataSource/ClusterFinder.antt =====
-- What `configureFcf` leaves in the control register of the cluster finder.
use alice_hlt_librorc.Base.{
  ℕ, ◌-◌, ◌≤◌, Bool-cases, inl, inr, false, ◌*◌, ◌^◌, ◌<◌, ◌≡◌, ◌≢◌, refl, arith, ◌==◌,
  if◌then◌else◌, true, bit_and, bit_or, ◌||◌,
}
use alice_hlt_librorc.Base.Bits.{bit, bit-or, bit-and, bit-le}
use alice_hlt_librorc.Base.Slices.{bit-mask, bit-complement, inside}
use alice_hlt_librorc.Base.Fallible.{returned}
use alice_hlt_librorc.Base.State.{State}
use alice_hlt_librorc.Bar.{Bar}
use alice_hlt_librorc.Bar.Memory.{IsMemory}
use alice_hlt_librorc.Bar.Fields.{SetsField}
use alice_hlt_librorc.Link.{Link, ddl_reg, set_ddl_reg}
use alice_hlt_librorc.Ddl.Fields.{ddl_address}
use alice_hlt_librorc.Registers.{rorc_reg_fcf_ctrl, rorc_reg_fcf_limits}
use alice_hlt_librorc.FastClusterFinder.{
  set_reset, set_enable, set_bypass, clear_errors, set_single_pad_suppression, set_bypass_merger,
  set_deconv_pad, set_single_seq_limit, set_cluster_lower_limit, set_merger_distance,
  set_merger_algorithm, set_charge_tolerance,
}
use alice_hlt_librorc.FastClusterFinder.Fields.{fcf_ctrl-IsField, fcf_limits-IsField}
use alice_hlt_librorc.DataSource.{configure_present_fcf}

module _ {W : Type 0} (bar : Bar W) (word : ℕ → W → ℕ) (memory : IsMemory bar word) (l : Link) where
  -- `clearErrors` sets bit 1 and clears it again.
  clear_errors-bits :
      (w : W) (j : ℕ)
      → j < 32
      → bit j (word (ddl_address l rorc_reg_fcf_ctrl) (clear_errors bar l w).1)
        ≡ (if j == 1 then 0 else bit j (word (ddl_address l rorc_reg_fcf_ctrl) w))
  unfolding clear_errors ddl_reg set_ddl_reg
  clear_errors-bits w j h =
      let ctrl = ddl_address l rorc_reg_fcf_ctrl in
      let reg = word ctrl w in
      let raised = bit_or reg (1 * 2 ^ 1) in
      let lowered = bit_and raised (2 ^ 32 - 1 - 1 * 2 ^ 1) in
      let first = (bar.set32 ctrl raised w).1 in
      let written : word ctrl (bar.set32 ctrl lowered first).1 ≡ lowered =
        ground (arith, memory.writes ctrl lowered first ctrl) in
      rw
        (
          memory.reads ctrl w,
          written,
          bit-and j raised,
          bit-or j reg,
          bit-complement 32 (1 * 2 ^ 1) j (omega arith) h,
          bit-mask 1 1 j,
        )
        (ground (arith, bit-le j reg))

  -- A field of one bit that is set to 0 or 1.
  SetsField-bit :
      (k v : ℕ) (op : State W (Unit {0})) (w : W)
      → SetsField bar word (ddl_address l rorc_reg_fcf_ctrl) k 1 v op w
      → v ≤ 1
      → (j : ℕ) → j < 32
      → bit j (word (ddl_address l rorc_reg_fcf_ctrl) (op w).1)
        ≡ (if j == k then v else bit j (word (ddl_address l rorc_reg_fcf_ctrl) w))
  unfolding bit
  SetsField-bit k v op w sets small j h =
      let low : bit 0 v ≡ v = omega arith in
      elim (Bool-cases (j == k)) [
        | inl here ↦
            let same : j - k ≡ 0 = ground arith in
            let in_field : inside k 1 j ≡ true = ground arith in
            rw (sets.bits j h, here, in_field, same) low
        | inr elsewhere ↦
            let outside : inside k 1 j ≡ false = ground arith in
            rw (sets.bits j h, elsewhere, outside) refl
      ]

  -- On registers that keep their values, `configureFcf` of a cluster finder leaves it enabled and out
  -- of reset, in bypass mode, with the deconvolution and the merger algorithm on, and with single
  -- pad suppression and the merger bypass off. Bit 1, which clears the errors while it is set, is
  -- off again, and the other bits of the control register are as they were.
  pub configure_present_fcf-bits :
      (w : W)
      → (w' : W) × (configure_present_fcf bar l w ≡ (returned tt, w'))
        × ((j : ℕ)
            → j < 32
            → bit j (word (ddl_address l rorc_reg_fcf_ctrl) w') ≡ (
                if j == 0 || j == 4 || j == 5 || j == 13
                then 1
                else if j == 1 || j == 2 || j == 3 || j == 15
                then 0
                else bit j (word (ddl_address l rorc_reg_fcf_ctrl) w)))
  unfolding configure_present_fcf
  configure_present_fcf-bits w =
      let fields = fcf_ctrl-IsField bar word memory l in
      let limits = fcf_limits-IsField bar word memory l in
      let ctrl = ddl_address l rorc_reg_fcf_ctrl in
      let apart : ctrl ≢ ddl_address l rorc_reg_fcf_limits = λ e. omega arith in
      let w1 = (set_reset bar l 1 w).1 in
      let w2 = (set_enable bar l 0 w1).1 in
      let w3 = (set_bypass bar l 1 w2).1 in
      let w4 = (clear_errors bar l w3).1 in
      let w5 = (set_single_pad_suppression bar l 0 w4).1 in
      let w6 = (set_bypass_merger bar l 0 w5).1 in
      let w7 = (set_deconv_pad bar l 1 w6).1 in
      let w8 = (set_single_seq_limit bar l 0 w7).1 in
      let w9 = (set_cluster_lower_limit bar l 10 w8).1 in
      let w10 = (set_merger_distance bar l 4 w9).1 in
      let w11 = (set_merger_algorithm bar l 1 w10).1 in
      let w12 = (set_charge_tolerance bar l 0 w11).1 in
      let w13 = (set_reset bar l 0 w12).1 in
      let w14 = (set_enable bar l 1 w13).1 in
      (
        w14,
        refl,
        λ j h.
            rw
              (
                SetsField-bit 0 1 _ w13 (fields.10 1 w13) (omega arith) j h,
                SetsField-bit 15 0 _ w12 (fields.9 0 w12) (omega arith) j h,
                (limits.3.sets 0 w11).others ctrl apart,
                SetsField-bit 5 1 _ w10 (fields.3.sets 1 w10) (omega arith) j h,
                (limits.2.sets 4 w9).others ctrl apart,
                (limits.0.sets 10 w8).others ctrl apart,
                (limits.1.sets 0 w7).others ctrl apart,
                SetsField-bit 4 1 _ w6 (fields.2.sets 1 w6) (omega arith) j h,
                SetsField-bit 3 0 _ w5 (fields.1.sets 0 w5) (omega arith) j h,
                SetsField-bit 2 0 _ w4 (fields.0.sets 0 w4) (omega arith) j h,
                clear_errors-bits w3 j h,
                SetsField-bit 13 1 _ w2 (fields.11 1 w2) (omega arith) j h,
                SetsField-bit 0 0 _ w1 (fields.10 0 w1) (omega arith) j h,
                SetsField-bit 15 1 _ w (fields.9 1 w) (omega arith) j h,
              )
              (ground arith),
      )
