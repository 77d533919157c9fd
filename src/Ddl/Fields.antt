-- ===== src/Ddl/Fields.antt =====
-- The fields of the control register of a detector data link.
use alice_hlt_librorc.Base.{ℕ, ◌+◌, ◌^◌, refl, arith, u32}
use alice_hlt_librorc.Base.Bits.{}
use alice_hlt_librorc.Base.Slices.{}
use alice_hlt_librorc.Bar.{Bar}
use alice_hlt_librorc.Bar.Memory.{IsMemory}
use alice_hlt_librorc.Bar.Fields.{IsField, SetsField, Modifies-IsField, Modifies-SetsField}
use alice_hlt_librorc.Link.{
  Link, ddl_reg, set_ddl_reg, set_flow_control_enable, set_channel_active, set_data_source_mux,
  get_data_source_mux,
}
use alice_hlt_librorc.Registers.{rorc_reg_ddl_ctrl, rorc_regfile_ddl_sel}
use alice_hlt_librorc.Ddl.{set_enable, get_enable, set_reset}
use alice_hlt_librorc.Ddl.Diu.{set_forced_xoff, get_forced_xoff}

-- The address of a register of the link's clock domain.
abbrev pub ddl_address : Link → ℕ → ℕ
ddl_address l addr = u32 (l.base + 2 ^ rorc_regfile_ddl_sel + addr)

module _ {W : Type 0} (bar : Bar W) (word : ℕ → W → ℕ) (memory : IsMemory bar word) (l : Link) where
  -- On registers that keep their values, the enable bit, the forced XOFF and the data source are
  -- fields of the control register, each set and read back with no effect on another; the flow
  -- control bit, the activity bit and the reset bit are set without an effect on another.
  pub ddl_ctrl-IsField :
      let ctrl = ddl_address l rorc_reg_ddl_ctrl in
      IsField bar word ctrl 0 1 (get_enable bar l) (set_enable bar l)
      × IsField bar word ctrl 6 1 (get_forced_xoff bar l) (set_forced_xoff bar l)
      × IsField bar word ctrl 16 2 (get_data_source_mux bar l) (set_data_source_mux bar l)
      × ((v : ℕ) (w : W) → SetsField bar word ctrl 1 1 v (set_flow_control_enable bar l v) w)
      × ((v : ℕ) (w : W) → SetsField bar word ctrl 3 1 v (set_channel_active bar l v) w)
      × ((v : ℕ) (w : W) → SetsField bar word ctrl 31 1 v (set_reset bar l v) w)
  unfolding ddl_reg set_ddl_reg set_enable get_enable set_forced_xoff get_forced_xoff
      set_data_source_mux get_data_source_mux set_flow_control_enable set_channel_active set_reset
  ddl_ctrl-IsField =
      let ctrl = ddl_address l rorc_reg_ddl_ctrl in
      (
        Modifies-IsField bar word memory ctrl 0 1 _ _ (omega arith) (λ v w. refl) (λ w. refl),
        Modifies-IsField bar word memory ctrl 6 1 _ _ (omega arith) (λ v w. refl) (λ w. refl),
        Modifies-IsField bar word memory ctrl 16 2 _ _ (omega arith) (λ v w. refl) (λ w. refl),
        λ v w. Modifies-SetsField bar word memory ctrl 1 1 v _ w (omega arith) (λ w. refl),
        λ v w. Modifies-SetsField bar word memory ctrl 3 1 v _ w (omega arith) (λ w. refl),
        λ v w. Modifies-SetsField bar word memory ctrl 31 1 v _ w (omega arith) (λ w. refl),
      )
