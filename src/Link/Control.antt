-- ===== src/Link/Control.antt =====
-- The control register of a link: each setter changes its own field.
use alice_hlt_librorc.Base.{ℕ, ◌%◌, ◌<◌, ◌≡◌, refl, arith, ◌==◌, if◌then◌else◌}
use alice_hlt_librorc.Base.State.{State}
use alice_hlt_librorc.Base.Bits.{bit}
use alice_hlt_librorc.Base.Fields.{bit-put, bit-put_pair}
use alice_hlt_librorc.Bar.{Bar}
use alice_hlt_librorc.Registers.{rorc_reg_ddl_ctrl}
use alice_hlt_librorc.Link.{
  Link, ddl_reg, set_ddl_reg, set_flow_control_enable, set_channel_active, set_data_source_mux,
}

module _ {W : Type 0} (bar : Bar W) (l : Link) where
  -- One read of the control register, then one write of it whose bits are `field` of those read.
  pub record Updates (field : ℕ → ℕ → ℕ) (op : State W (Unit {0})) (w : W) : Type 0 where
    pub value : ℕ
    pub writes :
        let (ctrl, w') = ddl_reg bar l rorc_reg_ddl_ctrl w in
        op w ≡ set_ddl_reg bar l rorc_reg_ddl_ctrl value w'
    pub bits : (j : ℕ) → j < 32 → bit j value ≡ field j (ddl_reg bar l rorc_reg_ddl_ctrl w).0

  -- `setFlowControlEnable` writes bit 1 and keeps the others.
  pub set_flow_control_enable-Updates :
      (enable : ℕ) (w : W)
      → Updates
          (λ j ctrl. if j == 1 then enable % 2 else bit j ctrl)
          (set_flow_control_enable bar l enable)
          w
  unfolding set_flow_control_enable
  set_flow_control_enable-Updates enable w = record {
    value = _;
    writes = refl;
    bits = λ j h. bit-put 1 enable (ddl_reg bar l rorc_reg_ddl_ctrl w).0 j (omega arith) h;
  }

  -- `setChannelActive` writes bit 3 and keeps the others.
  pub set_channel_active-Updates :
      (active : ℕ) (w : W)
      → Updates
          (λ j ctrl. if j == 3 then active % 2 else bit j ctrl)
          (set_channel_active bar l active)
          w
  unfolding set_channel_active
  set_channel_active-Updates active w = record {
    value = _;
    writes = refl;
    bits = λ j h. bit-put 3 active (ddl_reg bar l rorc_reg_ddl_ctrl w).0 j (omega arith) h;
  }

  -- `setDataSourceMux` writes bits 16 and 17 and keeps the others.
  pub set_data_source_mux-Updates :
      (v : ℕ) (w : W)
      → Updates
          (λ j ctrl.
            if j == 16 then bit 0 (v % 4) else if j == 17 then bit 1 (v % 4) else bit j ctrl)
          (set_data_source_mux bar l v)
          w
  unfolding set_data_source_mux
  set_data_source_mux-Updates v w = record {
    value = _;
    writes = refl;
    bits = λ j h. bit-put_pair v (ddl_reg bar l rorc_reg_ddl_ctrl w).0 j h;
  }
