-- ===== src/Tests/DdlTests.antt =====
-- The control register of a detector data link.
use alice_hlt_librorc.Base.{ℕ}
use alice_hlt_librorc.Bar.Fields.{IsField, SetsField}
use alice_hlt_librorc.Link.{
  get_data_source_mux, set_channel_active, set_data_source_mux, set_flow_control_enable,
}
use alice_hlt_librorc.Registers.{rorc_reg_ddl_ctrl}
use alice_hlt_librorc.Ddl.{get_enable, set_enable, set_reset}
use alice_hlt_librorc.Ddl.Diu.{get_forced_xoff, set_forced_xoff}
use alice_hlt_librorc.Ddl.Fields.{ddl_address, ddl_ctrl-IsField}
use alice_hlt_librorc.Tests.Device.{first_link, registers, registers-IsMemory}

-- The value of a register.
abbrev keeps : ℕ → (ℕ → ℕ) → ℕ
keeps a w = w a

ddl_ctrl-IsField_example :
    let ctrl = ddl_address first_link rorc_reg_ddl_ctrl in
    IsField registers keeps ctrl 0 1
      (get_enable registers first_link)
      (set_enable registers first_link)
    × IsField registers keeps ctrl 6 1
        (get_forced_xoff registers first_link)
        (set_forced_xoff registers first_link)
    × IsField registers keeps ctrl 16 2
        (get_data_source_mux registers first_link)
        (set_data_source_mux registers first_link)
    × ((v : ℕ) (w : ℕ → ℕ)
        → SetsField registers keeps ctrl 1 1 v (set_flow_control_enable registers first_link v) w)
    × ((v : ℕ) (w : ℕ → ℕ)
        → SetsField registers keeps ctrl 3 1 v (set_channel_active registers first_link v) w)
    × ((v : ℕ) (w : ℕ → ℕ)
        → SetsField registers keeps ctrl 31 1 v (set_reset registers first_link v) w)
ddl_ctrl-IsField_example = ddl_ctrl-IsField registers keeps registers-IsMemory first_link
