-- ===== src/Tests/SourceTests.antt =====
-- The cluster finder after its set-up, on registers that keep their values.
use alice_hlt_librorc.Base.{ℕ, ◌<◌, ◌≡◌, ◌==◌, ◌||◌, if◌then◌else◌}
use alice_hlt_librorc.Base.Bits.{bit}
use alice_hlt_librorc.Base.Fallible.{returned}
use alice_hlt_librorc.Ddl.Fields.{ddl_address}
use alice_hlt_librorc.Registers.{rorc_reg_fcf_ctrl}
use alice_hlt_librorc.DataSource.{configure_present_fcf}
use alice_hlt_librorc.DataSource.ClusterFinder.{configure_present_fcf-bits}
use alice_hlt_librorc.Tests.Device.{registers, registers-IsMemory, first_link}

-- The value of a register.
abbrev keeps : ℕ → (ℕ → ℕ) → ℕ
keeps a w = w a

abbrev some_values : ℕ → ℕ
some_values a = a

configure_present_fcf-bits_example :
    (w' : ℕ → ℕ) × (configure_present_fcf registers first_link some_values ≡ (returned tt, w'))
    × ((j : ℕ)
        → j < 32
        → bit j (keeps (ddl_address first_link rorc_reg_fcf_ctrl) w') ≡ (
            if j == 0 || j == 4 || j == 5 || j == 13
            then 1
            else if j == 1 || j == 2 || j == 3 || j == 15
            then 0
            else bit j (keeps (ddl_address first_link rorc_reg_fcf_ctrl) some_values)))
configure_present_fcf-bits_example =
    configure_present_fcf-bits registers keeps registers-IsMemory first_link some_values
