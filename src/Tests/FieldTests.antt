-- ===== src/Tests/FieldTests.antt =====
-- The replay channel, the filter and the pattern generator on registers that keep their values.
use alice_hlt_librorc.Base.{if◌then◌else◌, ℕ, ◌%◌, ◌*◌, ◌-◌, ◌/◌, ◌<◌, ◌==◌, ◌^◌, ◌≡◌}
use alice_hlt_librorc.Base.Bits.{bit}
use alice_hlt_librorc.Base.Slices.{inside}
use alice_hlt_librorc.Bar.Fields.{IsFlag, SetsField}
use alice_hlt_librorc.Registers.{
  rorc_reg_ddl_ctrl, rorc_reg_ddl_pg_num_events, rorc_reg_ddr3_data_replay_channel_ctrl,
}
use alice_hlt_librorc.Ddl.Fields.{ddl_address}
use alice_hlt_librorc.DataReplayChannel.{
  is_continuous_enabled, is_enabled, is_in_reset, is_oneshot_enabled, set_enable,
  set_mode_continuous, set_mode_oneshot, set_reset, set_start_address, start_address,
}
use alice_hlt_librorc.DataReplayChannel.Fields.{replay_ctrl-fields}
use alice_hlt_librorc.EventFilter.{}
use alice_hlt_librorc.EventFilter.Fields.{}
use alice_hlt_librorc.PatternGenerator.{configure_mode}
use alice_hlt_librorc.PatternGenerator.Modes.{configure_mode-bits, pattern_of}
use alice_hlt_librorc.Tests.Device.{first_link, registers, registers-IsMemory}

-- The value of a register.
abbrev keeps : ℕ → (ℕ → ℕ) → ℕ
keeps a w = w a

abbrev some_values : ℕ → ℕ
some_values a = a

replay_ctrl-fields_example :
    let ctrl = ddl_address first_link rorc_reg_ddr3_data_replay_channel_ctrl in
    IsFlag registers keeps ctrl 0
      (is_enabled registers first_link)
      (set_enable registers first_link)
    × IsFlag registers keeps ctrl 1
        (is_continuous_enabled registers first_link)
        (set_mode_continuous registers first_link)
    × IsFlag registers keeps ctrl 2
        (is_oneshot_enabled registers first_link)
        (set_mode_oneshot registers first_link)
    × IsFlag registers keeps ctrl 31
        (is_in_reset registers first_link)
        (set_reset registers first_link)
    × ((v : ℕ) (w : ℕ → ℕ)
        → SetsField registers keeps ctrl 3 28 (v / 8) (set_start_address registers first_link v) w)
    × ((v : ℕ) (w : ℕ → ℕ)
        → (start_address registers first_link (set_start_address registers first_link v w).1).0
          ≡ v / 8 % 2 ^ 28 * 8)
replay_ctrl-fields_example = replay_ctrl-fields registers keeps registers-IsMemory first_link

configure_mode-bits_example :
    let ctrl = ddl_address first_link rorc_reg_ddl_ctrl in
    let num_events = ddl_address first_link rorc_reg_ddl_pg_num_events in
    let after = (configure_mode registers first_link 2 0x55aa 5 some_values).1 in
    ((j : ℕ)
      → j < 32
      → bit j (keeps ctrl after) ≡ (
          if j == 10
          then (if 5 == 0 then 1 else 0)
          else if inside 11 2 j
          then bit (j - 11) (pattern_of 2)
          else bit j (keeps ctrl some_values)))
    × (keeps num_events after ≡ (if 5 == 0 then keeps num_events some_values else 5))
configure_mode-bits_example =
    configure_mode-bits registers keeps registers-IsMemory first_link 2 0x55aa 5 some_values
