-- ===== src/PatternGenerator.antt =====
-- src/patterngenerator.cpp and include/librorc/patterngenerator.hh: the generator of test events of a
-- link.
pub mod Modes
use alice_hlt_librorc.Base.{
  ℕ, ◌-◌, ◌^◌, ◌==◌, Bool, true, false, not, ◌||◌, bit_and, bit_or, if◌then◌else◌, ◌<<<◌, ◌>>>◌,
}
use alice_hlt_librorc.Base.State.{State, ◌>>=◌, ◌>>◌, pure}
use alice_hlt_librorc.Base.Polling.{wait_until}
use alice_hlt_librorc.Bar.{Bar}
use alice_hlt_librorc.Link.{Link, ddl_reg, set_ddl_reg}
use alice_hlt_librorc.Registers.{
  rorc_reg_ddl_ctrl, rorc_reg_ddl_pg_event_length, rorc_reg_ddl_pg_num_events,
}

abbrev pub pg_pattern_inc : ℕ
pg_pattern_inc = 0

abbrev pub pg_pattern_dec : ℕ
pg_pattern_dec = 2

abbrev pub pg_pattern_shift : ℕ
pg_pattern_shift = 1

abbrev pub pg_pattern_toggle : ℕ
pg_pattern_toggle = 3

abbrev pub librorc_pg_timeout : ℕ
librorc_pg_timeout = 1000

-- The mode and the continuous bit that `configureMode` puts into the control register.
unfoldable pub mode_value : ℕ → ℕ → ℕ → ℕ
mode_value pattern_mode number_of_events ddlctrl =
    let cleared = bit_and ddlctrl (2 ^ 32 - 1 - (3 <<< 11)) in
    let with_mode =
      if pattern_mode == pg_pattern_dec
        || pattern_mode == pg_pattern_shift
        || pattern_mode == pg_pattern_toggle
      then bit_or cleared (bit_and pattern_mode 3 <<< 11)
      else bit_or cleared (pg_pattern_inc <<< 11) in
    if number_of_events == 0
    then bit_or with_mode (1 <<< 10)
    else bit_and with_mode (2 ^ 32 - 1 - (1 <<< 10))

module _ {W : Type 0} (bar : Bar W) (l : Link) where
  unfoldable pub enable : State W (Unit {0})
  enable = do
    ddlctrl ← ddl_reg bar l rorc_reg_ddl_ctrl
    set_ddl_reg bar l rorc_reg_ddl_ctrl (bit_or ddlctrl (1 <<< 8))

  unfoldable pub done : State W Bool
  done = do ddlctrl ← ddl_reg bar l rorc_reg_ddl_ctrl; pure (bit_and (ddlctrl >>> 14) 1 == 1)

  -- A timeout of the wait is not reported.
  unfoldable pub stop : ℕ → State W (Unit {0})
  stop ddlctrl = do
    set_ddl_reg bar l rorc_reg_ddl_ctrl (bit_and ddlctrl (2 ^ 32 - 1 - (1 <<< 8)))
    timeout ← wait_until done (bar.usleep 100) librorc_pg_timeout
    pure tt

  unfoldable pub disable : State W (Unit {0})
  disable = do
    ddlctrl ← ddl_reg bar l rorc_reg_ddl_ctrl
    if bit_and ddlctrl (1 <<< 8) == 0 then pure tt else stop ddlctrl

  unfoldable pub reset_event_id : State W (Unit {0})
  reset_event_id = do
    ddlctrl ← ddl_reg bar l rorc_reg_ddl_ctrl
    let raised = bit_or ddlctrl (1 <<< 9)
    set_ddl_reg bar l rorc_reg_ddl_ctrl raised
    set_ddl_reg bar l rorc_reg_ddl_ctrl (bit_and raised (2 ^ 32 - 1 - (1 <<< 9)))

  unfoldable pub set_static_event_size : ℕ → State W (Unit {0})
  set_static_event_size event_size = do
    set_ddl_reg bar l rorc_reg_ddl_pg_event_length event_size
    ddlctrl ← ddl_reg bar l rorc_reg_ddl_ctrl
    set_ddl_reg bar l rorc_reg_ddl_ctrl (bit_and ddlctrl (2 ^ 32 - 1 - (1 <<< 13)))

  unfoldable pub set_prbs_size : ℕ → ℕ → State W (Unit {0})
  set_prbs_size prbs_min_size prbs_max_size_mask = do
    let event_size = bit_or (bit_and prbs_max_size_mask 0xffff_0000) prbs_min_size
    set_ddl_reg bar l rorc_reg_ddl_pg_event_length event_size
    ddlctrl ← ddl_reg bar l rorc_reg_ddl_ctrl
    set_ddl_reg bar l rorc_reg_ddl_ctrl (bit_or ddlctrl (1 <<< 13))

  -- `initialPattern` is not used.
  unfoldable pub configure_mode : ℕ → ℕ → ℕ → State W (Unit {0})
  configure_mode pattern_mode initial_pattern number_of_events = do
    ddlctrl ← ddl_reg bar l rorc_reg_ddl_ctrl
    if number_of_events == 0
        then pure tt
        else set_ddl_reg bar l rorc_reg_ddl_pg_num_events number_of_events
    set_ddl_reg bar l rorc_reg_ddl_ctrl (mode_value pattern_mode number_of_events ddlctrl)

  unfoldable pub use_as_data_source : State W (Unit {0})
  use_as_data_source = do
    ddlctrl ← ddl_reg bar l rorc_reg_ddl_ctrl
    let cleared = bit_and ddlctrl (2 ^ 32 - 1 - (3 <<< 16))
    set_ddl_reg bar l rorc_reg_ddl_ctrl (bit_or cleared (2 <<< 16))
