-- ===== src/DataReplayChannel.antt =====
-- src/datareplaychannel.cpp and include/librorc/datareplaychannel.hh: the channel that replays events
-- from the DDR3 memory into a link.
pub mod Fields
use alice_hlt_librorc.Base.{ℕ, ◌-◌, ◌^◌, ◌==◌, Bool, not, bit_and, bit_or, ◌<<<◌}
use alice_hlt_librorc.Base.State.{State, ◌>>=◌, pure}
use alice_hlt_librorc.Bar.{Bar}
use alice_hlt_librorc.Link.{Link, ddl_reg, set_ddl_reg}
use alice_hlt_librorc.Registers.{
  rorc_reg_ddr3_data_replay_channel_ctrl, rorc_reg_ddr3_data_replay_channel_sts,
  rorc_reg_ddl_pg_num_events,
}

module _ {W : Type 0} (bar : Bar W) (l : Link) where
  unfoldable pub is_done : State W Bool
  is_done = do
    chsts ← ddl_reg bar l rorc_reg_ddr3_data_replay_channel_sts
    pure (not (bit_and chsts (1 <<< 0) == 0))

  unfoldable pub is_waiting : State W Bool
  is_waiting = do
    chsts ← ddl_reg bar l rorc_reg_ddr3_data_replay_channel_sts
    pure (not (bit_and chsts (1 <<< 1) == 0))

  unfoldable pub is_oneshot_enabled : State W Bool
  is_oneshot_enabled = do
    chctrl ← ddl_reg bar l rorc_reg_ddr3_data_replay_channel_ctrl
    pure (not (bit_and chctrl (1 <<< 2) == 0))

  unfoldable pub is_continuous_enabled : State W Bool
  is_continuous_enabled = do
    chctrl ← ddl_reg bar l rorc_reg_ddr3_data_replay_channel_ctrl
    pure (not (bit_and chctrl (1 <<< 1) == 0))

  unfoldable pub is_enabled : State W Bool
  is_enabled = do
    chctrl ← ddl_reg bar l rorc_reg_ddr3_data_replay_channel_ctrl
    pure (not (bit_and chctrl (1 <<< 0) == 0))

  unfoldable pub is_in_reset : State W Bool
  is_in_reset = do
    chctrl ← ddl_reg bar l rorc_reg_ddr3_data_replay_channel_ctrl
    pure (not (bit_and chctrl (1 <<< 31) == 0))

  unfoldable pub set_enable : ℕ → State W (Unit {0})
  set_enable enable = do
    chctrl ← ddl_reg bar l rorc_reg_ddr3_data_replay_channel_ctrl
    let cleared = bit_and chctrl (2 ^ 32 - 1 - (1 <<< 0))
    set_ddl_reg bar l rorc_reg_ddr3_data_replay_channel_ctrl
        (bit_or cleared (bit_and enable 1 <<< 0))

  unfoldable pub set_reset : ℕ → State W (Unit {0})
  set_reset reset = do
    chctrl ← ddl_reg bar l rorc_reg_ddr3_data_replay_channel_ctrl
    let cleared = bit_and chctrl (2 ^ 32 - 1 - (1 <<< 31))
    set_ddl_reg bar l rorc_reg_ddr3_data_replay_channel_ctrl
        (bit_or cleared (bit_and reset 1 <<< 31))

  unfoldable pub set_mode_oneshot : ℕ → State W (Unit {0})
  set_mode_oneshot oneshot = do
    chctrl ← ddl_reg bar l rorc_reg_ddr3_data_replay_channel_ctrl
    let cleared = bit_and chctrl (2 ^ 32 - 1 - (1 <<< 2))
    set_ddl_reg bar l rorc_reg_ddr3_data_replay_channel_ctrl
        (bit_or cleared (bit_and oneshot 1 <<< 2))

  unfoldable pub set_mode_continuous : ℕ → State W (Unit {0})
  set_mode_continuous continuous = do
    chctrl ← ddl_reg bar l rorc_reg_ddr3_data_replay_channel_ctrl
    let cleared = bit_and chctrl (2 ^ 32 - 1 - (1 <<< 1))
    set_ddl_reg bar l rorc_reg_ddr3_data_replay_channel_ctrl
        (bit_or cleared (bit_and continuous 1 <<< 1))

  unfoldable pub next_address : State W ℕ
  next_address = do
    chsts ← ddl_reg bar l rorc_reg_ddr3_data_replay_channel_sts
    pure (bit_and chsts 0x7fff_fff8)

  unfoldable pub start_address : State W ℕ
  start_address = do
    chctrl ← ddl_reg bar l rorc_reg_ddr3_data_replay_channel_ctrl
    pure (bit_and chctrl 0x7fff_fff8)

  unfoldable pub set_start_address : ℕ → State W (Unit {0})
  set_start_address start_address = do
    ch_cfg ← ddl_reg bar l rorc_reg_ddr3_data_replay_channel_ctrl
    let cleared = bit_and ch_cfg (2 ^ 32 - 1 - 0x7fff_fff8)
    set_ddl_reg bar l rorc_reg_ddr3_data_replay_channel_ctrl
        (bit_or cleared (bit_and start_address 0x7fff_fff8))

  unfoldable pub set_event_limit : ℕ → State W (Unit {0})
  set_event_limit event_limit = set_ddl_reg bar l rorc_reg_ddl_pg_num_events event_limit

  unfoldable pub event_limit : State W ℕ
  event_limit = ddl_reg bar l rorc_reg_ddl_pg_num_events
