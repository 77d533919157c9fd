-- ===== src/Ddl/Siu.antt =====
-- src/siu.cpp and include/librorc/siu.hh: the source interface unit.
use alice_hlt_librorc.Base.{ℕ, ◌==◌, Bool, not, bit_and, bit_or, ◌<<<◌, ◌>>>◌}
use alice_hlt_librorc.Base.State.{State, ◌>>=◌, pure}
use alice_hlt_librorc.Bar.{Bar}
use alice_hlt_librorc.Link.{Link, ddl_reg, set_ddl_reg}
use alice_hlt_librorc.Registers.{
  rorc_reg_ddl_ctrl, rorc_reg_ddl_total_words, rorc_reg_ddl_deadtime, rorc_reg_ddl_ec,
  rorc_reg_ddl_festw, rorc_reg_ddl_ifstw,
}

module _ {W : Type 0} (bar : Bar W) (l : Link) where
  unfoldable pub link_open : State W Bool
  link_open = do
    ddlctrl ← ddl_reg bar l rorc_reg_ddl_ctrl
    pure (not (bit_and (ddlctrl >>> 5) 1 == 0))

  unfoldable pub link_full : State W Bool
  link_full = do
    ddlctrl ← ddl_reg bar l rorc_reg_ddl_ctrl
    pure (not (bit_and (ddlctrl >>> 4) 1 == 1))

  unfoldable pub get_ddl_deadtime : State W ℕ
  get_ddl_deadtime = ddl_reg bar l rorc_reg_ddl_deadtime

  unfoldable pub clear_ddl_deadtime : State W (Unit {0})
  clear_ddl_deadtime = set_ddl_reg bar l rorc_reg_ddl_deadtime 0

  unfoldable pub get_eventcount : State W ℕ
  get_eventcount = ddl_reg bar l rorc_reg_ddl_ec

  unfoldable pub clear_eventcount : State W (Unit {0})
  clear_eventcount = set_ddl_reg bar l rorc_reg_ddl_ec 0

  unfoldable pub total_words_transmitted : State W ℕ
  total_words_transmitted = ddl_reg bar l rorc_reg_ddl_total_words

  unfoldable pub clear_interface_counters : State W (Unit {0})
  clear_interface_counters = do
    ddlctrl ← ddl_reg bar l rorc_reg_ddl_ctrl
    set_ddl_reg bar l rorc_reg_ddl_ctrl (bit_or ddlctrl (1 <<< 2))

  unfoldable pub last_front_end_command_word : State W ℕ
  last_front_end_command_word = ddl_reg bar l rorc_reg_ddl_festw

  unfoldable pub clear_last_front_end_command_word : State W (Unit {0})
  clear_last_front_end_command_word = set_ddl_reg bar l rorc_reg_ddl_festw 0

  unfoldable pub is_interface_fifo_empty : State W Bool
  is_interface_fifo_empty = do
    ddlctrl ← ddl_reg bar l rorc_reg_ddl_ctrl
    pure (bit_and (ddlctrl >>> 29) 1 == 1)

  unfoldable pub is_interface_fifo_full : State W Bool
  is_interface_fifo_full = do
    ddlctrl ← ddl_reg bar l rorc_reg_ddl_ctrl
    pure (bit_and (ddlctrl >>> 28) 1 == 1)

  unfoldable pub is_source_empty : State W Bool
  is_source_empty = do
    ddlctrl ← ddl_reg bar l rorc_reg_ddl_ctrl
    pure (bit_and (ddlctrl >>> 30) 1 == 1)

  unfoldable pub error_flags : State W ℕ
  error_flags = ddl_reg bar l rorc_reg_ddl_ifstw
