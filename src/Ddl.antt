-- ===== src/Ddl.antt =====
-- src/ddl.cpp and include/librorc/ddl.hh: what the two interface units of a detector data link have
-- in common. The children model src/diu.cpp and src/siu.cpp. A field at bit 0 has a shift by 0.
pub mod Diu
pub mod Siu
pub mod Fields
pub mod Commands
use alice_hlt_librorc.Base.{ℕ, ◌-◌, ◌^◌, bit_and, bit_or, ◌<<<◌, ◌>>>◌}
use alice_hlt_librorc.Base.State.{State, ◌>>=◌, ◌>>◌, pure}
use alice_hlt_librorc.Bar.{Bar}
use alice_hlt_librorc.Link.{Link, ddl_reg, set_ddl_reg}
use alice_hlt_librorc.Registers.{rorc_reg_ddl_ctrl, rorc_reg_ddl_dma_deadtime}

module _ {W : Type 0} (bar : Bar W) (l : Link) where
  unfoldable pub set_reset : ℕ → State W (Unit {0})
  set_reset value = do
    ddlctrl ← ddl_reg bar l rorc_reg_ddl_ctrl
    let cleared = bit_and ddlctrl (2 ^ 32 - 1 - (1 <<< 31))
    set_ddl_reg bar l rorc_reg_ddl_ctrl (bit_or cleared (bit_and value 1 <<< 31))

  unfoldable pub get_reset : State W ℕ
  get_reset = do ddlctrl ← ddl_reg bar l rorc_reg_ddl_ctrl; pure (ddlctrl >>> 31)

  unfoldable pub get_dma_deadtime : State W ℕ
  get_dma_deadtime = ddl_reg bar l rorc_reg_ddl_dma_deadtime

  unfoldable pub clear_dma_deadtime : State W (Unit {0})
  clear_dma_deadtime = set_ddl_reg bar l rorc_reg_ddl_dma_deadtime 0

  unfoldable pub set_enable : ℕ → State W (Unit {0})
  set_enable value = do
    ddlctrl ← ddl_reg bar l rorc_reg_ddl_ctrl
    let cleared = bit_and ddlctrl (2 ^ 32 - 1 - (1 <<< 0))
    set_ddl_reg bar l rorc_reg_ddl_ctrl (bit_or cleared (bit_and value 1 <<< 0))

  unfoldable pub get_enable : State W ℕ
  get_enable = do ddlctrl ← ddl_reg bar l rorc_reg_ddl_ctrl; pure (bit_and (ddlctrl >>> 0) 1)
