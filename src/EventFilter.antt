-- ===== src/EventFilter.antt =====
-- src/eventfilter.cpp and include/librorc/eventfilter.hh: the filter of the events of a link.
pub mod Fields
use alice_hlt_librorc.Base.{
  ℕ, ◌-◌, ◌^◌, ◌==◌, Bool, not, bit_and, bit_or, if◌then◌else◌, ◌<<<◌, ◌>>>◌,
}
use alice_hlt_librorc.Base.State.{State, ◌>>=◌, pure}
use alice_hlt_librorc.Bar.{Bar}
use alice_hlt_librorc.Link.{Link, ddl_reg, set_ddl_reg}
use alice_hlt_librorc.Registers.{rorc_reg_ddl_filter_ctrl}

module _ {W : Type 0} (bar : Bar W) (l : Link) where
  unfoldable pub set_filter_all : Bool → State W (Unit {0})
  set_filter_all filter_all = do
    filterctrl ← ddl_reg bar l rorc_reg_ddl_filter_ctrl
    set_ddl_reg bar l rorc_reg_ddl_filter_ctrl (
        if filter_all
        then bit_or filterctrl (1 <<< 31)
        else bit_and filterctrl (2 ^ 32 - 1 - (1 <<< 31)))

  unfoldable pub get_filter_all : State W Bool
  get_filter_all = do
    filterctrl ← ddl_reg bar l rorc_reg_ddl_filter_ctrl
    pure (not (bit_and (filterctrl >>> 31) 1 == 0))

  -- A field at bit 0 has a shift by 0.
  unfoldable pub set_filter_mask : ℕ → State W (Unit {0})
  set_filter_mask mask = do
    filterctrl ← ddl_reg bar l rorc_reg_ddl_filter_ctrl
    let cleared = bit_and filterctrl 0xff00_0000
    set_ddl_reg bar l rorc_reg_ddl_filter_ctrl (bit_or cleared (bit_and mask 0x00ff_ffff <<< 0))

  unfoldable pub get_filter_mask : State W ℕ
  get_filter_mask = do
    filterctrl ← ddl_reg bar l rorc_reg_ddl_filter_ctrl
    pure (bit_and (filterctrl >>> 0) 0x00ff_ffff)
