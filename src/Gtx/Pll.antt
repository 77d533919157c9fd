-- ===== src/Gtx/Pll.antt =====
-- src/gtx.cpp: the settings of the two PLLs, as values and as the registers of the DRP hold them.
use alice_hlt_librorc.Base.{ℕ, ◌+◌, ◌-◌, ◌^◌, ◌==◌, bit_and, if◌then◌else◌, u8, ◌>>>◌}
use alice_hlt_librorc.Base.Fallible.{Fallible, OutOfFuel, ◌>>=◌, ◌>>◌, pure}
use alice_hlt_librorc.Bar.{Bar}
use alice_hlt_librorc.Link.{Link}
use alice_hlt_librorc.Gtx.Drp.{drp_read, drp_update_field}

unfoldable pub divselout_reg2val : ℕ → ℕ
divselout_reg2val reg = let ret = if reg == 0 then 1 else 4 in if reg == 1 then 2 else ret

unfoldable pub divselout_val2reg : ℕ → ℕ
divselout_val2reg val = let ret = if val == 1 then 0 else 2 in if val == 2 then 1 else ret

unfoldable pub divselfb_reg2val : ℕ → ℕ
divselfb_reg2val reg = let ret = if reg == 0 then 2 else 5 in if reg == 2 then 4 else ret

unfoldable pub divselfb_val2reg : ℕ → ℕ
divselfb_val2reg val = let ret = if val == 2 then 0 else 3 in if val == 4 then 2 else ret

unfoldable pub divselfb45_reg2val : ℕ → ℕ
divselfb45_reg2val reg = if reg == 1 then 5 else 4

unfoldable pub divselfb45_val2reg : ℕ → ℕ
divselfb45_val2reg val = if val == 5 then 1 else 0

unfoldable pub clk25div_reg2val : ℕ → ℕ
clk25div_reg2val reg = u8 (reg + 1)

-- `val - 1` of a uint8_t.
unfoldable pub clk25div_val2reg : ℕ → ℕ
clk25div_val2reg val = u8 (val + 2 ^ 8 - 1)

unfoldable pub divselref_reg2val : ℕ → ℕ
divselref_reg2val reg = if reg == 16 then 1 else 2

unfoldable pub divselref_val2reg : ℕ → ℕ
divselref_val2reg val = if val == 1 then 16 else 0

-- Without `refclk`, a float that neither function below reads or writes.
pub record GtxpllSettings : Type 0 where
  pub clk25_div : ℕ
  pub n1 : ℕ
  pub n2 : ℕ
  pub d : ℕ
  pub m : ℕ
  pub tx_tdcc_cfg : ℕ
  pub cp_cfg : ℕ

-- The settings that the values of five registers stand for.
unfoldable pub settings_of : ℕ → ℕ → ℕ → ℕ → ℕ → GtxpllSettings
unfolding divselout_reg2val divselfb_reg2val divselfb45_reg2val clk25div_reg2val divselref_reg2val
settings_of r1f r20 r23 r39 r1e = record {
  clk25_div = clk25div_reg2val (bit_and (r23 >>> 10) 0x1f);
  n1 = divselfb45_reg2val (bit_and (r1f >>> 6) 0x1);
  n2 = divselfb_reg2val (bit_and (r1f >>> 1) 0x1f);
  d = divselout_reg2val (bit_and (r1f >>> 14) 0x3);
  m = divselref_reg2val (bit_and (r20 >>> 1) 0x1f);
  tx_tdcc_cfg = bit_and (r39 >>> 14) 0x03;
  cp_cfg = bit_and (r1e >>> 8) 0xff;
}

module _ {W : Type 0} (bar : Bar W) (l : Link) (fuel : ℕ) where
  unfoldable pub drp_get_pll_config : Fallible OutOfFuel W GtxpllSettings
  unfolding settings_of
  drp_get_pll_config = do
    r1f ← drp_read bar l fuel 0x1f
    r20 ← drp_read bar l fuel 0x20
    r23 ← drp_read bar l fuel 0x23
    r39 ← drp_read bar l fuel 0x39
    r1e ← drp_read bar l fuel 0x1e
    pure (settings_of r1f r20 r23 r39 r1e)

  unfoldable pub drp_set_pll_config : GtxpllSettings → Fallible OutOfFuel W (Unit {0})
  unfolding divselout_val2reg divselfb_val2reg divselfb45_val2reg clk25div_val2reg divselref_val2reg
  drp_set_pll_config pll = do
    let n1_reg = divselfb45_val2reg pll.n1
    let n2_reg = divselfb_val2reg pll.n2
    let d_reg = divselout_val2reg pll.d
    let m_reg = divselref_val2reg pll.m
    let clkdiv = clk25div_val2reg pll.clk25_div
    drp_update_field bar l fuel 0x1f n1_reg 6 1
    drp_update_field bar l fuel 0x1f n2_reg 1 5
    drp_update_field bar l fuel 0x1f d_reg 14 2
    drp_update_field bar l fuel 0x20 m_reg 1 5
    drp_update_field bar l fuel 0x23 clkdiv 10 5
    drp_update_field bar l fuel 0x1e pll.cp_cfg 8 8
    drp_update_field bar l fuel 0x1b n1_reg 6 1
    drp_update_field bar l fuel 0x1b n2_reg 1 5
    drp_update_field bar l fuel 0x1b d_reg 14 2
    drp_update_field bar l fuel 0x1c m_reg 1 5
    drp_update_field bar l fuel 0x17 clkdiv 5 5
    drp_update_field bar l fuel 0x1a pll.cp_cfg 8 8
    drp_update_field bar l fuel 0x39 pll.tx_tdcc_cfg 14 2
