-- ===== src/Gtx/Dfe.antt =====
-- src/gtx.cpp: the equaliser of the receiver, with its taps as signed numbers.
use alice_hlt_librorc.Base.{
  ℕ, suc, ◌-◌, ◌*◌, ◌/◌, ◌^◌, ◌==◌, Bool, bit_and, bit_or, if◌then◌else◌, ◌<<<◌, ◌>>>◌,
}
use alice_hlt_librorc.Base.Int.{ℤ, pos, negsuc, neg}
use alice_hlt_librorc.Base.State.{State, ◌>>=◌, pure}
use alice_hlt_librorc.Bar.{Bar}
use alice_hlt_librorc.Link.{Link, gtx_reg, set_gtx_reg}
use alice_hlt_librorc.Registers.{rorc_reg_gtx_ctrl, rorc_reg_gtx_rxdfe}

-- A tap is an `int` of 32 bits: `-tap` of the lowest one is itself.
unfoldable pub signed_tap_2_val : ℤ → ℕ → ℕ
signed_tap_2_val (pos tap) width = tap
signed_tap_2_val (negsuc n) width = bit_or (suc n) (1 <<< (width - 1))

unfoldable pub signed_val_2_tap : ℕ → ℕ → ℤ
signed_val_2_tap value width =
    let tap = bit_and value ((1 <<< (width - 1)) - 1) in
    if bit_and value (1 <<< (width - 1)) == 0 then pos tap else neg tap

pub record GtxdfeTaps : Type 0 where
  pub tap1 : ℤ
  pub tap2 : ℤ
  pub tap3 : ℤ
  pub tap4 : ℤ

-- `tap & 0x1f` of an `int` in two's complement.
unfoldable pub low_five : ℤ → ℕ
low_five (pos n) = bit_and n 0x1f
low_five (negsuc n) = 0x1f - bit_and n 0x1f

-- The register value of `dfeTaps` and of `setDfeTaps`.
unfoldable pub taps_of_val : ℕ → GtxdfeTaps
unfolding signed_val_2_tap
taps_of_val value = record {
  tap1 = pos (bit_and value 0x1f);
  tap2 = signed_val_2_tap (bit_and (value >>> 5) 0x1f) 5;
  tap3 = signed_val_2_tap (bit_and (value >>> 10) 0x0f) 4;
  tap4 = signed_val_2_tap (bit_and (value >>> 14) 0x0f) 4;
}

unfoldable pub val_of_taps : GtxdfeTaps → ℕ → ℕ
unfolding signed_tap_2_val low_five
val_of_taps taps value =
    let cleared = bit_and value (2 ^ 32 - 1 - 0x1ffff) in
    let with1 = bit_or cleared (low_five taps.tap1) in
    let with2 = bit_or with1 (bit_and (signed_tap_2_val taps.tap2 5) 0x1f <<< 5) in
    let with3 = bit_or with2 (bit_and (signed_tap_2_val taps.tap3 4) 0x0f <<< 10) in
    bit_or with3 (bit_and (signed_tap_2_val taps.tap4 4) 0x0f <<< 14)

module _ {W : Type 0} (bar : Bar W) (l : Link) where
  unfoldable pub dfe_tap_override : State W Bool
  dfe_tap_override = do value ← gtx_reg bar l rorc_reg_gtx_ctrl; pure (bit_and (value >>> 4) 1 == 1)

  -- The new bit is taken from `value`, not from the argument.
  unfoldable pub set_dfe_tap_override : ℕ → State W (Unit {0})
  set_dfe_tap_override ovrd = do
    value ← gtx_reg bar l rorc_reg_gtx_ctrl
    let cleared = bit_and value (2 ^ 32 - 1 - (1 <<< 4))
    set_gtx_reg bar l rorc_reg_gtx_ctrl (bit_or cleared (bit_and cleared 1 <<< 4))

  unfoldable pub dfe_taps : State W GtxdfeTaps
  unfolding taps_of_val
  dfe_taps = do value ← gtx_reg bar l rorc_reg_gtx_rxdfe; pure (taps_of_val value)

  unfoldable pub set_dfe_taps : GtxdfeTaps → State W (Unit {0})
  unfolding val_of_taps
  set_dfe_taps taps = do
    value ← gtx_reg bar l rorc_reg_gtx_rxdfe
    set_gtx_reg bar l rorc_reg_gtx_rxdfe (val_of_taps taps value)

  unfoldable pub dfe_eye_opening : State W ℕ
  dfe_eye_opening = do
    value ← gtx_reg bar l rorc_reg_gtx_rxdfe
    pure (bit_and (value >>> 21) 0x1f * 200 / 32)

  unfoldable pub dfe_clock_delay_adjust_phase : State W ℕ
  dfe_clock_delay_adjust_phase = do
    value ← gtx_reg bar l rorc_reg_gtx_rxdfe
    pure (bit_and (value >>> 26) 0x3f * 64 / 90)

  unfoldable pub dfe_sens_cal : State W ℕ
  dfe_sens_cal = do value ← gtx_reg bar l rorc_reg_gtx_rxdfe; pure (bit_and (value >>> 18) 0x07)
