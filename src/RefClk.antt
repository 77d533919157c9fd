-- ===== src/RefClk.antt =====
-- src/refclk.cpp and include/librorc/refclk.hh: the programmable oscillator of the reference clock,
-- a slave on a serial bus. The frequencies, which are floating-point numbers, are parameters.
pub mod RoundTrip
use alice_hlt_librorc.Base.{
  ℕ, zero, suc, ◌+◌, ◌-◌, ◌*◌, ◌^◌, ◌==◌, true, false, bit_and, bit_or, u8, u32, sub32, ◌<<<◌,
  ◌>>>◌,
}
use alice_hlt_librorc.Base.Fallible.{
  Fallible, ◌>>=◌, ◌>>◌, pure, lift, thrown, returned, after_outcome,
}
use alice_hlt_librorc.Bar.{Bar}
use alice_hlt_librorc.Sysmon.{store_refclk_freq, refclk_freq}
use alice_hlt_librorc.Sysmon.I2c.{
  SysmonError, out_of_fuel, i2c_read_mem, i2c_write_mem, i2c_write_mem_dual,
}

abbrev pub librorc_refclk_i2c_chain : ℕ
librorc_refclk_i2c_chain = 4

abbrev pub librorc_refclk_i2c_slave : ℕ
librorc_refclk_i2c_slave = 0x55

abbrev pub m_recall : ℕ
m_recall = 2 ^ 0

abbrev pub m_newfreq : ℕ
m_newfreq = 2 ^ 6

abbrev pub freeze_dco : ℕ
freeze_dco = 2 ^ 4

unfoldable pub hsdiv_reg2val : ℕ → ℕ
hsdiv_reg2val hs_reg = u32 (hs_reg + 4)

unfoldable pub hsdiv_val2reg : ℕ → ℕ
hsdiv_val2reg hs_val = sub32 hs_val 4

unfoldable pub n1_reg2val : ℕ → ℕ
n1_reg2val n1_reg = u32 (n1_reg + 1)

unfoldable pub n1_val2reg : ℕ → ℕ
n1_val2reg n1_val = sub32 n1_val 1

-- Without the members of type double.
pub record Refclkopts : Type 0 where
  pub hs_div : ℕ
  pub n1 : ℕ
  pub rfreq_int : ℕ

-- The bytes of the addresses 13 and 14, as `writeOptsToDevice` makes them.
unfoldable pub byte13 : Refclkopts → ℕ
byte13 opts = u8 (bit_or (hsdiv_val2reg opts.hs_div <<< 5) (n1_val2reg opts.n1 >>> 2))

unfoldable pub byte14 : Refclkopts → ℕ
byte14 opts = u8 (bit_or (bit_and (n1_val2reg opts.n1) 0x03 <<< 6) (opts.rfreq_int >>> 32))

-- Byte `i` of the addresses 15 to 18.
unfoldable pub rfreq_byte : Refclkopts → ℕ → ℕ
rfreq_byte opts i = bit_and (opts.rfreq_int >>> ((3 - i) * 8)) 0xff

-- The settings that six bytes stand for.
unfoldable pub opts_of : ℕ → ℕ → ℕ → ℕ → ℕ → ℕ → Refclkopts
opts_of b13 b14 b15 b16 b17 b18 =
    let n1_high = bit_and b13 0x1f <<< 2 in
    let rfreq14 = bit_and b14 0x3f <<< 32 in
    let rfreq15 = bit_or rfreq14 (b15 <<< 24) in
    let rfreq16 = bit_or rfreq15 (b16 <<< 16) in
    let rfreq17 = bit_or rfreq16 (b17 <<< 8) in
    record {
      hs_div = hsdiv_reg2val (bit_and (b13 >>> 5) 0x07);
      n1 = n1_reg2val (n1_high + bit_and (b14 >>> 6) 0x03);
      rfreq_int = bit_or rfreq17 (b18 <<< 0);
    }

module _ {W : Type 0} (bar : Bar W) (fuel mode : ℕ) where
  unfoldable pub refclk_read : ℕ → Fallible SysmonError W ℕ
  refclk_read addr =
      i2c_read_mem bar fuel mode librorc_refclk_i2c_chain librorc_refclk_i2c_slave addr

  unfoldable pub refclk_write : ℕ → ℕ → Fallible SysmonError W (Unit {0})
  refclk_write addr value =
      i2c_write_mem bar fuel mode librorc_refclk_i2c_chain librorc_refclk_i2c_slave addr value

  unfoldable pub release_dco : Fallible SysmonError W (Unit {0})
  release_dco = do
    freeze_val ← refclk_read 137
    i2c_write_mem_dual bar fuel mode librorc_refclk_i2c_chain librorc_refclk_i2c_slave 137
        (bit_and freeze_val 0xef) 135 m_newfreq

  unfoldable pub set_rfm_ctrl : ℕ → Fallible SysmonError W (Unit {0})
  set_rfm_ctrl flag = refclk_write 135 flag

  unfoldable pub set_freeze_dco : Fallible SysmonError W (Unit {0})
  set_freeze_dco = do val ← refclk_read 137; refclk_write 137 (bit_or val freeze_dco)

  -- The loop of `waitForClearance`, whose reads the source does not bound.
  unfoldable pub clearance_loop : ℕ → ℕ → ℕ → Fallible SysmonError W (Unit {0})
  clearance_loop flag zero reg135 w = (thrown out_of_fuel, w)
  clearance_loop flag (suc rounds) reg135 w = elim (bit_and reg135 flag == 0) [
    | true ↦ (returned tt, w)
    | false ↦
        let (outcome, w') = refclk_read 135 w in
        after_outcome (λ value. clearance_loop flag rounds value) outcome w'
  ]

  unfoldable pub wait_for_clearance : ℕ → Fallible SysmonError W (Unit {0})
  wait_for_clearance flag = clearance_loop flag fuel flag

  -- The members of the result that are not of type double. The last read is that of `getLastFout`,
  -- whose value goes into the members of type double only.
  unfoldable pub get_current_opts : Fallible SysmonError W Refclkopts
  get_current_opts = do
    b13 ← refclk_read 13
    b14 ← refclk_read 14
    b15 ← refclk_read 15
    b16 ← refclk_read 16
    b17 ← refclk_read 17
    b18 ← refclk_read 18
    fout_regval ← lift (refclk_freq bar)
    pure (opts_of b13 b14 b15 b16 b17 b18)

  -- The six writes of the new values in `writeOptsToDevice`.
  unfoldable pub write_values : Refclkopts → Fallible SysmonError W (Unit {0})
  write_values opts = do
    refclk_write 13 (byte13 opts)
    refclk_write 14 (byte14 opts)
    refclk_write 15 (rfreq_byte opts 0)
    refclk_write 16 (rfreq_byte opts 1)
    refclk_write 17 (rfreq_byte opts 2)
    refclk_write 18 (rfreq_byte opts 3)

  -- `fout` is the result of `getFout`, in Hz.
  unfoldable pub write_opts_to_device : Refclkopts → ℕ → Fallible SysmonError W (Unit {0})
  write_opts_to_device opts fout = do
    set_freeze_dco
    write_values opts
    release_dco
    wait_for_clearance m_newfreq
    lift (store_refclk_freq bar fout)

  unfoldable pub reset : Fallible SysmonError W (Unit {0})
  reset = do
    set_rfm_ctrl m_recall
    wait_for_clearance m_recall
    lift (store_refclk_freq bar 212500000)
