-- ===== src/RefClk/RoundTrip.antt =====
-- The values that are written to the oscillator are read back.
use alice_hlt_librorc.Base.{
  ℕ, ◌+◌, ◌-◌, ◌*◌, ◌/◌, ◌%◌, ◌^◌, ◌≤◌, ◌<◌, ◌≡◌, refl, ◌∙◌, arith, bit_and, bit_or, u32, sub32,
}
use native.Mathlib.Nat.{mod-lt}
use alice_hlt_librorc.Base.Bits.{bit_and_mask, bit_or_fields}
use alice_hlt_librorc.Base.Fallible.{returned}
use alice_hlt_librorc.Bar.{Bar}
use alice_hlt_librorc.Sysmon.{refclk_freq}
use alice_hlt_librorc.Sysmon.Bus.{I2cSlave, i2c_read_mem-memory, i2c_write_mem-memory}
use alice_hlt_librorc.RefClk.{
  Refclkopts, hsdiv_reg2val, hsdiv_val2reg, n1_reg2val, n1_val2reg, byte13, byte14, rfreq_byte,
  opts_of, refclk_read, refclk_write, get_current_opts, write_values,
}

-- What the registers of the oscillator can hold.
pub record IsValid (opts : Refclkopts) : Type 0 where
  pub hs_low : 4 ≤ opts.hs_div
  pub hs_high : opts.hs_div ≤ 11
  pub n1_low : 1 ≤ opts.n1
  pub n1_high : opts.n1 ≤ 128
  pub rfreq : opts.rfreq_int < 2 ^ 38

byte13_lem :
    (opts : Refclkopts) → IsValid opts → byte13 opts ≡ (opts.hs_div - 4) * 2 ^ 5 + (opts.n1 - 1) / 4
unfolding byte13 hsdiv_val2reg n1_val2reg
byte13_lem opts h =
    let hs : sub32 opts.hs_div 4 ≡ opts.hs_div - 4 = omega (arith, h.hs_low, h.hs_high) in
    let n : sub32 opts.n1 1 ≡ opts.n1 - 1 = omega (arith, h.n1_low, h.n1_high) in
    let small : (opts.n1 - 1) / 4 < 2 ^ 5 = omega (arith, h.n1_high) in
    rw (hs, n, bit_or_fields 5 (opts.hs_div - 4) ((opts.n1 - 1) / 4) small)
      (omega (arith, h.hs_high, h.n1_high))

byte14_lem :
    (opts : Refclkopts)
    → IsValid opts
    → byte14 opts ≡ (opts.n1 - 1) % 4 * 2 ^ 6 + opts.rfreq_int / 2 ^ 32
unfolding byte14 n1_val2reg
byte14_lem opts h =
    let n : sub32 opts.n1 1 ≡ opts.n1 - 1 = omega (arith, h.n1_low, h.n1_high) in
    let small : opts.rfreq_int / 2 ^ 32 < 2 ^ 6 = omega (arith, h.rfreq) in
    rw
      (
        n,
        bit_and_mask 2 (opts.n1 - 1),
        bit_or_fields 6 ((opts.n1 - 1) % 2 ^ 2) (opts.rfreq_int / 2 ^ 32) small,
      )
      (omega (arith, small))

-- Four bytes and six bits put together again.
rfreq_lem :
    (high b15 b16 b17 b18 : ℕ)
    → b15 < 2 ^ 8
    → b16 < 2 ^ 8
    → b17 < 2 ^ 8
    → b18 < 2 ^ 8
    → bit_or
        (bit_or (bit_or (bit_or (high * 2 ^ 32) (b15 * 2 ^ 24)) (b16 * 2 ^ 16)) (b17 * 2 ^ 8))
        (b18 * 2 ^ 0)
      ≡ high * 2 ^ 32 + b15 * 2 ^ 24 + b16 * 2 ^ 16 + b17 * 2 ^ 8 + b18
rfreq_lem high b15 b16 b17 b18 h15 h16 h17 h18 =
    let with15 : bit_or (high * 2 ^ 32) (b15 * 2 ^ 24) ≡ (high * 2 ^ 8 + b15) * 2 ^ 24 =
      rw (bit_or_fields 32 high (b15 * 2 ^ 24) (omega arith)) (omega arith) in
    let f15 = high * 2 ^ 8 + b15 in
    let with16 : bit_or (f15 * 2 ^ 24) (b16 * 2 ^ 16) ≡ (f15 * 2 ^ 8 + b16) * 2 ^ 16 =
      rw (bit_or_fields 24 f15 (b16 * 2 ^ 16) (omega arith)) (omega arith) in
    let f16 = f15 * 2 ^ 8 + b16 in
    let with17 : bit_or (f16 * 2 ^ 16) (b17 * 2 ^ 8) ≡ (f16 * 2 ^ 8 + b17) * 2 ^ 8 =
      rw (bit_or_fields 16 f16 (b17 * 2 ^ 8) (omega arith)) (omega arith) in
    let f17 = f16 * 2 ^ 8 + b17 in
    rw (with15, with16, with17, bit_or_fields 8 f17 (b18 * 2 ^ 0) (omega arith)) (omega arith)

opts_of-bytes :
    (opts : Refclkopts)
    → IsValid opts
    → opts_of
        (byte13 opts)
        (byte14 opts)
        (rfreq_byte opts 0)
        (rfreq_byte opts 1)
        (rfreq_byte opts 2)
        (rfreq_byte opts 3)
      ≡ opts
unfolding opts_of rfreq_byte hsdiv_reg2val n1_reg2val
opts_of-bytes opts h =
    let r = opts.rfreq_int in
    let e13 = byte13_lem opts h in
    let e14 = byte14_lem opts h in
    let n_small : (opts.n1 - 1) / 4 < 2 ^ 5 = omega (arith, h.n1_high) in
    let r_small : r / 2 ^ 32 < 2 ^ 6 = omega (arith, h.rfreq) in
    let hs : u32 (bit_and (byte13 opts / 2 ^ 5) (2 ^ 3 - 1) + 4) ≡ opts.hs_div =
      rw (bit_and_mask 3 (byte13 opts / 2 ^ 5), e13)
        (omega (arith, h.hs_low, h.hs_high, n_small)) in
    let n : u32 (
          bit_and (byte13 opts) (2 ^ 5 - 1) * 2 ^ 2 + bit_and (byte14 opts / 2 ^ 6) (2 ^ 2 - 1) + 1)
        ≡ opts.n1 =
      rw (bit_and_mask 5 (byte13 opts), bit_and_mask 2 (byte14 opts / 2 ^ 6), e13, e14)
        (omega (arith, h.n1_low, h.n1_high, r_small)) in
    let high : bit_and (byte14 opts) (2 ^ 6 - 1) ≡ r / 2 ^ 32 =
      rw (bit_and_mask 6 (byte14 opts), e14) (omega (arith, r_small)) in
    let joined =
      rfreq_lem (r / 2 ^ 32) (r / 2 ^ 24 % 2 ^ 8) (r / 2 ^ 16 % 2 ^ 8) (r / 2 ^ 8 % 2 ^ 8)
        (r / 2 ^ 0 % 2 ^ 8) (omega arith) (omega arith) (omega arith) (omega arith) in
    let whole : r / 2 ^ 32 * 2 ^ 32
          + r / 2 ^ 24 % 2 ^ 8 * 2 ^ 24
          + r / 2 ^ 16 % 2 ^ 8 * 2 ^ 16
          + r / 2 ^ 8 % 2 ^ 8 * 2 ^ 8
          + r / 2 ^ 0 % 2 ^ 8
        ≡ r =
      omega arith in
    rw
      (
        hs,
        n,
        high,
        bit_and_mask 8 (r / 2 ^ 24),
        bit_and_mask 8 (r / 2 ^ 16),
        bit_and_mask 8 (r / 2 ^ 8),
        bit_and_mask 8 (r / 2 ^ 0),
        joined,
        whole,
      )
      refl

byte-lt : (opts : Refclkopts) (i : ℕ) → rfreq_byte opts i < 2 ^ 8
unfolding rfreq_byte
byte-lt opts i = rw (bit_and_mask 8 (opts.rfreq_int / 2 ^ ((3 - i) * 8))) (mod-lt _ (omega arith))

byte13-lt : (opts : Refclkopts) → byte13 opts < 2 ^ 8
unfolding byte13
byte13-lt opts = omega arith

byte14-lt : (opts : Refclkopts) → byte14 opts < 2 ^ 8
unfolding byte14
byte14-lt opts = omega arith

module _ {W : Type 0} (bar : Bar W) (fuel : ℕ) (memory : ℕ → W → ℕ)
    (slave : I2cSlave bar fuel 4 0x55 memory) where
  get_opts-memory :
      (w : W)
      → (w' : W) × (get_current_opts bar fuel 0 w ≡ (
        returned (
            opts_of
              (memory 13 w)
              (memory 14 w)
              (memory 15 w)
              (memory 16 w)
              (memory 17 w)
              (memory 18 w)),
        w',
      ))
  unfolding get_current_opts refclk_read refclk_freq
  get_opts-memory w =
      let (w1, e1, k1) = i2c_read_mem-memory bar fuel 4 0x55 memory slave 13 w (omega arith) in
      let (w2, e2, k2) = i2c_read_mem-memory bar fuel 4 0x55 memory slave 14 w1 (omega arith) in
      let (w3, e3, k3) = i2c_read_mem-memory bar fuel 4 0x55 memory slave 15 w2 (omega arith) in
      let (w4, e4, k4) = i2c_read_mem-memory bar fuel 4 0x55 memory slave 16 w3 (omega arith) in
      let (w5, e5, k5) = i2c_read_mem-memory bar fuel 4 0x55 memory slave 17 w4 (omega arith) in
      let (w6, e6, k6) = i2c_read_mem-memory bar fuel 4 0x55 memory slave 18 w5 (omega arith) in
      let m14 = k1 14 in
      let m15 = k2 15 ∙ k1 15 in
      let m16 = k3 16 ∙ k2 16 ∙ k1 16 in
      let m17 = k4 17 ∙ k3 17 ∙ k2 17 ∙ k1 17 in
      let m18 = k5 18 ∙ k4 18 ∙ k3 18 ∙ k2 18 ∙ k1 18 in
      ((refclk_freq bar w6).1, rw (e1, e2, e3, e4, e5, e6, m14, m15, m16, m17, m18) refl)

  -- If the oscillator keeps what is written to it, the six writes of `writeOptsToDevice` of settings
  -- in the range of its registers return, and `getCurrentOpts` then returns the dividers and the
  -- frequency word that were written.
  pub get_current_opts-write_values :
      (opts : Refclkopts) (w : W)
      → IsValid opts
      → (w' w'' : W) × (write_values bar fuel 0 opts w ≡ (returned tt, w'))
        × (get_current_opts bar fuel 0 w' ≡ (returned opts, w''))
  unfolding write_values refclk_write
  get_current_opts-write_values opts w h =
      let put = i2c_write_mem-memory bar fuel 4 0x55 memory slave in
      let (w1, e1, s1) = put 13 (byte13 opts) w (omega arith) (byte13-lt opts) in
      let (w2, e2, s2) = put 14 (byte14 opts) w1 (omega arith) (byte14-lt opts) in
      let (w3, e3, s3) = put 15 (rfreq_byte opts 0) w2 (omega arith) (byte-lt opts 0) in
      let (w4, e4, s4) = put 16 (rfreq_byte opts 1) w3 (omega arith) (byte-lt opts 1) in
      let (w5, e5, s5) = put 17 (rfreq_byte opts 2) w4 (omega arith) (byte-lt opts 2) in
      let (w6, e6, s6) = put 18 (rfreq_byte opts 3) w5 (omega arith) (byte-lt opts 3) in
      let (w7, got) = get_opts-memory w6 in
      let m13 = s6 13 ∙ s5 13 ∙ s4 13 ∙ s3 13 ∙ s2 13 ∙ s1 13 in
      let m14 = s6 14 ∙ s5 14 ∙ s4 14 ∙ s3 14 ∙ s2 14 in
      let m15 = s6 15 ∙ s5 15 ∙ s4 15 ∙ s3 15 in
      let m16 = s6 16 ∙ s5 16 ∙ s4 16 in
      let m17 = s6 17 ∙ s5 17 in
      let m18 = s6 18 in
      (
        w6,
        w7,
        rw (e1, e2, e3, e4, e5, e6) refl,
        rw (got, m13, m14, m15, m16, m17, m18, opts_of-bytes opts h) refl,
      )
