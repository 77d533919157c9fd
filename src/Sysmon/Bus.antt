-- ===== src/Sysmon/Bus.antt =====
-- What the slaves of the serial buses do with the transfers of `i2c_read_mem` and `i2c_write_mem`.
use alice_hlt_librorc.Base.{
  ℕ, zero, suc, ◌+◌, ◌*◌, ◌/◌, ◌%◌, ◌^◌, ◌≤◌, ◌<◌, ◌≡◌, refl, sym, ◌∙◌, ◌⊎◌, arith, true, false,
  ◌==◌, leb, ◌||◌, Bool-cases, inl, inr, if◌then◌else◌, ◌&&◌, bit_and, bit_or, u8,
}
use native.Mathlib.Nat.{pow-le-pow_right}
use alice_hlt_librorc.Base.Bits.{bit_and_mask, bit_or_fields}
use alice_hlt_librorc.Base.Fallible.{returned, thrown}
use alice_hlt_librorc.Bar.{Bar}
use alice_hlt_librorc.Registers.{rorc_reg_i2c_config, rorc_reg_i2c_operation}
use alice_hlt_librorc.Sysmon.I2c.{
  i2c_invalid_param, is_invalid, config_command, i2c_module_start, cmpl_loop, check_status,
  i2c_wait_for_cmpl, i2c_read_mem, i2c_write_mem,
}

-- The command register: the chain, the slave, the mode, the bytes and the direction.
config_command_lem :
    (chain slvaddr cmd mode byte_enable : ℕ)
    → chain ≤ 5
    → slvaddr < 2 ^ 8
    → cmd < 8
    → mode ≤ 1
    → byte_enable ≤ 3
    → config_command chain slvaddr cmd mode byte_enable
      ≡ 2 ^ chain * 2 ^ 24 + slvaddr * 2 ^ 8 + mode * 2 ^ 5 + byte_enable * 2 ^ 3 + cmd
unfolding config_command
config_command_lem chain slvaddr cmd mode byte_enable hc hs hd hm hb =
    let small : 2 ^ chain ≤ 2 ^ 5 = pow-le-pow_right {n = 2} (omega arith) {i = chain} {j = 5} hc in
    let select : u8 (1 * 2 ^ chain) ≡ 2 ^ chain = omega arith in
    let slave : bit_or (2 ^ chain * 2 ^ 24) (slvaddr * 2 ^ 8)
        ≡ (2 ^ chain * 2 ^ 16 + slvaddr) * 2 ^ 8 =
      rw (bit_or_fields 24 (2 ^ chain) (slvaddr * 2 ^ 8) (omega arith)) (omega arith) in
    let with_slave = 2 ^ chain * 2 ^ 16 + slvaddr in
    let timed : bit_or (with_slave * 2 ^ 8) (mode * 2 ^ 5) ≡ (with_slave * 2 ^ 3 + mode) * 2 ^ 5 =
      rw (bit_or_fields 8 with_slave (mode * 2 ^ 5) (omega arith)) (omega arith) in
    let with_mode = with_slave * 2 ^ 3 + mode in
    let bytes : bit_or (with_mode * 2 ^ 5) (byte_enable * 2 ^ 3)
        ≡ (with_mode * 2 ^ 2 + byte_enable) * 2 ^ 3 =
      rw (bit_or_fields 5 with_mode (byte_enable * 2 ^ 3) (omega arith)) (omega arith) in
    let with_bytes = with_mode * 2 ^ 2 + byte_enable in
    rw (select, slave, timed, bytes, bit_or_fields 3 with_bytes cmd (omega arith)) (omega arith)

module _ {W : Type 0} (bar : Bar W) where
  -- `i2c_module_start` starts a transfer exactly if the chain is one of 0 to 5, the mode 0 or 1, the
  -- bytes at most 3 and the command a read or a write, with all of them in the configuration
  -- register; otherwise it throws, and the board stays as it is.
  pub i2c_module_start_lem :
      (chain slvaddr cmd mode byte_enable : ℕ) (w : W)
      → slvaddr < 2 ^ 8
      → i2c_module_start bar chain slvaddr cmd mode byte_enable w ≡ (
          if leb chain 5 && leb byte_enable 3 && (cmd == 2 || cmd == 4) && leb mode 1
          then (
            returned tt,
            (bar.set32 rorc_reg_i2c_config
                (2 ^ chain * 2 ^ 24 + slvaddr * 2 ^ 8 + mode * 2 ^ 5 + byte_enable * 2 ^ 3 + cmd)
                w).1,
          )
          else (thrown i2c_invalid_param, w))
  unfolding i2c_module_start is_invalid
  i2c_module_start_lem chain slvaddr cmd mode byte_enable w hs =
      elim (Bool-cases (leb chain 5 && leb byte_enable 3 && (cmd == 2 || cmd == 4) && leb mode 1)) [
        | inl ok ↦
            let hc : chain ≤ 5 = ground arith in
            let hb : byte_enable ≤ 3 = ground arith in
            let hd : cmd < 8 = ground arith in
            let hm : mode ≤ 1 = ground arith in
            let fits : is_invalid chain cmd mode byte_enable ≡ false = ground arith in
            rw (fits, ok, config_command_lem chain slvaddr cmd mode byte_enable hc hs hd hm hb) refl
        | inr bad ↦
            let refused : is_invalid chain cmd mode byte_enable ≡ true = ground arith in
            rw (refused, bad) refl
      ]

  -- From a first status on, the polls up to number k - 1 find the transfer running, and poll k
  -- finds `s`, which says that it is complete.
  abbrev pub Completes : ℕ → ℕ × W → ℕ → W → Type 0
  Completes zero (status, w) s w' = ((bit_and status 0x1 == 0) ≡ false) × (status ≡ s) × (w ≡ w')
  Completes (suc k) (status, w) s w' =
      ((bit_and status 0x1 == 0) ≡ true)
      × Completes k (bar.get32 rorc_reg_i2c_config (bar.usleep 100 w).1) s w'

  cmpl_loop-Completes :
      (rounds k status : ℕ) (w : W) (s : ℕ) (w' : W)
      → Completes k (status, w) s w'
      → k < rounds
      → cmpl_loop bar rounds status w ≡ (returned s, w')
  unfolding cmpl_loop
  cmpl_loop-Completes zero k status w s w' h lt = absurd (omega arith)
  cmpl_loop-Completes (suc rounds) zero status w s w' h lt = rw (cmpl_loop, h.0, h.1, h.2) refl
  cmpl_loop-Completes (suc rounds) (suc k) status w s w' h lt =
      let (status', next) = bar.get32 rorc_reg_i2c_config (bar.usleep 100 w).1 in
      rw (cmpl_loop, h.0) (cmpl_loop-Completes rounds k status' next s w' h.1 (omega arith))

module _ {W : Type 0} (bar : Bar W) (fuel : ℕ) where
  -- A transfer that the slave acknowledges, and that is complete within `fuel` polls.
  pub record Transfer (w : W) : Type 0 where
    pub polls : ℕ
    pub status : ℕ
    pub after : W
    pub completes : Completes bar polls (bar.get32 rorc_reg_i2c_config w) status after
    pub soon : polls < fuel
    pub acknowledged : (bit_and status 0xc0 == 0) ≡ true

  i2c_wait_for_cmpl-transfer :
      (mode : ℕ) (w : W) (t : Transfer w)
      → i2c_wait_for_cmpl bar fuel mode w ≡ (returned t.status, t.after)
  unfolding i2c_wait_for_cmpl check_status
  i2c_wait_for_cmpl-transfer mode w t =
      let (first, w1) = bar.get32 rorc_reg_i2c_config w in
      rw
        (
          cmpl_loop-Completes bar fuel t.polls first w1 t.status t.after t.completes t.soon,
          t.acknowledged,
        )
        refl

  -- The board after the two register writes that start a transfer of one byte in mode 0.
  abbrev pub started : ℕ → ℕ → ℕ → ℕ → W → W
  started chain slvaddr cmd opdata w =
      (bar.set32 rorc_reg_i2c_config (2 ^ chain * 2 ^ 24 + slvaddr * 2 ^ 8 + 2 ^ 3 + cmd)
        (bar.set32 rorc_reg_i2c_operation opdata w).1).1

  -- The slave `slvaddr` of bus `chain` as 256 bytes of memory.
  pub record I2cSlave (chain slvaddr : ℕ) (memory : ℕ → W → ℕ) : Type 0 where
    pub chain_valid : chain ≤ 5
    pub slave_valid : slvaddr < 2 ^ 8
    pub reads : (a : ℕ) (w : W) → a < 2 ^ 8 → Transfer (started chain slvaddr 2 a w)
    pub read_value :
        (a : ℕ) (w : W) (lt : a < 2 ^ 8)
        → (bar.get32 rorc_reg_i2c_operation (reads a w lt).after).0 / 2 ^ 8 % 2 ^ 8 ≡ memory a w
    pub read_keeps :
        (a : ℕ) (w : W) (lt : a < 2 ^ 8) (b : ℕ)
        → memory b (bar.get32 rorc_reg_i2c_operation (reads a w lt).after).1 ≡ memory b w
    pub writes :
        (a v : ℕ) (w : W)
        → a < 2 ^ 8
        → v < 2 ^ 8
        → Transfer (started chain slvaddr 4 (v * 2 ^ 8 + a) w)
    pub write_sets :
        (a v : ℕ) (w : W) (lt : a < 2 ^ 8) (lt' : v < 2 ^ 8) (b : ℕ)
        → memory b (writes a v w lt lt').after ≡ (if b == a then v else memory b w)

  module _ (chain slvaddr : ℕ) (memory : ℕ → W → ℕ) (slave : I2cSlave chain slvaddr memory) where
    start_valid :
        (cmd : ℕ) (w : W)
        → cmd < 8
        → (cmd ≡ 2) ⊎ (cmd ≡ 4)
        → i2c_module_start bar chain slvaddr cmd 0 1 w ≡ (
          returned tt,
          (bar.set32 rorc_reg_i2c_config (2 ^ chain * 2 ^ 24 + slvaddr * 2 ^ 8 + 2 ^ 3 + cmd) w).1,
        )
    start_valid cmd w small known =
        let chain_ok = slave.chain_valid in
        let ok : (leb chain 5 && leb 1 3 && (cmd == 2 || cmd == 4) && leb 0 1) ≡ true =
          ground (arith, chain_ok, known) in
        let sum : 2 ^ chain * 2 ^ 24 + slvaddr * 2 ^ 8 + 0 * 2 ^ 5 + 1 * 2 ^ 3 + cmd
            ≡ 2 ^ chain * 2 ^ 24 + slvaddr * 2 ^ 8 + 2 ^ 3 + cmd =
          omega arith in
        rw (sym sum)
          (i2c_module_start_lem bar chain slvaddr cmd 0 1 w slave.slave_valid ∙ (rw ok refl))

    -- A read of one byte returns it, and keeps the memory of the slave.
    pub i2c_read_mem-memory :
        (a : ℕ) (w : W)
        → a < 2 ^ 8
        → (w' : W) × (i2c_read_mem bar fuel 0 chain slvaddr a w ≡ (returned (memory a w), w'))
          × ((b : ℕ) → memory b w' ≡ memory b w)
    unfolding i2c_read_mem
    i2c_read_mem-memory a w lt =
        let t = slave.reads a w lt in
        let set = (bar.set32 rorc_reg_i2c_operation a w).1 in
        (
          (bar.get32 rorc_reg_i2c_operation t.after).1,
          rw
              (
                start_valid 2 set (omega arith) (inl refl),
                i2c_wait_for_cmpl-transfer 0 (started chain slvaddr 2 a w) t,
                bit_and_mask 8 ((bar.get32 rorc_reg_i2c_operation t.after).0 / 2 ^ 8),
                slave.read_value a w lt,
              )
              refl,
          slave.read_keeps a w lt,
        )

    -- A write of one byte sets it, and keeps the other bytes.
    pub i2c_write_mem-memory :
        (a v : ℕ) (w : W)
        → a < 2 ^ 8
        → v < 2 ^ 8
        → (w' : W) × (i2c_write_mem bar fuel 0 chain slvaddr a v w ≡ (returned tt, w'))
          × ((b : ℕ) → memory b w' ≡ (if b == a then v else memory b w))
    unfolding i2c_write_mem
    i2c_write_mem-memory a v w lt lt' =
        let t = slave.writes a v w lt lt' in
        let command = bit_or_fields 8 v a lt in
        let set = (bar.set32 rorc_reg_i2c_operation (v * 2 ^ 8 + a) w).1 in
        (
          t.after,
          rw
              (
                command,
                start_valid 4 set (omega arith) (inr refl),
                i2c_wait_for_cmpl-transfer 0 (started chain slvaddr 4 (v * 2 ^ 8 + a) w) t,
              )
              refl,
          slave.write_sets a v w lt lt',
        )
