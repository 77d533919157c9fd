-- ===== src/PatternGenerator/Modes.antt =====
-- What the configuration of the pattern generator leaves in the control register.
use alice_hlt_librorc.Base.{
  ℕ, zero, suc, ◌-◌, ◌*◌, ◌^◌, ◌<◌, ◌≡◌, refl, arith, false, ◌≢◌, ◌==◌, ltb, if◌then◌else◌, ◌||◌,
  bit_and, bit_or, Bool-cases, inl, inr,
}
use alice_hlt_librorc.Base.Bits.{bit, bit-or, bit-and, bit-le}
use alice_hlt_librorc.Base.Slices.{put_field, inside, bit-put_field, bit-mask, bit-complement}
use alice_hlt_librorc.Bar.{Bar}
use alice_hlt_librorc.Bar.Memory.{IsMemory}
use alice_hlt_librorc.Link.{Link, ddl_reg, set_ddl_reg}
use alice_hlt_librorc.Registers.{rorc_reg_ddl_ctrl, rorc_reg_ddl_pg_num_events}
use alice_hlt_librorc.Ddl.Fields.{ddl_address}
use alice_hlt_librorc.PatternGenerator.{mode_value, configure_mode}

-- The mode of a known pattern, and that of an increment for any other.
abbrev pub pattern_of : ℕ → ℕ
pattern_of mode = if ltb mode 4 then mode else 0

-- The register with the mode, before the continuous bit.
abbrev with_mode : ℕ → ℕ → ℕ
with_mode mode reg =
    let cleared = bit_and reg (2 ^ 32 - 1 - 3 * 2 ^ 11) in
    if mode == 2 || mode == 1 || mode == 3
    then bit_or cleared (bit_and mode 3 * 2 ^ 11)
    else bit_or cleared (0 * 2 ^ 11)

with_mode_lem : (mode reg : ℕ) → with_mode mode reg ≡ put_field 11 2 (pattern_of mode) reg
with_mode_lem zero reg = refl
with_mode_lem (suc zero) reg = refl
with_mode_lem (suc (suc zero)) reg = refl
with_mode_lem (suc (suc (suc zero))) reg = refl
with_mode_lem (suc (suc (suc (suc mode)))) reg = ground arith

-- The continuous bit.
bit-continuous :
    (events reg j : ℕ)
    → j < 32
    → bit j (if events == 0 then bit_or reg (1 * 2 ^ 10) else bit_and reg (2 ^ 32 - 1 - 1 * 2 ^ 10))
      ≡ (if j == 10 then (if events == 0 then 1 else 0) else bit j reg)
bit-continuous zero reg j h = rw (bit-or j, bit-mask 10 1 j) (ground (arith, bit-le j reg))
bit-continuous (suc events) reg j h =
    let given : (suc events == 0) ≡ false = ground arith in
    rw (given, bit-and j, bit-complement 32 (1 * 2 ^ 10) j (omega arith) h, bit-mask 10 1 j)
      (ground (arith, bit-le j reg))

-- The register has the pattern in the bits 11 and 12, of an increment if the mode is unknown, the
-- continuous bit 10 exactly if no number of events is given, and its other bits as they were.
pub bit-mode_value :
    (mode events reg j : ℕ)
    → j < 32
    → bit j (mode_value mode events reg) ≡ (
        if j == 10
        then (if events == 0 then 1 else 0)
        else if inside 11 2 j
        then bit (j - 11) (pattern_of mode)
        else bit j reg)
unfolding mode_value
bit-mode_value mode events reg j h =
    rw
      (
        bit-continuous events (with_mode mode reg) j h,
        with_mode_lem mode reg,
        bit-put_field 11 2 (pattern_of mode) reg j (omega arith) h,
      )
      refl

module _ {W : Type 0} (bar : Bar W) (word : ℕ → W → ℕ) (memory : IsMemory bar word) (l : Link) where
  -- On registers that keep their values, `configureMode` leaves the pattern, that of an increment if
  -- the mode is unknown, in the bits 11 and 12 of the control register, and the continuous bit 10
  -- set exactly if no number of events is given; it keeps its other bits. A number of events goes to
  -- its own register, and none leaves that as it was.
  pub configure_mode-bits :
      (mode initial_pattern events : ℕ) (w : W)
      → let ctrl = ddl_address l rorc_reg_ddl_ctrl in
        let num_events = ddl_address l rorc_reg_ddl_pg_num_events in
        let after = (configure_mode bar l mode initial_pattern events w).1 in
        ((j : ℕ)
          → j < 32
          → bit j (word ctrl after) ≡ (
              if j == 10
              then (if events == 0 then 1 else 0)
              else if inside 11 2 j
              then bit (j - 11) (pattern_of mode)
              else bit j (word ctrl w)))
        × (word num_events after ≡ (if events == 0 then word num_events w else events))
  unfolding configure_mode ddl_reg set_ddl_reg
  configure_mode-bits mode initial_pattern events w =
      let ctrl = ddl_address l rorc_reg_ddl_ctrl in
      let num_events = ddl_address l rorc_reg_ddl_pg_num_events in
      let reg = word ctrl w in
      let value = mode_value mode events reg in
      let apart : num_events ≢ ctrl = λ e. omega arith in
      elim (Bool-cases (events == 0)) [
        | inl none ↦ (
          λ j h.
              rw (memory.reads ctrl w, none)
                (ground
                  (arith, memory.writes ctrl value w ctrl, bit-mode_value mode events reg j h)),
          rw (memory.reads ctrl w, none)
              (ground (arith, memory.writes ctrl value w num_events, apart)),
        )
        | inr given ↦
            let counted = (bar.set32 num_events events w).1 in
            (
              λ j h.
                  rw (memory.reads ctrl w, given)
                    (ground (
                      arith,
                      memory.writes ctrl value counted ctrl,
                      bit-mode_value mode events reg j h,
                    )),
              rw (memory.reads ctrl w, given)
                  (ground (
                    arith,
                    memory.writes ctrl value counted num_events,
                    memory.writes num_events events w num_events,
                    apart,
                  )),
            )
      ]
