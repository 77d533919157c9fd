-- ===== src/Gtx/RoundTrip.antt =====
-- `drpSetPllConfig` and `drpGetPllConfig` on a working port.
use alice_hlt_librorc.Base.{
  ℕ, ◌%◌, ◌^◌, ◌≤◌, ◌<◌, ◌≡◌, refl, ap, ◌∙◌, arith, inl, inr, ◌⊎◌, ◌==◌, if◌then◌else◌, List, [],
  ◌∷◌, All,
}
use alice_hlt_librorc.Base.Slices.{}
use alice_hlt_librorc.Base.Fallible.{Fallible, OutOfFuel, returned, ◌>>◌}
use alice_hlt_librorc.Bar.{Bar}
use alice_hlt_librorc.Link.{Link}
use alice_hlt_librorc.Gtx.Drp.{drp_update_field, updated_field}
use alice_hlt_librorc.Gtx.Pll.{
  GtxpllSettings, divselout_reg2val, divselout_val2reg, divselfb_reg2val, divselfb_val2reg,
  divselfb45_reg2val, divselfb45_val2reg, clk25div_reg2val, clk25div_val2reg, divselref_reg2val,
  divselref_val2reg, settings_of, drp_get_pll_config, drp_set_pll_config,
}
use alice_hlt_librorc.Gtx.Port.{
  DrpPort, get_field-updated_field, get_field-updated_field_ne, drp_read-word,
  drp_update_field-word,
}

-- The values that the dividers of the PLL can have, and numbers that fit their fields.
pub record IsSupported (pll : GtxpllSettings) : Type 0 where
  pub n1 : (pll.n1 ≡ 4) ⊎ (pll.n1 ≡ 5)
  pub n2 : (pll.n2 ≡ 2) ⊎ (pll.n2 ≡ 4) ⊎ (pll.n2 ≡ 5)
  pub d : (pll.d ≡ 1) ⊎ (pll.d ≡ 2) ⊎ (pll.d ≡ 4)
  pub m : (pll.m ≡ 1) ⊎ (pll.m ≡ 2)
  pub clk25_positive : 1 ≤ pll.clk25_div
  pub clk25_small : pll.clk25_div ≤ 32
  pub tdcc : pll.tx_tdcc_cfg < 4
  pub cp : pll.cp_cfg < 256

divselout-inverse :
    (d : ℕ) → (d ≡ 1) ⊎ (d ≡ 2) ⊎ (d ≡ 4) → divselout_reg2val (divselout_val2reg d % 2 ^ 2) ≡ d
unfolding divselout_reg2val divselout_val2reg
divselout-inverse d (inl e) = rw e refl
divselout-inverse d (inr (inl e)) = rw e refl
divselout-inverse d (inr (inr e)) = rw e refl

divselfb-inverse :
    (n2 : ℕ) → (n2 ≡ 2) ⊎ (n2 ≡ 4) ⊎ (n2 ≡ 5) → divselfb_reg2val (divselfb_val2reg n2 % 2 ^ 5) ≡ n2
unfolding divselfb_reg2val divselfb_val2reg
divselfb-inverse n2 (inl e) = rw e refl
divselfb-inverse n2 (inr (inl e)) = rw e refl
divselfb-inverse n2 (inr (inr e)) = rw e refl

divselfb45-inverse :
    (n1 : ℕ) → (n1 ≡ 4) ⊎ (n1 ≡ 5) → divselfb45_reg2val (divselfb45_val2reg n1 % 2 ^ 1) ≡ n1
unfolding divselfb45_reg2val divselfb45_val2reg
divselfb45-inverse n1 (inl e) = rw e refl
divselfb45-inverse n1 (inr e) = rw e refl

divselref-inverse :
    (m : ℕ) → (m ≡ 1) ⊎ (m ≡ 2) → divselref_reg2val (divselref_val2reg m % 2 ^ 5) ≡ m
unfolding divselref_reg2val divselref_val2reg
divselref-inverse m (inl e) = rw e refl
divselref-inverse m (inr e) = rw e refl

clk25div-inverse : (c : ℕ) → 1 ≤ c → c ≤ 32 → clk25div_reg2val (clk25div_val2reg c % 2 ^ 5) ≡ c
unfolding clk25div_reg2val clk25div_val2reg
clk25div-inverse c positive small = omega arith

-- An update of a field: its address, value, first bit and width.
abbrev Update : Type 0
Update = ℕ × ℕ × ℕ × ℕ

-- What updates make of the register at `b`.
abbrev updates_at : ℕ → List Update → ℕ → ℕ
updates_at b [] r = r
updates_at b ((a, v, k, n) ∷ us) r = updates_at b us (if b == a then updated_field r v k n else r)

-- The thirteen updates of `drpSetPllConfig`.
abbrev first_update : GtxpllSettings → Update
first_update pll = (0x1f, divselfb45_val2reg pll.n1, 6, 1)

abbrev pll_updates : GtxpllSettings → List Update
pll_updates pll =
    (0x1f, divselfb_val2reg pll.n2, 1, 5)
    ∷ (0x1f, divselout_val2reg pll.d, 14, 2)
    ∷ (0x20, divselref_val2reg pll.m, 1, 5)
    ∷ (0x23, clk25div_val2reg pll.clk25_div, 10, 5)
    ∷ (0x1e, pll.cp_cfg, 8, 8)
    ∷ (0x1b, divselfb45_val2reg pll.n1, 6, 1)
    ∷ (0x1b, divselfb_val2reg pll.n2, 1, 5)
    ∷ (0x1b, divselout_val2reg pll.d, 14, 2)
    ∷ (0x1c, divselref_val2reg pll.m, 1, 5)
    ∷ (0x17, clk25div_val2reg pll.clk25_div, 5, 5)
    ∷ (0x1a, pll.cp_cfg, 8, 8)
    ∷ (0x39, pll.tx_tdcc_cfg, 14, 2)
    ∷ []

-- The five registers that are read, after the updates.
settings_of-updated :
    (pll : GtxpllSettings)
    → IsSupported pll
    → (r1f r20 r23 r39 r1e : ℕ)
    → let us = first_update pll ∷ pll_updates pll in
      settings_of
        (updates_at 0x1f us r1f)
        (updates_at 0x20 us r20)
        (updates_at 0x23 us r23)
        (updates_at 0x39 us r39)
        (updates_at 0x1e us r1e)
      ≡ pll
unfolding settings_of
settings_of-updated pll h r1f r20 r23 r39 r1e =
    let n1_reg = divselfb45_val2reg pll.n1 in
    let n2_reg = divselfb_val2reg pll.n2 in
    let d_reg = divselout_val2reg pll.d in
    let with_n1 = updated_field r1f n1_reg 6 1 in
    let with_n2 = updated_field with_n1 n2_reg 1 5 in
    let n1_first =
      get_field-updated_field_ne 6 1 14 2 d_reg with_n2 (omega arith) (omega arith)
        (inl (omega arith))
      ∙ get_field-updated_field_ne 6 1 1 5 n2_reg with_n1 (omega arith) (omega arith)
          (inr (omega arith))
      ∙ get_field-updated_field 6 1 n1_reg r1f (omega arith) in
    let n2_second =
      get_field-updated_field_ne 1 5 14 2 d_reg with_n2 (omega arith) (omega arith)
        (inl (omega arith))
      ∙ get_field-updated_field 1 5 n2_reg with_n1 (omega arith) in
    let tdcc : pll.tx_tdcc_cfg % 4 ≡ pll.tx_tdcc_cfg = omega (arith, h.tdcc) in
    let cp : pll.cp_cfg % 256 ≡ pll.cp_cfg = omega (arith, h.cp) in
    rw
      (
        n1_first,
        n2_second,
        get_field-updated_field 14 2 d_reg with_n2 (omega arith),
        get_field-updated_field 1 5 (divselref_val2reg pll.m) r20 (omega arith),
        get_field-updated_field 10 5 (clk25div_val2reg pll.clk25_div) r23 (omega arith),
        get_field-updated_field 14 2 pll.tx_tdcc_cfg r39 (omega arith),
        get_field-updated_field 8 8 pll.cp_cfg r1e (omega arith),
        divselout-inverse pll.d h.d,
        divselfb-inverse pll.n2 h.n2,
        divselfb45-inverse pll.n1 h.n1,
        divselref-inverse pll.m h.m,
        clk25div-inverse pll.clk25_div h.clk25_positive h.clk25_small,
        tdcc,
        cp,
      )
      refl

module _ {W : Type 0} (bar : Bar W) (l : Link) (fuel : ℕ) where
  abbrev update : Update → Fallible OutOfFuel W (Unit {0})
  update (a, v, k, n) = drp_update_field bar l fuel a v k n

  abbrev update_all : Update → List Update → Fallible OutOfFuel W (Unit {0})
  update_all u [] = update u
  update_all u (u' ∷ us) = update u >> update_all u' us

  module _ (word : ℕ → W → ℕ) (port : DrpPort bar l fuel word) where
    update_all-word :
        (u : Update) (us : List Update) (w : W)
        → All (λ (v : Update). v.0 < 2 ^ 8) (u ∷ us)
        → (w' : W) × (update_all u us w ≡ (returned tt, w'))
          × ((b : ℕ) → word b w' ≡ updates_at b (u ∷ us) (word b w))
    update_all-word (a, v, k, n) [] w h =
        let (w', e, set) = drp_update_field-word bar l fuel word port a v k n w h.0 in
        (w', e, λ b. ground (arith, set b))
    update_all-word (a, v, k, n) (u' ∷ us) w h =
        let (w1, e, set) = drp_update_field-word bar l fuel word port a v k n w h.0 in
        let (w', rest, sets) = update_all-word u' us w1 h.1 in
        (w', rw (e, rest) refl, λ b. sets b ∙ ap (updates_at b (u' ∷ us)) (set b))

    -- Registers of the port that a run of updates can leave: `drpGetPllConfig` reads five of them.
    get_config-word :
        (w : W)
        → (w' : W) × (drp_get_pll_config bar l fuel w ≡ (
          returned
              (settings_of (word 0x1f w) (word 0x20 w) (word 0x23 w) (word 0x39 w) (word 0x1e w)),
          w',
        ))
    unfolding drp_get_pll_config
    get_config-word w =
        let (w1, e1, kept1) = drp_read-word bar l fuel word port 0x1f w (omega arith) in
        let (w2, e2, kept2) = drp_read-word bar l fuel word port 0x20 w1 (omega arith) in
        let (w3, e3, kept3) = drp_read-word bar l fuel word port 0x23 w2 (omega arith) in
        let (w4, e4, kept4) = drp_read-word bar l fuel word port 0x39 w3 (omega arith) in
        let (w5, e5, kept5) = drp_read-word bar l fuel word port 0x1e w4 (omega arith) in
        (
          w5,
          rw
              (
                e1,
                e2,
                e3,
                e4,
                e5,
                kept4 0x1e,
                kept3 0x1e,
                kept3 0x39,
                kept2 0x1e,
                kept2 0x39,
                kept2 0x23,
                kept1 0x1e,
                kept1 0x39,
                kept1 0x23,
                kept1 0x20,
              )
              refl,
        )

    -- On a working port, `drpSetPllConfig` of supported settings returns, and `drpGetPllConfig` then
    -- returns them.
    pub drp_get_pll_config-drp_set_pll_config :
        (pll : GtxpllSettings) (w : W)
        → IsSupported pll
        → (w' w'' : W) × (drp_set_pll_config bar l fuel pll w ≡ (returned tt, w'))
          × (drp_get_pll_config bar l fuel w' ≡ (returned pll, w''))
    unfolding drp_set_pll_config settings_of
    drp_get_pll_config-drp_set_pll_config pll w h =
        let (w', e, sets) = update_all-word (first_update pll) (pll_updates pll) w (ground arith) in
        let (w'', got) = get_config-word w' in
        (
          w',
          w'',
          e,
          rw
              (
                got,
                sets 0x1f,
                sets 0x20,
                sets 0x23,
                sets 0x39,
                sets 0x1e,
                settings_of-updated pll h (word 0x1f w) (word 0x20 w) (word 0x23 w) (word 0x39 w)
                    (word 0x1e w),
              )
              refl,
        )
