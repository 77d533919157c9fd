-- ===== src/Gtx/Fields.antt =====
-- The fields of the configuration register of a transceiver.
use alice_hlt_librorc.Base.{
  ℕ, ◌+◌, ◌*◌, ◌/◌, ◌%◌, ◌^◌, ◌<◌, ◌≡◌, refl, arith, ◌==◌, if◌then◌else◌, u32,
}
use alice_hlt_librorc.Base.Bits.{bit, bit_and_mask}
use alice_hlt_librorc.Base.Slices.{get_field, put_field, bit-moved, bit-put_field}
use alice_hlt_librorc.Bar.{Bar}
use alice_hlt_librorc.Bar.Memory.{IsMemory}
use alice_hlt_librorc.Bar.Fields.{IsField, Modifies-IsField}
use alice_hlt_librorc.Link.{Link, pci_reg, set_pci_reg}
use alice_hlt_librorc.Registers.{rorc_reg_gtx_async_cfg}
use alice_hlt_librorc.Gtx.{
  get_tx_diff_ctrl, set_tx_diff_ctrl, get_tx_pre_emph, set_tx_pre_emph, get_tx_post_emph,
  set_tx_post_emph, get_rx_eq_mix, set_rx_eq_mix, get_loopback, set_loopback, get_rx_reset,
  set_rx_reset, get_tx_reset, set_tx_reset,
}

-- Five bits of which the fifth is not in the field that is written.
five_bits : (v reg : ℕ) → get_field 24 5 (put_field 24 4 v reg) ≡ v % 16 + 16 * bit 28 reg
unfolding bit
five_bits v reg =
    let y = put_field 24 4 v reg / 2 ^ 24 in
    let digit : (i : ℕ) → i < 5 → bit i y ≡ (if i == 4 then bit 28 reg else bit i v) = λ i lt.
      rw
        (
          bit-moved 24 (put_field 24 4 v reg) i,
          bit-put_field 24 4 v reg (i + 24) (omega arith) (omega arith),
        )
        (ground arith) in
    rw (bit_and_mask 5 y) (
      omega (
        arith,
        digit 0 (omega arith),
        digit 1 (omega arith),
        digit 2 (omega arith),
        digit 3 (omega arith),
        digit 4 (omega arith),
      ))

-- The address of the configuration register.
abbrev pub config : Link → ℕ
config l = u32 (l.base + rorc_reg_gtx_async_cfg)

module _ {W : Type 0} (bar : Bar W) (word : ℕ → W → ℕ) (memory : IsMemory bar word) (l : Link) where
  -- On registers that keep their values, the drive strength, the pre-emphasis, the equaliser, the
  -- loopback mode and the two partial resets are fields of one register, each set and read back
  -- with no effect on another.
  pub async_cfg-IsField :
      IsField bar word (config l) 16 4 (get_tx_diff_ctrl bar l) (set_tx_diff_ctrl bar l)
      × IsField bar word (config l) 20 4 (get_tx_pre_emph bar l) (set_tx_pre_emph bar l)
      × IsField bar word (config l) 29 3 (get_rx_eq_mix bar l) (set_rx_eq_mix bar l)
      × IsField bar word (config l) 9 3 (get_loopback bar l) (set_loopback bar l)
      × IsField bar word (config l) 1 1 (get_rx_reset bar l) (set_rx_reset bar l)
      × IsField bar word (config l) 3 1 (get_tx_reset bar l) (set_tx_reset bar l)
  unfolding pci_reg set_pci_reg get_tx_diff_ctrl set_tx_diff_ctrl get_tx_pre_emph set_tx_pre_emph
      get_rx_eq_mix set_rx_eq_mix get_loopback set_loopback get_rx_reset set_rx_reset get_tx_reset
      set_tx_reset
  async_cfg-IsField = (
    Modifies-IsField bar word memory (config l) 16 4 _ _ (omega arith) (λ v w. refl) (λ w. refl),
    Modifies-IsField bar word memory (config l) 20 4 _ _ (omega arith) (λ v w. refl) (λ w. refl),
    Modifies-IsField bar word memory (config l) 29 3 _ _ (omega arith) (λ v w. refl) (λ w. refl),
    Modifies-IsField bar word memory (config l) 9 3 _ _ (omega arith) (λ v w. refl) (λ w. refl),
    Modifies-IsField bar word memory (config l) 1 1 _ _ (omega arith) (λ v w. refl) (λ w. refl),
    Modifies-IsField bar word memory (config l) 3 1 _ _ (omega arith) (λ v w. refl) (λ w. refl),
  )

  -- `setTxPostEmph` sets only the low four bits of the field of five bits that `getTxPostEmph`
  -- reads: bit 28 stays as it was, so that a value is read back only if that bit already agrees.
  pub get_tx_post_emph-set_tx_post_emph :
      (v : ℕ) (w : W)
      → (get_tx_post_emph bar l (set_tx_post_emph bar l v w).1).0
        ≡ v % 16 + 16 * bit 28 (word (config l) w)
  unfolding pci_reg set_pci_reg get_tx_post_emph set_tx_post_emph
  get_tx_post_emph-set_tx_post_emph v w =
      rw
        (
          memory.reads (config l) w,
          memory.reads (config l),
          memory.writes (config l) (put_field 24 4 v (word (config l) w)) w (config l),
        )
        (ground (arith, five_bits v (word (config l) w)))
