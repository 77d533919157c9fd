-- ===== src/DmaChannel/Offsets.antt =====
-- The offsets, the packet size and the rate limit, written and read back, on registers that keep
-- what is written.
use native.Mathlib.Nat.{le-div_iff_mul-le, mul-div-le}
use alice_hlt_librorc.Base.{
  ℕ, ◌+◌, ◌-◌, ◌/◌, ◌^◌, ◌<◌, ◌≤◌, ◌≡◌, ◌&&◌, ◌==◌, List, [], ◌∷◌, arith, ltb, leb, get_or, length,
  if◌then◌else◌, u32, u64, ap, ◌∙◌, ◌<<<◌,
}
use alice_hlt_librorc.Base.Bits.{bit_and_mask}
use alice_hlt_librorc.Bar.{Bar}
use alice_hlt_librorc.Bar.Memory.{IsMemory}
use alice_hlt_librorc.Link.{Link, pci_reg, set_pci_reg, memcopy}
use alice_hlt_librorc.DmaChannel.{DmaChannel, set_dma_config}
use alice_hlt_librorc.DmaChannel.Pointers.{
  get_eb_offset, get_rb_offset, set_buffer_offsets_on_device, set_rate_limit, rate_limit, low_word,
  high_word, running_config,
}

module _ {W : Type 0} (bar : Bar W) (l : Link) {word : ℕ → W → ℕ} (memory : IsMemory bar word)
    (small : l.base + 0x100 < 2 ^ 32) where
  register : (a : ℕ) → a < 0x100 → u32 (l.base + a) ≡ l.base + a
  register a h = omega arith

  register64 : (a : ℕ) → a < 0x100 → u64 (l.base + a) ≡ l.base + a
  register64 a h = omega arith

  pci_reg_lem : (a : ℕ) (w : W) → a < 0x100 → pci_reg bar l a w ≡ (word (l.base + a) w, w)
  unfolding pci_reg
  pci_reg_lem a w h = ap (λ t. bar.get32 t w) (register a h) ∙ memory.reads (l.base + a) w

  set_pci_reg_lem :
      (a v : ℕ) (w : W) → a < 0x100 → set_pci_reg bar l a v w ≡ bar.set32 (l.base + a) v w
  unfolding set_pci_reg
  set_pci_reg_lem a v w h = ap (λ t. bar.set32 t v w) (register a h)

  memcopy_lem :
      (a : ℕ) (words : List ℕ) (w : W)
      → a < 0x100
      → memcopy bar l a words w ≡ bar.memcopy (l.base + a) words w
  unfolding memcopy
  memcopy_lem a words w h = ap (λ t. bar.memcopy t words w) (register64 a h)

  -- The word at register `b` of the channel after words are copied to register 6 and one is written
  -- to register 10.
  cell :
      (words : List ℕ) (v b : ℕ) (w : W)
      → b < 10
      → length words ≤ 4
      → word (l.base + b) (set_dma_config bar l v (memcopy bar l 6 words w).1).1 ≡ (
          if leb 6 b && ltb b (6 + length words)
          then get_or words (b - 6) 0
          else word (l.base + b) w)
  unfolding set_dma_config
  cell words v b w hb hl =
      let copied = (bar.memcopy (l.base + 6) words w).1 in
      let shift : l.base + b - (l.base + 6) ≡ b - 6 = omega arith in
      rw (memcopy_lem 6 words w (omega arith), set_pci_reg_lem 10 v copied (omega arith))
        (ground (
          arith,
          memory.writes (l.base + 10) v copied (l.base + b),
          memory.copies (l.base + 6) words w (l.base + b),
          shift,
        ))

  low_high : (x : ℕ) → x < 2 ^ 64 → u64 ((high_word x <<< 32) + low_word x) ≡ x
  low_high x h = omega (arith, bit_and_mask 32 x)

  get_eb_offset_lem :
      (x : ℕ) (w : W)
      → x < 2 ^ 64
      → word (l.base + 7) w ≡ high_word x
      → word (l.base + 6) w ≡ low_word x
      → get_eb_offset bar l w ≡ (x, w)
  unfolding get_eb_offset
  get_eb_offset_lem x w h hi lo =
      rw (pci_reg_lem 7 w (omega arith), pci_reg_lem 6 w (omega arith), hi, lo, low_high x h)

  get_rb_offset_lem :
      (x : ℕ) (w : W)
      → x < 2 ^ 64
      → word (l.base + 9) w ≡ high_word x
      → word (l.base + 8) w ≡ low_word x
      → get_rb_offset bar l w ≡ (x, w)
  unfolding get_rb_offset
  get_rb_offset_lem x w h hi lo =
      rw (pci_reg_lem 9 w (omega arith), pci_reg_lem 8 w (omega arith), hi, lo, low_high x h)

  -- On registers that keep what is written, `getEBOffset` and `getRBOffset` read back the two 64-bit
  -- offsets that `setBufferOffsetsOnDevice` has written.
  pub set_buffer_offsets_on_device-get :
      (eb rb : ℕ) (c : DmaChannel) (w : W)
      → eb < 2 ^ 64
      → rb < 2 ^ 64
      → let (c', w') = set_buffer_offsets_on_device bar l eb rb c w in
        (get_eb_offset bar l w' ≡ (eb, w')) × (get_rb_offset bar l w' ≡ (rb, w'))
  unfolding set_buffer_offsets_on_device
  set_buffer_offsets_on_device-get eb rb c w heb hrb =
      let words = low_word eb ∷ high_word eb ∷ low_word rb ∷ high_word rb ∷ [] in
      let after = (set_buffer_offsets_on_device bar l eb rb c w).1 in
      let at = cell words (running_config c) in
      (
        get_eb_offset_lem eb after heb (at 7 w (omega arith) (omega arith))
            (at 6 w (omega arith) (omega arith)),
        get_rb_offset_lem rb after hrb (at 9 w (omega arith) (omega arith))
            (at 8 w (omega arith) (omega arith)),
      )

  kept : (a v : ℕ) (w : W) → a < 0x100 → (pci_reg bar l a (set_pci_reg bar l a v w).1).0 ≡ v
  kept a v w h =
      rw (set_pci_reg_lem a v w h, pci_reg_lem a (bar.set32 (l.base + a) v w).1 h)
        (ground (arith, memory.writes (l.base + a) v w (l.base + a)))

  rate_back :
      (clk rate : ℕ) → 0 < rate → rate ≤ clk → (0 < clk / rate) × (rate ≤ clk / (clk / rate))
  rate_back clk rate pos le =
      let some_wait : 1 ≤ clk / rate = (le-div_iff_mul-le pos).1 (omega arith) in
      (some_wait, (le-div_iff_mul-le some_wait).1 (mul-div-le clk rate))

  limit_lem :
      (clk rate wait : ℕ)
      → 0 < rate
      → rate ≤ clk
      → wait ≡ clk / rate
      → rate ≤ (if wait == 0 then 0 else clk / wait)
  limit_lem clk rate wait pos le e = rw e (ground (arith, rate_back clk rate pos le))

  -- On registers that keep what is written, for a rate from 1 Hz to 125 MHz, the limit that
  -- `rateLimit` reads back after `setRateLimit` is at least that rate.
  pub set_rate_limit-rate_limit :
      (rate pcie_gen : ℕ) (w : W)
      → 0 < rate
      → rate ≤ 125000000
      → let (_, w') = set_rate_limit bar l rate pcie_gen w in
        rate ≤ (rate_limit bar l pcie_gen w').0
  unfolding set_rate_limit rate_limit
  set_rate_limit-rate_limit rate pcie_gen w pos le =
      let clk : ℕ = if pcie_gen == 2 then 250000000 else 125000000 in
      let v : ℕ = if rate == 0 then 0 else clk / rate in
      let wait : (pci_reg bar l 27 (set_pci_reg bar l 27 v w).1).0 ≡ clk / rate =
        kept 27 v w (omega arith) ∙ ground arith in
      limit_lem clk rate _ pos (ground arith) wait
