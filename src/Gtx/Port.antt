-- ===== src/Gtx/Port.antt =====
-- What a reconfiguration port does with the commands of `drpRead` and `drpWrite`, and what
-- `drpUpdateField` then does to its registers.
use alice_hlt_librorc.Base.{
  ℕ, zero, suc, ◌+◌, ◌-◌, ◌*◌, ◌%◌, ◌^◌, ◌≤◌, ◌<◌, ◌≡◌, refl, sym, ap, arith, true, false, ◌==◌,
  leb, ltb, ◌&&◌, ◌≢◌, ==_iff, if◌then◌else◌, u16, u32, Bool-cases, inl, inr, bit_or, bit_and, ◌⊎◌,
}
use native.Mathlib.Nat.{pow-le-pow_right, one-le-pow, mod-lt}
use alice_hlt_librorc.Base.Bits.{
  bit, bit-or, bit-and, bit-le, bit_and_mask, bit_or_fields, bit_or-zero, bit_ext,
}
use alice_hlt_librorc.Base.Slices.{
  get_field, inside, bit-get_field, get_field-lt, bit-ones, bit-complement, bit-mask, bit-shifted,
  mask_fits,
}
use alice_hlt_librorc.Base.Fallible.{Outcome, OutOfFuel, returned}
use alice_hlt_librorc.Bar.{Bar}
use alice_hlt_librorc.Link.{Link, pci_reg, set_pci_reg}
use alice_hlt_librorc.Registers.{rorc_reg_gtx_drp_ctrl}
use alice_hlt_librorc.Gtx.Drp.{
  is_busy, updated_field, den_loop, wait_for_drp_den_to_deassert, drp_read, drp_write,
  write_changed, drp_update_field,
}

-- The low 16 bits of a word.
bit-low : (x j : ℕ) → j < 16 → bit j (u16 x) ≡ bit j x
bit-low x j h =
    rw (sym (bit_and_mask 16 x), bit-and j x, bit-ones 16 j) (ground (arith, bit-le j x))

-- The bits of the value that `drpUpdateField` writes.
pub bit-updated_field :
    (k n v orig j : ℕ)
    → k + n ≤ 16
    → j < 16
    → bit j (updated_field orig v k n) ≡ (if inside k n j then bit (j - k) v else bit j orig)
unfolding updated_field
bit-updated_field k n v orig j fits h =
    let small : 2 ^ n ≤ 2 ^ 16 =
      pow-le-pow_right {n = 2} (omega arith) {i = n} {j = 16} (omega arith) in
    let ones : u16 (u32 (1 * 2 ^ n) - 1) ≡ 2 ^ n - 1 = omega (arith, one-le-pow n 2) in
    rw
      (
        ones,
        bit-low _ j h,
        bit-or j,
        bit-low _ j h,
        bit-and j orig,
        bit-complement 32 ((2 ^ n - 1) * 2 ^ k) j (mask_fits k n 32 (omega arith)) (omega arith),
        bit-mask k n j,
        bit-shifted k (bit_and v (2 ^ n - 1)) j,
        bit-and (j - k),
        bit-ones n (j - k),
      )
      (ground (arith, bit-le j orig, bit-le (j - k) v))

-- A field that `drpUpdateField` writes has the low bits of the new value.
pub get_field-updated_field :
    (k n v orig : ℕ) → k + n ≤ 16 → get_field k n (updated_field orig v k n) ≡ v % 2 ^ n
get_field-updated_field k n v orig fits =
    bit_ext n _ _ (get_field-lt k n (updated_field orig v k n))
      (mod-lt v (one-le-pow n 2 (omega arith)))
      (λ i lt.
        rw
          (
            bit-get_field k n (updated_field orig v k n) i,
            bit-updated_field k n v orig (i + k) fits (omega arith),
            sym (bit_and_mask n v),
            bit-and i v,
            bit-ones n i,
          )
          (ground (arith, bit-le i v)))

-- A field that does not overlap it stays as it was.
pub get_field-updated_field_ne :
    (l m k n v orig : ℕ)
    → k + n ≤ 16
    → l + m ≤ 16
    → (l + m ≤ k) ⊎ (k + n ≤ l)
    → get_field l m (updated_field orig v k n) ≡ get_field l m orig
get_field-updated_field_ne l m k n v orig fits fits' apart =
    bit_ext m _ _ (get_field-lt l m (updated_field orig v k n)) (get_field-lt l m orig) (λ i lt.
      rw
        (
          bit-get_field l m (updated_field orig v k n) i,
          bit-get_field l m orig i,
          bit-updated_field k n v orig (i + l) fits (omega arith),
        )
        (ground arith))

updated_field-lt : (orig v k n : ℕ) → updated_field orig v k n < 2 ^ 16
unfolding updated_field
updated_field-lt orig v k n = omega arith

module _ {W : Type 0} (bar : Bar W) (l : Link) (fuel : ℕ) where
  -- The status register of the port after a pause.
  abbrev pub polled : W → ℕ × W
  polled w = pci_reg bar l rorc_reg_gtx_drp_ctrl (bar.usleep 100 w).1

  -- Polls 0 to k - 1 find the port busy, and poll k finds `status`, which is not.
  abbrev pub Settles : ℕ → W → ℕ → W → Type 0
  Settles zero w status w' = (is_busy (polled w).0 ≡ false) × (polled w ≡ (status, w'))
  Settles (suc k) w status w' = (is_busy (polled w).0 ≡ true) × Settles k (polled w).1 status w'

  den_loop-Settles :
      (rounds k : ℕ) (w : W) (status : ℕ) (w' : W)
      → Settles k w status w'
      → k < rounds
      → den_loop bar l rounds w ≡ (returned status, w')
  unfolding den_loop
  den_loop-Settles zero k w status w' h lt = absurd (omega arith)
  den_loop-Settles (suc rounds) zero w status w' h lt =
      let out : ℕ × W → Outcome OutOfFuel ℕ × W = λ p. (returned p.0, p.1) in
      rw (den_loop, h.0) (ap out h.1)
  den_loop-Settles (suc rounds) (suc k) w status w' h lt =
      rw (den_loop, h.0) (den_loop-Settles rounds k (polled w).1 status w' h.1 (omega arith))

  -- The port answers a command within `fuel` polls.
  pub record Answers (w : W) : Type 0 where
    pub polls : ℕ
    pub status : ℕ
    pub after : W
    pub settles : Settles polls w status after
    pub soon : polls < fuel

  abbrev pub commanded : ℕ → W → W
  commanded drp_cmd w = (set_pci_reg bar l rorc_reg_gtx_drp_ctrl drp_cmd w).1

  -- The port of a transceiver with the registers `word`: a command to read returns the register in
  -- the low half of the status, and one to write sets it.
  pub record DrpPort (word : ℕ → W → ℕ) : Type 0 where
    pub width : (a : ℕ) (w : W) → word a w < 2 ^ 16
    pub read_answers : (a : ℕ) (w : W) → a < 2 ^ 8 → Answers (commanded (a * 2 ^ 16) w)
    pub read_status :
        (a : ℕ) (w : W) (lt : a < 2 ^ 8) → (read_answers a w lt).status % 2 ^ 16 ≡ word a w
    pub read_keeps :
        (a : ℕ) (w : W) (lt : a < 2 ^ 8) (b : ℕ) → word b (read_answers a w lt).after ≡ word b w
    pub write_answers :
        (a v : ℕ) (w : W) → a < 2 ^ 8 → v < 2 ^ 16 → Answers (commanded (2 ^ 24 + a * 2 ^ 16 + v) w)
    pub write_sets :
        (a v : ℕ) (w : W) (lt : a < 2 ^ 8) (lt' : v < 2 ^ 16) (b : ℕ)
        → word b (write_answers a v w lt lt').after ≡ (if b == a then v else word b w)

  module _ (word : ℕ → W → ℕ) (port : DrpPort word) where
    -- `drpRead` of an address returns its register, and changes none.
    pub drp_read-word :
        (a : ℕ) (w : W)
        → a < 2 ^ 8
        → (w' : W) × (drp_read bar l fuel a w ≡ (returned (word a w), w'))
          × ((b : ℕ) → word b w' ≡ word b w)
    unfolding drp_read wait_for_drp_den_to_deassert
    drp_read-word a w lt =
        let ans = port.read_answers a w lt in
        let command : bit_or (bit_or (0 * 2 ^ 24) (a * 2 ^ 16)) 0 ≡ a * 2 ^ 16 =
          rw (bit_or-zero, bit_or_fields 24 0 (a * 2 ^ 16) (omega arith)) (omega arith) in
        let loop =
          den_loop-Settles fuel ans.polls (commanded (a * 2 ^ 16) w) ans.status ans.after
            ans.settles ans.soon in
        (
          ans.after,
          rw (command, loop, bit_and_mask 16 ans.status, port.read_status a w lt) refl,
          port.read_keeps a w lt,
        )

    -- `drpWrite` sets the register at the address, and no other.
    drp_write-word :
        (a v : ℕ) (w : W)
        → a < 2 ^ 8
        → v < 2 ^ 16
        → (w' : W) × (drp_write bar l fuel a v w ≡ (returned tt, w'))
          × ((b : ℕ) → word b w' ≡ (if b == a then v else word b w))
    unfolding drp_write wait_for_drp_den_to_deassert
    drp_write-word a v w lt lt' =
        let ans = port.write_answers a v w lt lt' in
        let upper : bit_or (1 * 2 ^ 24) (a * 2 ^ 16) ≡ (2 ^ 8 + a) * 2 ^ 16 =
          rw (bit_or_fields 24 1 (a * 2 ^ 16) (omega arith)) (omega arith) in
        let command : bit_or (bit_or (1 * 2 ^ 24) (a * 2 ^ 16)) v ≡ 2 ^ 24 + a * 2 ^ 16 + v =
          rw (upper, bit_or_fields 16 (2 ^ 8 + a) v lt') (omega arith) in
        let drp_cmd = 2 ^ 24 + a * 2 ^ 16 + v in
        let loop =
          den_loop-Settles fuel ans.polls (commanded drp_cmd w) ans.status ans.after ans.settles
            ans.soon in
        (ans.after, rw (command, loop) refl, port.write_sets a v w lt lt')

    -- `drpUpdateField` leaves the value that it computes in the register at the address.
    pub drp_update_field-word :
        (a v k n : ℕ) (w : W)
        → a < 2 ^ 8
        → (w' : W) × (drp_update_field bar l fuel a v k n w ≡ (returned tt, w'))
          × ((b : ℕ) → word b w' ≡ (if b == a then updated_field (word b w) v k n else word b w))
    unfolding drp_update_field write_changed
    drp_update_field-word a v k n w lt =
        let (w1, read, kept) = drp_read-word a w lt in
        let new = updated_field (word a w) v k n in
        let (w2, wrote, set) = drp_write-word a new w1 lt (updated_field-lt (word a w) v k n) in
        let (w3, read0, kept0) = drp_read-word 0 w2 (omega arith) in
        elim (Bool-cases (word a w == new)) [
          | inl same ↦ (
            w1,
            rw (read, same) refl,
            λ b. elim (Bool-cases (b == a)) [
              | inl at ↦
                  let here : b ≡ a = (==_iff b a).0 at in
                  rw (kept b, at, here) ((==_iff (word a w) new).0 same)
              | inr other ↦ rw (kept b, other) refl
            ],
          )
          | inr changed ↦ (
            w3,
            rw (read, changed, wrote, read0) refl,
            λ b. elim (Bool-cases (b == a)) [
              | inl at ↦ let here : b ≡ a = (==_iff b a).0 at in rw (kept0 b, set b, at, here) refl
              | inr other ↦ rw (kept0 b, set b, kept b, other) refl
            ],
          )
        ]

    -- On a working port, `drpUpdateField` of `n` bits at bit `k` of a register of 16 bits returns. It
    -- leaves the low bits of the new value there, and the other bits of the register and all other
    -- registers as they were.
    pub drp_update_field-bits :
        (a v k n : ℕ) (w : W)
        → a < 2 ^ 8
        → k + n ≤ 16
        → (w' : W) × (drp_update_field bar l fuel a v k n w ≡ (returned tt, w'))
          × ((j : ℕ)
              → j < 16
              → bit j (word a w')
                ≡ (if leb k j && ltb j (k + n) then bit (j - k) v else bit j (word a w)))
          × ((b : ℕ) → b ≢ a → word b w' ≡ word b w)
    drp_update_field-bits a v k n w lt fits =
        let (w', e, set) = drp_update_field-word a v k n w lt in
        let here : word a w' ≡ updated_field (word a w) v k n = ground (arith, set a) in
        (
          w',
          e,
          λ j h. rw here (bit-updated_field k n v (word a w) j fits h),
          λ b apart. ground (arith, set b, apart),
        )
