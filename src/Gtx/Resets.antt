-- ===== src/Gtx/Resets.antt =====
-- The three reset bits of a transceiver, which are not next to each other in the register.
use alice_hlt_librorc.Base.{
  ℕ, ◌+◌, ◌-◌, ◌*◌, ◌/◌, ◌%◌, ◌^◌, ◌<◌, ◌≡◌, refl, true, arith, ◌==◌, if◌then◌else◌, bit_and,
  bit_or, ==_iff, ◌||◌,
}
use alice_hlt_librorc.Base.Fields.{all_below, all_below_sound}
use alice_hlt_librorc.Base.Bits.{bit, bit-or, bit-and, bit-le, bit_and_mask}
use alice_hlt_librorc.Base.Slices.{bit-shifted, bit-ones, bit-moved}
use alice_hlt_librorc.Bar.{Bar}
use alice_hlt_librorc.Bar.Memory.{IsMemory}
use alice_hlt_librorc.Link.{Link, pci_reg, set_pci_reg}
use alice_hlt_librorc.Gtx.{get_reset, set_reset}
use alice_hlt_librorc.Gtx.Fields.{config}

mask_table :
    all_below 32 (λ j. bit j (2 ^ 32 - 1 - 11) == (if j == 0 || j == 1 || j == 3 then 0 else 1))
    ≡ true
unfolding all_below bit
mask_table = refl

-- One bit of `v` moved to bit `k`.
bit-flag : (k x j : ℕ) → bit j (bit_and x 1 * 2 ^ k) ≡ (if j == k then bit 0 x else 0)
bit-flag k x j =
    rw (bit-shifted k (bit_and x 1) j, bit-and (j - k), bit-ones 1 (j - k))
      (ground (arith, bit-le 0 x))

-- What `setReset` makes of the register.
abbrev reset_value : ℕ → ℕ → ℕ
reset_value v reg =
    bit_or
      (bit_or (bit_or (bit_and reg (2 ^ 32 - 1 - 11)) (bit_and v 1 * 2 ^ 0))
        (bit_and (v / 2 ^ 1) 1 * 2 ^ 1))
      (bit_and (v / 2 ^ 2) 1 * 2 ^ 3)

bit-reset_value :
    (v reg j : ℕ)
    → j < 32
    → bit j (reset_value v reg) ≡ (
        if j == 0
        then bit 0 v
        else if j == 1
        then bit 1 v
        else if j == 3
        then bit 2 v
        else bit j reg)
bit-reset_value v reg j h =
    let cleared = (==_iff _ _).0 (all_below_sound 32 _ j mask_table h) in
    rw
      (
        bit-or,
        bit-or,
        bit-or,
        bit-and j reg,
        cleared,
        bit-flag 0 v j,
        bit-flag 1 (v / 2 ^ 1) j,
        bit-flag 3 (v / 2 ^ 2) j,
        bit-moved 1 v 0,
        bit-moved 2 v 0,
      )
      (ground (arith, bit-le j reg, bit-le 0 v, bit-le 1 v, bit-le 2 v))

or_table :
    all_below 2 (λ a.
      all_below 2
        (λ b. all_below 2 (λ c. bit_or (bit_or a (b * 2 ^ 1)) (c * 2 ^ 2) == a + b * 2 + c * 4)))
    ≡ true
unfolding all_below
or_table = refl

or_sum :
    (a b c : ℕ)
    → a < 2
    → b < 2
    → c < 2
    → bit_or (bit_or a (b * 2 ^ 1)) (c * 2 ^ 2) ≡ a + b * 2 + c * 4
or_sum a b c ha hb hc =
    let row = all_below_sound 2 _ a or_table ha in
    let column = all_below_sound 2 _ b row hb in (==_iff _ _).0 (all_below_sound 2 _ c column hc)

-- The three bits as `getReset` puts them together.
abbrev reset_bits : ℕ → ℕ
reset_bits reg =
    bit_or (bit_or (bit_and (reg / 2 ^ 0) 1) (bit_and (reg / 2 ^ 1) 1 * 2 ^ 1))
      (bit_and (reg / 2 ^ 3) 1 * 2 ^ 2)

reset_bits-reset_value : (v reg : ℕ) → reset_bits (reset_value v reg) ≡ v % 8
unfolding bit
reset_bits-reset_value v reg =
    let x = reset_value v reg in
    rw
      (
        bit_and_mask 1 (x / 2 ^ 0),
        bit_and_mask 1 (x / 2 ^ 1),
        bit_and_mask 1 (x / 2 ^ 3),
        or_sum (x / 2 ^ 0 % 2 ^ 1) (x / 2 ^ 1 % 2 ^ 1) (x / 2 ^ 3 % 2 ^ 1) (omega arith)
            (omega arith) (omega arith),
      )
      (ground (
        arith,
        bit-reset_value v reg 0 (omega arith),
        bit-reset_value v reg 1 (omega arith),
        bit-reset_value v reg 3 (omega arith),
      ))

module _ {W : Type 0} (bar : Bar W) (word : ℕ → W → ℕ) (memory : IsMemory bar word) (l : Link) where
  -- `setReset` sets the bits 0, 1 and 3 of the register from the bits 0, 1 and 2 of its argument,
  -- and keeps the others; `getReset` reads back the three.
  pub get_reset-set_reset :
      (v : ℕ) (w : W)
      → ((get_reset bar l (set_reset bar l v w).1).0 ≡ v % 8)
        × ((j : ℕ)
            → j < 32
            → bit j (word (config l) (set_reset bar l v w).1) ≡ (
                if j == 0
                then bit 0 v
                else if j == 1
                then bit 1 v
                else if j == 3
                then bit 2 v
                else bit j (word (config l) w)))
  unfolding pci_reg set_pci_reg get_reset set_reset
  get_reset-set_reset v w =
      let reg = word (config l) w in
      let written = memory.writes (config l) (reset_value v reg) w (config l) in
      (
        rw (memory.reads (config l) w, memory.reads (config l))
            (ground (arith, written, reset_bits-reset_value v reg)),
        λ j h. rw (memory.reads (config l) w) (ground (arith, written, bit-reset_value v reg j h)),
      )
