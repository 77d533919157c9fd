-- ===== src/Sysmon/Events.antt =====
-- Where `ddr3DataReplayEventToRam` leaves the words of an event.
use alice_hlt_librorc.Base.{
  ℕ, zero, suc, ◌+◌, ◌-◌, ◌*◌, ◌^◌, ◌≤◌, ◌<◌, ◌≡◌, refl, sym, ap, arith, Bool, ◌==◌, leb, ltb,
  if◌then◌else◌, not, List, [], ◌∷◌, min, bit_and, bit_or, u16, Bool-cases, inl, inr,
}
use native.Mathlib.Decide.{dec_le}
use native.Mathlib.Nat.{pow-le-pow_right}
use alice_hlt_librorc.Base.Bits.{bit}
use alice_hlt_librorc.Base.Slices.{bit-ones, flag_test}
use alice_hlt_librorc.Base.Fallible.{}
use alice_hlt_librorc.Bar.{}
use alice_hlt_librorc.Registers.{}
use alice_hlt_librorc.Sysmon.I2c.{}
use alice_hlt_librorc.Sysmon.Replay.{channel_select, block_words, block_buffer, last_flags}

-- The `left` values of `f` from `j` on.
abbrev pub tabulate : (ℕ → ℕ) → ℕ → ℕ → List ℕ
tabulate f j zero = []
tabulate f j (suc left) = f j ∷ tabulate f (suc j) left

tabulate_ext :
    (f g : ℕ → ℕ) (j left : ℕ)
    → ((i : ℕ) → i < j + left → f i ≡ g i)
    → tabulate f j left ≡ tabulate g j left
tabulate_ext f g j zero same = refl
tabulate_ext f g j (suc left) same =
    rw (same j (omega arith), tabulate_ext f g (suc j) left (λ i lt. same i (omega arith))) refl

-- Block `i` of an event of `n` words: a header, with as many ones in the mask as the block has words
-- and the flags in the last block, and 15 words.
abbrev pub event_mask : ℕ → ℕ → ℕ
event_mask n i = 2 ^ min (n - 15 * i) 15 - 1

abbrev pub event_word : (ℕ → ℕ) → (ℕ → ℕ) → ℕ → ℕ → ℕ → ℕ
event_word stale words n i j = if ltb (15 * i + j) n then words (15 * i + j) else stale j

abbrev pub event_block : (ℕ → ℕ) → (ℕ → ℕ) → ℕ → ℕ → Bool → Bool → ℕ → List ℕ
event_block stale words n channel last_event diu_error i =
    let flags = if leb (n - 15 * i) 15 then last_flags last_event diu_error else 0 in
    bit_or (bit_or (event_mask n i * 2 ^ 16) flags) (channel_select channel)
    ∷ tabulate (event_word stale words n i) 0 15

-- Bit `j` of a mask of `m` ones, as the source tests it.
mask_test : (m j : ℕ) → (bit_and (2 ^ m - 1) (1 * 2 ^ j) == 0) ≡ not (ltb j m)
mask_test m j =
    let one : (if ltb j m then 1 else 0) ≡ bit j (2 ^ m - 1) = sym (bit-ones m j) in
    let tested = flag_test j (2 ^ m - 1) in
    elim (Bool-cases (bit_and (2 ^ m - 1) (1 * 2 ^ j) == 0)) [
      | inl unset ↦ ground (arith, one, tested, unset)
      | inr is_set ↦ ground (arith, one, tested, is_set)
    ]

block_words-tabulate :
    (stale words : ℕ → ℕ) (m j left : ℕ)
    → block_words stale words (2 ^ m - 1) j left
      ≡ tabulate (λ i. if ltb i m then words i else stale i) j left
unfolding block_words
block_words-tabulate stale words m j zero = refl
block_words-tabulate stale words m j (suc left) =
    let rest = block_words-tabulate stale words m (suc j) left in
    elim (Bool-cases (ltb j m)) [
      | inl inside ↦ rw (mask_test m j, inside, rest) refl
      | inr outside ↦ rw (mask_test m j, outside, rest) refl
    ]

round_mask : (n : ℕ) → (if leb n 15 then u16 (2 ^ n - 1) else 0x7fff) ≡ 2 ^ min n 15 - 1
round_mask n = elim (dec_le n 15) [
  | yes le ↦
      let small : 2 ^ n ≤ 2 ^ 15 = pow-le-pow_right {n = 2} (omega arith) {i = n} {j = 15} le in
      let whole : min n 15 ≡ n = omega arith in rw whole (ground arith)
  | no gt ↦ let full : min n 15 ≡ 15 = omega arith in rw full (ground arith)
]

-- The buffer of a round, with `n` words left, is block 0 of an event of `n` words.
pub block_buffer-event_block :
    (stale words : ℕ → ℕ) (n channel : ℕ) (last_event diu_error : Bool)
    → let is_last = leb n 15 in
      block_buffer stale words
        (if is_last then u16 (2 ^ n - 1) else 0x7fff)
        channel
        (if is_last then last_flags last_event diu_error else 0)
      ≡ event_block stale words n channel last_event diu_error 0
unfolding block_buffer
block_buffer-event_block stale words n channel last_event diu_error =
    let words_from : ℕ → List ℕ = λ mask.
      bit_or (bit_or (mask * 2 ^ 16) (if leb n 15 then last_flags last_event diu_error else 0))
        (channel_select channel)
      ∷ block_words stale words mask 0 15 in
    let all : n - 15 * 0 ≡ n = omega arith in
    let same =
      tabulate_ext (λ i. if ltb i (min n 15) then words i else stale i) (event_word stale words n 0)
        0 15 (λ i lt. let from : 15 * 0 + i ≡ i = omega arith in rw from (ground arith)) in
    rw (all, sym same, sym (block_words-tabulate stale words (min n 15) 0 15))
      (ap words_from (round_mask n))

-- The next block of an event is the first of its rest.
pub event_block-suc :
    (stale words : ℕ → ℕ) (n channel : ℕ) (last_event diu_error : Bool) (i : ℕ)
    → event_block stale (λ j. words (j + 15)) (n - 15) channel last_event diu_error i
      ≡ event_block stale words n channel last_event diu_error (suc i)
event_block-suc stale words n channel last_event diu_error i =
    let left : n - 15 - 15 * i ≡ n - 15 * suc i = omega arith in
    let same =
      tabulate_ext (event_word stale (λ j. words (j + 15)) (n - 15) i)
        (event_word stale words n (suc i)) 0 15
        (λ j lt. let at : 15 * i + j + 15 ≡ 15 * suc i + j = omega arith in rw at (ground arith)) in
    rw (left, same) refl
