-- ===== src/Base/Slices.antt =====
-- Fields of several bits in a 32-bit register: `reg &= ~(mask << k); reg |= (v & mask) << k` and
-- `(reg >> k) & mask`, for a mask of `n` ones.
use Prim.Native.Nat.{ℕ, zero, suc, ◌+◌, ◌-◌, ◌*◌, ◌/◌, ◌%◌, ◌^◌, ◌≤◌, ◌<◌, bit_and, bit_or}
use mathlib.Core.Path.{◌≡◌, refl, sym, ap, ◌∙◌}
use mathlib.Core.Logic.{◌⊎◌}
use mathlib.Core.Bool.{Bool, ◌&&◌, not}
use native.Mathlib.Omega.{arith}
use native.Mathlib.Nat.{pow-suc, one-le-pow, mod-lt, pow-le-pow_right, mul_comm, div-div-eq-div-mul}
use alice_hlt_librorc.Base.Tests.{◌==◌, leb, ltb, if◌then◌else◌}
use alice_hlt_librorc.Base.Bits.{
  bit, bit-or, bit-and, bit-le, bit_and_mask, bit_and_shifted, bit_ext,
}

-- The field of `n` bits at bit `k`, with the mask `2 ^ n - 1` written out.
abbrev pub put_field : ℕ → ℕ → ℕ → ℕ → ℕ
put_field k n v reg =
    bit_or (bit_and reg (2 ^ 32 - 1 - (2 ^ n - 1) * 2 ^ k)) (bit_and v (2 ^ n - 1) * 2 ^ k)

abbrev pub get_field : ℕ → ℕ → ℕ → ℕ
get_field k n reg = bit_and (reg / 2 ^ k) (2 ^ n - 1)

bit-zero : (i : ℕ) → bit i 0 ≡ 0
unfolding bit
bit-zero zero = refl
bit-zero (suc i) = bit-zero i

-- The bits of `2 ^ n - 1`.
pub bit-ones : (n i : ℕ) → bit i (2 ^ n - 1) ≡ (if ltb i n then 1 else 0)
unfolding bit
bit-ones zero i = ground (arith, bit-zero i)
bit-ones (suc n) zero = ground (arith, pow-suc 2 n, one-le-pow n 2)
bit-ones (suc n) (suc i) =
    let half : (2 ^ suc n - 1) / 2 ≡ 2 ^ n - 1 = omega (arith, pow-suc 2 n, one-le-pow n 2) in
    rw half (ground (arith, bit-ones n i))

-- The bits of a number moved up by `k`.
pub bit-shifted : (k x j : ℕ) → bit j (x * 2 ^ k) ≡ (if ltb j k then 0 else bit (j - k) x)
unfolding bit
bit-shifted zero x j = ground arith
bit-shifted (suc k) x zero = ground (arith, pow-suc 2 k, ap (λ (p : ℕ). x * p) (pow-suc 2 k))
bit-shifted (suc k) x (suc j) =
    let half : x * 2 ^ suc k / 2 ≡ x * 2 ^ k = omega (arith, ap (λ (p : ℕ). x * p) (pow-suc 2 k)) in
    rw half (ground (arith, bit-shifted k x j))

-- The bits of a number moved down by `k`.
pub bit-moved : (k x i : ℕ) → bit i (x / 2 ^ k) ≡ bit (i + k) x
unfolding bit
bit-moved zero x i = ground arith
bit-moved (suc k) x i =
    let moved : x / 2 ^ suc k ≡ x / 2 / 2 ^ k =
      ap (λ t. x / t) (pow-suc 2 k ∙ mul_comm (2 ^ k) 2) ∙ sym (div-div-eq-div-mul x 2 (2 ^ k)) in
    let next : i + suc k ≡ suc (i + k) = omega arith in rw (moved, bit-moved k (x / 2) i, next)

-- The complement of a mask.
pub bit-complement : (m x j : ℕ) → x < 2 ^ m → j < m → bit j (2 ^ m - 1 - x) ≡ 1 - bit j x
unfolding bit
bit-complement zero x j h lt = absurd (omega arith)
bit-complement (suc m) x zero h lt = omega (arith, pow-suc 2 m)
bit-complement (suc m) x (suc j) h lt =
    let half : (2 ^ suc m - 1 - x) / 2 ≡ 2 ^ m - 1 - x / 2 = omega (arith, pow-suc 2 m) in
    rw half (bit-complement m (x / 2) j (omega (arith, pow-suc 2 m)) (omega arith))

pub mask_fits : (k n m : ℕ) → k + n ≤ m → (2 ^ n - 1) * 2 ^ k < 2 ^ m
mask_fits zero n m h =
    let wider : 2 ^ n ≤ 2 ^ m = pow-le-pow_right (omega arith) (omega arith) in
    omega (arith, wider, one-le-pow n 2)
mask_fits (suc k) n zero h = absurd (omega arith)
mask_fits (suc k) n (suc m) h =
    let lower : (2 ^ n - 1) * 2 ^ k < 2 ^ m = mask_fits k n m (omega arith) in
    omega (arith, lower, pow-suc 2 m, ap (λ (p : ℕ). (2 ^ n - 1) * p) (pow-suc 2 k))

-- Bit `j` is in the field of `n` bits at bit `k`.
abbrev pub inside : ℕ → ℕ → ℕ → Bool
inside k n j = leb k j && ltb j (k + n)

pub bit-mask : (k n j : ℕ) → bit j ((2 ^ n - 1) * 2 ^ k) ≡ (if inside k n j then 1 else 0)
bit-mask k n j = ground (arith, bit-shifted k (2 ^ n - 1) j, bit-ones n (j - k))

-- The written register has the low `n` bits of `v` as its bits from `k` on, and the others as they
-- were.
pub bit-put_field :
    (k n v reg j : ℕ)
    → k + n ≤ 32
    → j < 32
    → bit j (put_field k n v reg) ≡ (if inside k n j then bit (j - k) v else bit j reg)
bit-put_field k n v reg j h hj =
    rw
      (
        bit-or,
        bit-and,
        bit-complement 32 ((2 ^ n - 1) * 2 ^ k) j (mask_fits k n 32 h) hj,
        bit-mask k n j,
        bit-shifted k (bit_and v (2 ^ n - 1)) j,
        bit-and (j - k),
        bit-ones n (j - k),
      )
      (ground (arith, bit-le j reg, bit-le (j - k) v))

pub bit-get_field :
    (k n reg i : ℕ) → bit i (get_field k n reg) ≡ (if ltb i n then bit (i + k) reg else 0)
bit-get_field k n reg i = rw (bit-and, bit-moved, bit-ones n i) (ground (arith, bit-le (i + k) reg))

pub get_field-lt : (k n reg : ℕ) → get_field k n reg < 2 ^ n
get_field-lt k n reg =
    rw (bit_and_mask n (reg / 2 ^ k)) (mod-lt (reg / 2 ^ k) (one-le-pow n 2 (omega arith)))

-- A field that is written reads back, cut to its width.
pub get_field-put_field :
    (k n v reg : ℕ) → k + n ≤ 32 → get_field k n (put_field k n v reg) ≡ v % 2 ^ n
get_field-put_field k n v reg h =
    bit_ext n _ _ (get_field-lt k n (put_field k n v reg)) (mod-lt v (one-le-pow n 2 (omega arith)))
      (λ i lt.
        rw
          (
            bit-get_field k n (put_field k n v reg) i,
            bit-put_field k n v reg (i + k) h (omega arith),
            sym (bit_and_mask n v),
            bit-and,
            bit-ones n i,
          )
          (ground (arith, bit-le i v)))

-- A field is not changed by a write to another that it does not overlap.
pub get_field-put_field_ne :
    (k n l m v reg : ℕ)
    → k + n ≤ 32
    → l + m ≤ 32
    → (k + n ≤ l) ⊎ (l + m ≤ k)
    → get_field k n (put_field l m v reg) ≡ get_field k n reg
get_field-put_field_ne k n l m v reg h h' apart =
    bit_ext n _ _ (get_field-lt k n (put_field l m v reg)) (get_field-lt k n reg) (λ i lt.
      rw
        (
          bit-get_field k n (put_field l m v reg) i,
          bit-get_field k n reg i,
          bit-put_field l m v reg (i + k) h' (omega arith),
        )
        (ground arith))

pub bit-get_one : (k reg : ℕ) → bit_and (reg / 2 ^ k) 1 ≡ bit k reg
unfolding bit
bit-get_one k reg =
    let from : 0 + k ≡ k = omega arith in
    let moved : bit 0 (reg / 2 ^ k) ≡ bit k reg = bit-moved k reg 0 ∙ ap (λ i. bit i reg) from in
    rw (bit_and_mask 1 (reg / 2 ^ k)) moved

scaled_test : (b p : ℕ) → b ≤ 1 → 1 ≤ p → not (b * p == 0) ≡ (b == 1)
scaled_test zero p h positive = ground arith
scaled_test (suc zero) p h positive = ground arith
scaled_test (suc (suc b)) p h positive = absurd (omega arith)

-- `reg & (1 << k)` is not 0 exactly if bit `k` is set.
pub flag_test : (k reg : ℕ) → not (bit_and reg (1 * 2 ^ k) == 0) ≡ (bit k reg == 1)
flag_test k reg =
    rw (bit_and_shifted k reg 1, bit-get_one k reg)
      (scaled_test (bit k reg) (2 ^ k) (bit-le k reg) (one-le-pow k 2 (omega arith)))
