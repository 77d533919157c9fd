-- ===== src/Base/Bits.antt =====
-- `&` and `|` at variables, by single bits.
use Prim.Native.Nat.{
  ℕ, zero, suc, ◌+◌, ◌-◌, ◌*◌, ◌/◌, ◌%◌, ◌^◌, ◌≤◌, ◌<◌, min, max, bit_and, bit_or,
}
use Prim.Native.Nat.{digits, bitwise, bit_and-bitwise, bit_or-bitwise}
use mathlib.Core.Path.{◌≡◌, refl, sym, ap, ◌∙◌}
use native.Mathlib.Nat.{le_refl, pow-suc, one-le-pow, mul_comm, div-div-eq-div-mul}
use native.Mathlib.Omega.{arith}

-- `digits` recurses on its fuel; any two amounts that cover the first number give the same.
module _ (rest : ℕ → ℕ) (op : ℕ → ℕ → ℕ) where
  same_digits : (k l x y : ℕ) → x ≤ l → x ≤ k → digits rest op k x y ≡ digits rest op l x y
  same_digits (suc k) (suc l) (suc x) y hl hk =
      rw (same_digits k l (suc x / 2) (y / 2) (omega arith) (omega arith))
  same_digits (suc k) (suc l) zero y hl hk = refl
  same_digits zero (suc l) (suc x) y hl hk = absurd (omega arith)
  same_digits (suc k) zero (suc x) y hl hk = absurd (omega arith)
  same_digits zero zero zero y hl hk = refl
  same_digits zero zero (suc x) y hl hk = absurd (omega arith)
  same_digits zero (suc l) zero y hl hk = refl
  same_digits (suc k) zero zero y hl hk = refl

  bitwise-suc :
      (x y : ℕ)
      → bitwise rest op (suc x) y ≡ bitwise rest op (suc x / 2) (y / 2) * 2 + op (suc x % 2) (y % 2)
  bitwise-suc x y =
      let h = suc x / 2 in omega (arith, same_digits x h h (y / 2) (le_refl h) (omega arith))

-- One binary digit of `|` and of `&`.
pub bit_or_step : (x y : ℕ) → bit_or x y ≡ bit_or (x / 2) (y / 2) * 2 + max (x % 2) (y % 2)
bit_or_step (suc x) y = simp bit_or-bitwise (bitwise-suc (λ higher. higher) max x y)
bit_or_step zero y = simp bit_or-bitwise (omega arith)

pub bit_and_step : (x y : ℕ) → bit_and x y ≡ bit_and (x / 2) (y / 2) * 2 + min (x % 2) (y % 2)
bit_and_step (suc x) y = simp bit_and-bitwise (bitwise-suc (λ higher. 0) min x y)
bit_and_step zero y = simp bit_and-bitwise (omega arith)

-- The bound `m` on the number makes the recursion on its half structural.
or_zero_below : (m x : ℕ) → x ≤ m → bit_or x 0 ≡ x
or_zero_below (suc m) (suc x) le =
    let half = or_zero_below m (suc x / 2) (omega arith) in
    omega (arith, half, bit_or_step (suc x) 0)
or_zero_below zero (suc x) le = absurd (omega arith)
or_zero_below m zero le = refl

pub bit_or-zero : (x : ℕ) → bit_or x 0 ≡ x
bit_or-zero x = or_zero_below x x (le_refl x)

and_zero_below : (m x : ℕ) → x ≤ m → bit_and x 0 ≡ 0
and_zero_below (suc m) (suc x) le =
    let half = and_zero_below m (suc x / 2) (omega arith) in
    omega (arith, half, bit_and_step (suc x) 0)
and_zero_below zero (suc x) le = absurd (omega arith)
and_zero_below m zero le = refl

pub bit_and-zero : (x : ℕ) → bit_and x 0 ≡ 0
bit_and-zero x = and_zero_below x x (le_refl x)

-- Bit `i` of `a`.
unfoldable pub bit : ℕ → ℕ → ℕ
bit zero a = a % 2
bit (suc i) a = bit i (a / 2)

pub bit-le : (i a : ℕ) → bit i a ≤ 1
unfolding bit
bit-le zero a = omega arith
bit-le (suc i) a = bit-le i (a / 2)

pub bit-or : (i a b : ℕ) → bit i (bit_or a b) ≡ max (bit i a) (bit i b)
unfolding bit
bit-or zero a b = omega (arith, bit_or_step a b)
bit-or (suc i) a b =
    let half : bit_or a b / 2 ≡ bit_or (a / 2) (b / 2) = omega (arith, bit_or_step a b) in
    rw half (bit-or i (a / 2) (b / 2))

pub bit-and : (i a b : ℕ) → bit i (bit_and a b) ≡ min (bit i a) (bit i b)
unfolding bit
bit-and zero a b = omega (arith, bit_and_step a b)
bit-and (suc i) a b =
    let half : bit_and a b / 2 ≡ bit_and (a / 2) (b / 2) = omega (arith, bit_and_step a b) in
    rw half (bit-and i (a / 2) (b / 2))

mul-two-pow-suc : (c w : ℕ) → c * 2 ^ suc w ≡ 2 * (c * 2 ^ w)
mul-two-pow-suc c w = omega (arith, ap (λ (power : ℕ). c * power) (pow-suc 2 w))

-- A field above `w` bits and one within them do not overlap: `|` adds them.
pub bit_or_fields : (w hi lo : ℕ) → lo < 2 ^ w → bit_or (hi * 2 ^ w) lo ≡ hi * 2 ^ w + lo
bit_or_fields (suc w) hi lo h = ground (
  arith,
  bit_or_fields w hi (lo / 2) (omega arith),
  mul-two-pow-suc hi w,
  bit_or_step (hi * 2 ^ suc w) lo,
)
bit_or_fields zero hi lo h = ground (arith, bit_or-zero hi)

low_field : (w hi lo : ℕ) → lo < 2 ^ w → bit_and (hi * 2 ^ w + lo) (2 ^ w - 1) ≡ lo
low_field (suc w) hi lo h = ground (
  arith,
  low_field w hi (lo / 2) (omega arith),
  pow-suc 2 w,
  mul-two-pow-suc hi w,
  bit_and_step (hi * 2 ^ suc w + lo) (2 ^ suc w - 1),
)
low_field zero hi lo h = rw bit_and-zero (omega arith)

-- `&` with `w` ones is the remainder by `2 ^ w`.
pub bit_and_mask : (w x : ℕ) → bit_and x (2 ^ w - 1) ≡ x % 2 ^ w
bit_and_mask w x = ground (arith, low_field w (x / 2 ^ w) (x % 2 ^ w), one-le-pow w 2)

-- A number of `n` bits is its bits.
pub bit_ext : (n a b : ℕ) → a < 2 ^ n → b < 2 ^ n → ((j : ℕ) → j < n → bit j a ≡ bit j b) → a ≡ b
unfolding bit
bit_ext zero a b ha hb h = omega arith
bit_ext (suc n) a b ha hb h =
    let halves =
      bit_ext n (a / 2) (b / 2) (omega (arith, pow-suc 2 n)) (omega (arith, pow-suc 2 n))
        (λ j lt. h (suc j) (omega arith)) in
    omega (arith, halves, h 0 (omega arith))

-- `a & m` by digits, for a mask of `n` bits.
abbrev pub masked : ℕ → ℕ → ℕ → ℕ
masked zero a m = 0
masked (suc n) a m = masked n (a / 2) (m / 2) * 2 + min (a % 2) (m % 2)

pub bit_and-masked : (n a m : ℕ) → m < 2 ^ n → bit_and a m ≡ masked n a m
bit_and-masked zero a m h = let e : m ≡ 0 = omega arith in rw (e, bit_and-zero)
bit_and-masked (suc n) a m h =
    omega (arith, bit_and_step a m, bit_and-masked n (a / 2) (m / 2) (omega (arith, pow-suc 2 n)))

bit_or_swap_fuel :
    (n a b c : ℕ) → a ≤ n → b ≤ n → c ≤ n → bit_or (bit_or a b) c ≡ bit_or (bit_or a c) b
bit_or_swap_fuel zero a b c ha hb hc =
    let a0 : a ≡ 0 = omega arith in
    let b0 : b ≡ 0 = omega arith in let c0 : c ≡ 0 = omega arith in rw (a0, b0, c0)
bit_or_swap_fuel (suc n) a b c ha hb hc =
    let left : bit_or a b / 2 ≡ bit_or (a / 2) (b / 2) = omega (arith, bit_or_step a b) in
    let right : bit_or a c / 2 ≡ bit_or (a / 2) (c / 2) = omega (arith, bit_or_step a c) in
    let ih = bit_or_swap_fuel n (a / 2) (b / 2) (c / 2) (omega arith) (omega arith) (omega arith) in
    ground (
      arith,
      left,
      right,
      ih,
      bit_or_step a b,
      bit_or_step a c,
      bit_or_step (bit_or a b) c,
      bit_or_step (bit_or a c) b,
    )

pub bit_or_swap : (a b c : ℕ) → bit_or (bit_or a b) c ≡ bit_or (bit_or a c) b
bit_or_swap a b c = bit_or_swap_fuel (a + b + c) a b c (omega arith) (omega arith) (omega arith)

-- A mask whose `k` low bits are clear.
pub bit_and_shifted : (k a m : ℕ) → bit_and a (m * 2 ^ k) ≡ bit_and (a / 2 ^ k) m * 2 ^ k
bit_and_shifted zero a m = ground arith
bit_and_shifted (suc k) a m =
    let half : a / 2 ^ suc k ≡ a / 2 / 2 ^ k =
      ap (λ t. a / t) (pow-suc 2 k ∙ mul_comm (2 ^ k) 2) ∙ sym (div-div-eq-div-mul a 2 (2 ^ k)) in
    let halved : m * 2 ^ suc k / 2 ≡ m * 2 ^ k = omega (arith, mul-two-pow-suc m k) in
    let rest : bit_and (a / 2) (m * 2 ^ suc k / 2) ≡ bit_and (a / 2 / 2 ^ k) m * 2 ^ k =
      rw halved (bit_and_shifted k (a / 2) m) in
    rw half (
      omega (
        arith,
        bit_and_step a (m * 2 ^ suc k),
        mul-two-pow-suc m k,
        rest,
        mul-two-pow-suc (bit_and (a / 2 / 2 ^ k) m) k,
      ))
