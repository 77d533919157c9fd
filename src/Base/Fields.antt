-- ===== src/Base/Fields.antt =====
-- Single-bit fields of a 32-bit register: what `reg &= ~(1 << k); reg |= (v & 1) << k` does.
use Prim.Native.Nat.{ℕ, zero, suc, ◌-◌, ◌*◌, ◌%◌, ◌^◌, ◌<◌, bit_and, bit_or}
use mathlib.Core.Path.{◌≡◌, refl}
use mathlib.Core.Bool.{Bool, true, ◌&&◌, ◌||◌}
use native.Mathlib.Omega.{arith}
use alice_hlt_librorc.Base.Tests.{◌==◌, ==_iff, if◌then◌else◌}
use alice_hlt_librorc.Base.Bits.{bit, bit-or, bit-and, bit-le, bit_and_mask}

-- Over a small range, every value is checked by evaluation.
unfoldable pub all_below : ℕ → (ℕ → Bool) → Bool
all_below zero p = true
all_below (suc n) p = p n && all_below n p

-- A table that has passed the test holds of each of its numbers.
pub all_below_sound :
    (bound : ℕ) (test : ℕ → Bool) (k : ℕ) → all_below bound test ≡ true → k < bound → test k ≡ true
unfolding all_below
all_below_sound (suc bound) test k passed inside = ground (arith, all_below_sound bound test k)
all_below_sound zero test k passed inside = absurd (omega arith)

abbrev all_pairs : (ℕ → ℕ → Bool) → Bool
all_pairs p = all_below 32 (λ k. all_below 32 (p k))

all_pairs_sound : (p : ℕ → ℕ → Bool) (k j : ℕ) → all_pairs p ≡ true → k < 32 → j < 32 → p k j ≡ true
all_pairs_sound p k j h hk hj =
    all_below_sound 32 (p k) j (all_below_sound 32 (λ k. all_below 32 (p k)) k h hk) hj

clear_table : all_pairs (λ k j. bit j (2 ^ 32 - 1 - 2 ^ k) == (if j == k then 0 else 1)) ≡ true
unfolding all_below bit
clear_table = refl

one_table : all_pairs (λ k j. bit j (1 * 2 ^ k) == (if j == k then 1 else 0)) ≡ true
unfolding all_below bit
one_table = refl

zero_table : all_pairs (λ k j. bit j (0 * 2 ^ k) == 0) ≡ true
unfolding all_below bit
zero_table = refl

pub bit-clear_mask :
    (k j : ℕ) → k < 32 → j < 32 → bit j (2 ^ 32 - 1 - 2 ^ k) ≡ (if j == k then 0 else 1)
bit-clear_mask k j hk hj = (==_iff _ _).0 (all_pairs_sound _ k j clear_table hk hj)

pub bit-pow : (k j : ℕ) → k < 32 → j < 32 → bit j (2 ^ k) ≡ (if j == k then 1 else 0)
bit-pow k j hk hj =
    let one : 1 * 2 ^ k ≡ 2 ^ k = omega arith in
    rw one at ((==_iff _ _).0 (all_pairs_sound _ k j one_table hk hj))

bit-flag_lem : (k v j : ℕ) → k < 32 → j < 32 → v < 2 → bit j (v * 2 ^ k) ≡ (if j == k then v else 0)
bit-flag_lem k zero j hk hj h =
    ground (arith, (==_iff _ _).0 (all_pairs_sound _ k j zero_table hk hj))
bit-flag_lem k (suc zero) j hk hj h = (==_iff _ _).0 (all_pairs_sound _ k j one_table hk hj)
bit-flag_lem k (suc (suc v)) j hk hj h = absurd (omega arith)

-- The written register has the lowest bit of `v` as its bit `k`, and all others as they were.
pub bit-put :
    (k v reg j : ℕ)
    → k < 32
    → j < 32
    → bit j (bit_or (bit_and reg (2 ^ 32 - 1 - 2 ^ k)) (bit_and v 1 * 2 ^ k))
      ≡ (if j == k then v % 2 else bit j reg)
bit-put k v reg j hk hj =
    rw
      (
        bit-or,
        bit-and,
        bit-clear_mask k j hk hj,
        bit_and_mask 1 v,
        bit-flag_lem k (v % 2) j hk hj (omega arith),
      )
      (ground (arith, bit-le j reg))

-- The two-bit field at bit 16: `reg &= ~(3 << 16); reg |= (v & 3) << 16`.
clear_pair_table :
    all_below 32 (λ j. bit j (2 ^ 32 - 1 - 3 * 2 ^ 16) == (if j == 16 || j == 17 then 0 else 1))
    ≡ true
unfolding all_below bit
clear_pair_table = refl

pair_table :
    all_below 4 (λ v.
      all_below 32
        (λ j. bit j (v * 2 ^ 16) == (if j == 16 then bit 0 v else if j == 17 then bit 1 v else 0)))
    ≡ true
unfolding all_below bit
pair_table = refl

pub bit-put_pair :
    (v reg j : ℕ)
    → j < 32
    → bit j (bit_or (bit_and reg (2 ^ 32 - 1 - 3 * 2 ^ 16)) (bit_and v 3 * 2 ^ 16))
      ≡ (if j == 16 then bit 0 (v % 4) else if j == 17 then bit 1 (v % 4) else bit j reg)
bit-put_pair v reg j hj =
    let cleared = (==_iff _ _).0 (all_below_sound 32 _ j clear_pair_table hj) in
    let row = all_below_sound 4 _ (v % 4) pair_table (omega arith) in
    let field = (==_iff _ _).0 (all_below_sound 32 _ j row hj) in
    rw (bit-or, bit-and, cleared, bit_and_mask 2 v, field)
      (ground (arith, bit-le j reg, bit-le 0 (v % 4), bit-le 1 (v % 4)))
