-- ===== src/Bar/Bounds.antt =====
-- The guards of src/bar_impl_hw.cpp, and the pages that it flushes.
use alice_hlt_librorc.Base.{
  ℕ, ◌+◌, ◌-◌, ◌*◌, ◌/◌, ◌%◌, ◌^◌, ◌<◌, ◌≤◌, ◌≡◌, refl, true, ltb, if◌then◌else◌, arith, u16, u32,
  u64,
}
use alice_hlt_librorc.Base.Bits.{bit_and_mask, bit_and_shifted}
use alice_hlt_librorc.Bar.{Mapped, page_of, hw_get32, hw_set32, hw_get16, hw_set16}

-- Two boards that do the same on every word that lies inside `size` bytes.
pub record Agree {W : Type 0} (size : ℕ) (m m' : Mapped W) : Type 0 where
  pub load32 : (a : ℕ) (w : W) → 4 * a + 4 ≤ size → m.load32 a w ≡ m'.load32 a w
  pub store32 : (a v : ℕ) (w : W) → 4 * a + 4 ≤ size → m.store32 a v w ≡ m'.store32 a v w
  pub load16 : (a : ℕ) (w : W) → 2 * a + 2 ≤ size → m.load16 a w ≡ m'.load16 a w
  pub store16 : (a v : ℕ) (w : W) → 2 * a + 2 ≤ size → m.store16 a v w ≡ m'.store16 a v w

page_of_lem : (b : ℕ) → b < 2 ^ 64 → page_of 4096 b ≡ b - b % 4096
unfolding page_of
page_of_lem b small =
    rw (bit_and_shifted 12 b (2 ^ 52 - 1), bit_and_mask 52 (b / 2 ^ 12)) (omega arith)

-- Pages have 4096 bytes. For a size that is a multiple of 4 and addresses whose byte address fits 64
-- bits, `get32`, `set32`, `get16` and `set16` load and store no word outside the mapped memory. After
-- a store, `set32` flushes the page at 4 times the byte offset of the page of the word, and `set16`
-- the one at 2 times that offset.
pub bar_impl_hw-Agree :
    {W : Type 0} (size : ℕ) (m m' : Mapped W) (a v : ℕ) (w : W)
    → Agree size m m'
    → size % 4 ≡ 0
    → a < 2 ^ 62
    → (hw_get32 m size 4096 a w ≡ hw_get32 m' size 4096 a w)
      × (hw_get16 m size 4096 a w ≡ hw_get16 m' size 4096 a w)
      × (hw_set32 m size 4096 a v w ≡ (
        tt,
        if ltb (4 * a) size
            then m.sync (4 * (4 * a - 4 * a % 4096)) (m'.store32 a (v % 2 ^ 32) w)
            else w,
      ))
      × (hw_set16 m size 4096 a v w ≡ (
        tt,
        if ltb (2 * a) size
            then m.sync (2 * (2 * a - 2 * a % 4096)) (m'.store16 a (v % 2 ^ 16) w)
            else w,
      ))
unfolding hw_get32 hw_set32 hw_get16 hw_set16
bar_impl_hw-Agree size m m' a v w same whole small =
    let byte32 : u64 (a * 2 ^ 2) ≡ 4 * a = omega arith in
    let byte16 : u64 (a * 2 ^ 1) ≡ 2 * a = omega arith in
    (
      ground (arith, same.load32 a w),
      ground (arith, same.load16 a w),
      rw (byte32, page_of_lem (4 * a) (omega arith)) (ground (arith, same.store32 a (u32 v) w)),
      rw (byte16, page_of_lem (2 * a) (omega arith)) (ground (arith, same.store16 a (u16 v) w)),
    )

-- Pages have 4096 bytes. The flush leaves the mapping for words inside it: where word `a` is past
-- the first quarter of the mapped memory by a page, `set32` flushes a page that starts at or after
-- the end, and so does `set16` where word `b` is past the first half by a page.
pub hw_set32_outside :
    {W : Type 0} (m : Mapped W) (size a b v : ℕ) (w : W)
    → size < 2 ^ 63
    → 4 * a < size
    → size + 4 * 4096 ≤ 4 * (4 * a)
    → 2 * b < size
    → size + 2 * 4096 ≤ 2 * (2 * b)
    → ((page : ℕ) × (size ≤ page)
        × (hw_set32 m size 4096 a v w ≡ (tt, m.sync page (m.store32 a (v % 2 ^ 32) w))))
      × ((page : ℕ) × (size ≤ page)
          × (hw_set16 m size 4096 b v w ≡ (tt, m.sync page (m.store16 b (v % 2 ^ 16) w))))
unfolding hw_set32 hw_set16
hw_set32_outside m size a b v w small inside_a late_a inside_b late_b =
    let byte32 : u64 (a * 2 ^ 2) ≡ 4 * a = omega arith in
    let byte16 : u64 (b * 2 ^ 1) ≡ 2 * b = omega arith in
    let known32 : ltb (4 * a) size ≡ true = ground arith in
    let known16 : ltb (2 * b) size ≡ true = ground arith in
    (
      (
        4 * (4 * a - 4 * a % 4096),
        omega arith,
        rw (byte32, known32, page_of_lem (4 * a) (omega arith)) refl,
      ),
      (
        2 * (2 * b - 2 * b % 4096),
        omega arith,
        rw (byte16, known16, page_of_lem (2 * b) (omega arith)) refl,
      ),
    )
