-- ===== src/Bar.antt =====
-- include/librorc/bar.hh, src/bar.cpp and src/bar_impl_hw.cpp: the memory-mapped registers of a
-- board. Addresses count 32-bit or 16-bit words.
pub mod Bounds
pub mod Memory
pub mod Fields
use alice_hlt_librorc.Base.{
  ℕ, ◌-◌, ◌*◌, ◌^◌, bit_and, List, ltb, if◌then◌else◌, u16, u32, u64, ◌<<<◌,
}
use alice_hlt_librorc.Base.State.{State, act}

-- The operations of `bar` that the other components call, on a board in a state of type `W`.
-- `memcopy` takes the copied bytes as 32-bit words.
pub record Bar (W : Type 0) : Type 0 where
  pub get32 : ℕ → State W ℕ
  pub set32 : ℕ → ℕ → State W (Unit {0})
  pub get16 : ℕ → State W ℕ
  pub set16 : ℕ → ℕ → State W (Unit {0})
  pub memcopy : ℕ → List ℕ → State W (Unit {0})
  -- Not of `bar`: the board while the program is in `usleep`.
  pub usleep : ℕ → State W (Unit {0})

-- The mapped memory itself: what the board does on a load or a store of the processor.
pub record Mapped (W : Type 0) : Type 0 where
  pub load32 : ℕ → W → ℕ × W
  pub store32 : ℕ → ℕ → W → W
  pub load16 : ℕ → W → ℕ × W
  pub store16 : ℕ → ℕ → W → W
  pub copy : ℕ → List ℕ → W → W
  -- `msync` of the page that starts at a byte offset from the start of the mapping.
  pub sync : ℕ → W → W
  pub elapse : ℕ → W → W

-- A byte offset `& PAGE_MASK`.
unfoldable pub page_of : ℕ → ℕ → ℕ
page_of page_size offset = bit_and offset (2 ^ 64 - page_size)

module _ {W : Type 0} (mapped : Mapped W) (size page_size : ℕ) where
  unfoldable pub hw_get32 : ℕ → State W ℕ
  hw_get32 address w =
      if ltb (u64 (address <<< 2)) size then mapped.load32 address w else (2 ^ 32 - 1, w)

  unfoldable pub hw_get16 : ℕ → State W ℕ
  hw_get16 address w =
      if ltb (u64 (address <<< 1)) size then mapped.load16 address w else (0xffff, w)

  -- The offset of the page is added to a pointer to 32-bit words, which counts it four times.
  unfoldable pub hw_set32 : ℕ → ℕ → State W (Unit {0})
  hw_set32 address value w =
      if ltb (u64 (address <<< 2)) size
      then (let stored = mapped.store32 address (u32 value) w in
          (tt, mapped.sync (4 * page_of page_size (u64 (address <<< 2))) stored))
      else (tt, w)

  -- The same with a pointer to 16-bit words.
  unfoldable pub hw_set16 : ℕ → ℕ → State W (Unit {0})
  hw_set16 address value w =
      if ltb (u64 (address <<< 1)) size
      then (let stored = mapped.store16 address (u16 value) w in
          (tt, mapped.sync (2 * page_of page_size (u64 (address <<< 1))) stored))
      else (tt, w)

  -- No test of the target.
  unfoldable pub hw_memcopy : ℕ → List ℕ → State W (Unit {0})
  hw_memcopy target words =
      act (λ w. mapped.sync (page_of page_size (u64 (target <<< 2))) (mapped.copy target words w))

  unfoldable pub bar_impl_hw : Bar W
  unfolding hw_get32 hw_get16 hw_set32 hw_set16 hw_memcopy
  bar_impl_hw = record {
    get32 = hw_get32;
    set32 = hw_set32;
    get16 = hw_get16;
    set16 = hw_set16;
    memcopy = hw_memcopy;
    usleep = λ microseconds. act (mapped.elapse microseconds);
  }
