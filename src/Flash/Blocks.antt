-- ===== src/Flash/Blocks.antt =====
-- `resetChip` and `erase` against the list of the blocks of the chip.
use alice_hlt_librorc.Base.{
  ℕ, zero, suc, ◌+◌, ◌-◌, ◌*◌, ◌/◌, ◌<◌, ◌≤◌, ◌≡◌, refl, true, false, none, some, arith, leb,
  if◌then◌else◌, u32, ◌>>>◌, Bool-cases, inl, inr, ap, ◌∙◌,
}
use alice_hlt_librorc.Base.Int.{ℤ, pos, is_negative}
use alice_hlt_librorc.Base.State.{State}
use alice_hlt_librorc.Bar.{Bar}
use alice_hlt_librorc.Flash.{Flash, is_busy, reset_block}
use alice_hlt_librorc.Flash.Layout.{
  FlashArchitecture, get_flash_architecture, block_address, block_size, block_index,
  get_flash_architecture-Describes,
}
use alice_hlt_librorc.Flash.Chip.{reset_loop, reset_chip, erase_one, erase_loop, erase}

-- How many blocks from the bottom hold a number of bytes.
abbrev pub blocks_for : ℕ → ℕ
blocks_for bytes =
    if leb bytes (127 * 0x20000)
    then (bytes + 0x1ffff) / 0x20000
    else 127 + (bytes - 127 * 0x20000 + 0x7fff) / 0x8000

module _ {W : Type 0} (bar : Bar W) (f : Flash) where
  -- Blocks `i` to `i + n - 1` reset one after another, until one is busy.
  abbrev pub reset_blocks : ℕ → ℕ → State W ℕ
  reset_blocks zero i w = (0, w)
  reset_blocks (suc n) i w =
      let (status, w') = reset_block bar f (block_address i) w in
      elim (is_busy status) [ true ↦ (status, w') | false ↦ reset_blocks n (suc i) w' ]

  -- Blocks `i` to `i + n - 1` erased one after another, until one fails.
  abbrev pub erase_blocks : ℕ → ℕ → State W ℤ
  erase_blocks zero i w = (pos 0, w)
  erase_blocks (suc n) i w =
      let (status, w') = erase_one bar f (block_address i) w in
      elim (is_negative status) [ true ↦ (status, w') | false ↦ erase_blocks n (suc i) w' ]

  architecture_at :
      (i : ℕ)
      → i < 131
      → (arch : FlashArchitecture) × (get_flash_architecture (block_address i) ≡ some arch)
        × (arch.blkaddr ≡ block_address i)
        × (u32 (block_address i + (arch.blksize >>> 1)) ≡ block_address (suc i))
        × (arch.blksize ≡ block_size i)
  architecture_at i h =
      let index : block_index (block_address i) ≡ i = ground arith in
      let (arch, e, d) = get_flash_architecture-Describes (block_address i) (ground arith) in
      let start : arch.blkaddr ≡ block_address i = ground (arith, d.start, index) in
      let size : arch.blksize ≡ block_size i = ground (arith, d.size, index) in
      (arch, e, start, ground (arith, size), size)

  no_architecture : get_flash_architecture (block_address 131) ≡ none
  unfolding get_flash_architecture
  no_architecture = refl

  reset_loop-suc :
      (fuel blkaddr next : ℕ) (w : W) {arch : FlashArchitecture}
      → get_flash_architecture blkaddr ≡ some arch
      → u32 (blkaddr + (arch.blksize >>> 1)) ≡ next
      → let (status, w') = reset_block bar f blkaddr w in
        reset_loop bar f (suc fuel) blkaddr w ≡ (elim (is_busy status) [
          | true ↦ (some status, w')
          | false ↦ reset_loop bar f fuel next w'
        ])
  unfolding reset_loop
  reset_loop-suc fuel blkaddr next w e n = ground (arith, e, n)

  reset_loop_end :
      (fuel blkaddr : ℕ) (w : W)
      → get_flash_architecture blkaddr ≡ none
      → reset_loop bar f (suc fuel) blkaddr w ≡ (some 0, w)
  unfolding reset_loop
  reset_loop_end fuel blkaddr w e = rw (reset_loop, e)

  reset_loop_lem :
      (fuel n i : ℕ) (w : W)
      → i + n ≡ 131
      → n < fuel
      → let (status, w') = reset_blocks n i w in
        reset_loop bar f fuel (block_address i) w ≡ (some status, w')
  reset_loop_lem zero n i w e h = absurd (omega arith)
  reset_loop_lem (suc fuel) zero i w e h =
      let last : i ≡ 131 = omega arith in
      rw last (reset_loop_end fuel (block_address 131) w no_architecture)
  reset_loop_lem (suc fuel) (suc n) i w e h =
      let (status, w') = reset_block bar f (block_address i) w in
      let (arch, found, start, next, size) = architecture_at i (omega arith) in
      let step =
        reset_loop-suc fuel (block_address i) (block_address (suc i)) w {arch = arch} found next in
      elim (Bool-cases (is_busy status)) [
        | inl busy ↦ rw (step, reset_blocks, busy)
        | inr done ↦
            rw (step, reset_blocks, done)
              (reset_loop_lem fuel n (suc i) w' (omega arith) (omega arith))
      ]

  -- `resetChip` ends. It resets the 131 blocks of the chip from the bottom, each once, and returns
  -- 0, or stops at the first block that is busy and returns its status.
  pub reset_chip-reset_blocks :
      (w : W) → let (status, w') = reset_blocks 131 0 w in reset_chip bar f w ≡ (some status, w')
  unfolding reset_chip
  reset_chip-reset_blocks w = reset_loop_lem 132 131 0 w (omega arith) (omega arith)

  erase_loop-suc :
      (fuel m current start next : ℕ) (w : W) {arch : FlashArchitecture}
      → get_flash_architecture current ≡ some arch
      → arch.blkaddr ≡ start
      → u32 (current + (arch.blksize >>> 1)) ≡ next
      → let (status, w') = erase_one bar f start w in
        erase_loop bar f (suc fuel) (suc m) current w ≡ (elim (is_negative status) [
          | true ↦ (some status, w')
          | false ↦ erase_loop bar f fuel (suc m - arch.blksize) next w'
        ])
  unfolding erase_loop
  erase_loop-suc fuel m current start next w e s n = ground (arith, e, s, n)

  erase_loop_end : (fuel addr : ℕ) (w : W) → erase_loop bar f fuel 0 addr w ≡ (some (pos 0), w)
  unfolding erase_loop
  erase_loop_end fuel addr w = refl

  -- The bytes that are left at block `i`.
  erase_loop_lem :
      (fuel n i bytes : ℕ) (w : W)
      → bytes ≤ 0x1000000
      → i + n ≡ blocks_for bytes
      → n < fuel
      → let (status, w') = erase_blocks n i w in
        erase_loop bar f fuel (bytes - 2 * block_address i) (block_address i) w ≡ (some status, w')
  erase_loop_lem zero n i bytes w le e h = absurd (omega arith)
  erase_loop_lem (suc fuel) zero i bytes w le e h =
      let empty : bytes - 2 * block_address i ≡ 0 = ground arith in
      rw empty (erase_loop_end (suc fuel) (block_address i) w)
  erase_loop_lem (suc fuel) (suc n) i bytes w le e h =
      let (status, w') = erase_one bar f (block_address i) w in
      let more : bytes - 2 * block_address i ≡ suc (bytes - 2 * block_address i - 1) =
        ground arith in
      let (arch, found, start, next, size) = architecture_at i (ground arith) in
      let step =
        erase_loop-suc fuel (bytes - 2 * block_address i - 1) (block_address i) (block_address i)
          (block_address (suc i)) w {arch = arch} found start next in
      let left : suc (bytes - 2 * block_address i - 1) - arch.blksize
          ≡ bytes - 2 * block_address (suc i) =
        ground (arith, size) in
      elim (Bool-cases (is_negative status)) [
        | inl failed ↦ rw (more, step, erase_blocks, failed)
        | inr done ↦
            rw (more, step, erase_blocks, done, left)
              (erase_loop_lem fuel n (suc i) bytes w' le (omega arith) (omega arith))
      ]

  -- For at most the 16 MB of the chip, `erase` ends. It erases the blocks from the bottom that hold
  -- the bytes, each once and no other, and returns 0, or stops at the first block that fails and
  -- returns its result.
  pub erase-erase_blocks :
      (bytes : ℕ) (w : W)
      → bytes ≤ 0x1000000
      → let (status, w') = erase_blocks (blocks_for bytes) 0 w in
        erase bar f bytes w ≡ (some status, w')
  unfolding erase
  erase-erase_blocks bytes w le =
      let all : bytes ≡ bytes - 2 * block_address 0 = omega arith in
      ap (λ left. erase_loop bar f 132 left 0 w) all
      ∙ erase_loop_lem 132 (blocks_for bytes) 0 bytes w le (omega arith) (ground arith)
