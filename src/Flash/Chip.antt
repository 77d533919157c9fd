-- ===== src/Flash/Chip.antt =====
-- `resetChip` and `erase`: the operations that go from block to block.
use native.Mathlib.Decide.{}
use alice_hlt_librorc.Base.{
  ℕ, zero, suc, ◌+◌, ◌-◌, ◌==◌, true, false, Option, none, some, if◌then◌else◌, u32, ◌>>>◌,
}
use alice_hlt_librorc.Base.Int.{ℤ, pos, negsuc, is_negative}
use alice_hlt_librorc.Base.State.{State}
use alice_hlt_librorc.Bar.{Bar}
use alice_hlt_librorc.Flash.{
  Flash, is_busy, reset_block, erase_block, unlock_block, get_block_lock_configuration,
}
use alice_hlt_librorc.Flash.Layout.{get_flash_architecture}

module _ {W : Type 0} (bar : Bar W) (f : Flash) where
  -- The loop of `resetChip`; `none` if the fuel of the model ends first.
  unfoldable pub reset_loop : ℕ → ℕ → State W (Option ℕ)
  reset_loop zero blkaddr w = (none, w)
  reset_loop (suc fuel) blkaddr w = elim (get_flash_architecture blkaddr) [
    | none ↦ (some 0, w)
    | some arch ↦
        let (status, w') = reset_block bar f blkaddr w in
        elim (is_busy status) [
          | true ↦ (some status, w')
          | false ↦ reset_loop fuel (u32 (blkaddr + (arch.blksize >>> 1))) w'
        ]
  ]

  -- One round for each block and one for the end.
  unfoldable pub reset_chip : State W (Option ℕ)
  unfolding reset_loop
  reset_chip = reset_loop 132 0

  -- The body of the loop of `erase`: unlock the block if it is locked, and erase it.
  unfoldable pub erase_one : ℕ → State W ℤ
  erase_one blkaddr w =
      let (locked, w') = get_block_lock_configuration bar f blkaddr w in
      if locked == 0
      then erase_block bar f blkaddr w'
      else (let (status, w'') = unlock_block bar f blkaddr w' in
          if is_negative status then (status, w'') else erase_block bar f blkaddr w'')

  -- The loop of `erase` for the bytes that are left.
  unfoldable pub erase_loop : ℕ → ℕ → ℕ → State W (Option ℤ)
  erase_loop fuel zero current_addr w = (some (pos 0), w)
  erase_loop zero (suc left) current_addr w = (none, w)
  erase_loop (suc fuel) (suc left) current_addr w = elim (get_flash_architecture current_addr) [
    | none ↦ (some (negsuc 0), w)
    | some arch ↦
        let (status, w') = erase_one arch.blkaddr w in
        elim (is_negative status) [
          | true ↦ (some status, w')
          | false ↦
              erase_loop fuel (suc left - arch.blksize) (u32 (current_addr + (arch.blksize >>> 1)))
                w'
        ]
  ]

  -- The byte count is signed in the source; a negative one is as 0.
  unfoldable pub erase : ℕ → State W (Option ℤ)
  unfolding erase_loop
  erase byte_count = erase_loop 132 byte_count 0
