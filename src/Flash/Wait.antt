-- ===== src/Flash/Wait.antt =====
-- What the operations on a flash block return, by what the chip answers.
use alice_hlt_librorc.Base.{
  ℕ, zero, suc, ◌+◌, ◌<◌, ◌≡◌, refl, Bool, true, false, ◌&&◌, List, [], ◌∷◌, some, arith, leb, u32,
  u64, length, All, Bool-cases, inl, inr,
}
use alice_hlt_librorc.Base.Int.{pos, is_negative}
use alice_hlt_librorc.Base.State.{State}
use alice_hlt_librorc.Bar.{Bar}
use alice_hlt_librorc.Flash.{
  Flash, cmd_block_erase_setup, cmd_block_lock_setup, cmd_confirm, is_busy, is_erasing, ready,
  timed_out, send_command, get, get_status_register, clear_status_register, reset_block, wait_loop,
  unless_timeout, set_lock, erase_block, unlock_block,
}
use alice_hlt_librorc.Flash.Chip.{erase}
use alice_hlt_librorc.Flash.Program.{
  FlashFile, ReadResult, words_read, read_failed, flash_file_size, program_buffer, verify,
  write_chunks, write_file, flash_write,
}

-- A read that has not failed.
abbrev pub IsRead : ReadResult → Type 0
IsRead (words_read words) = Unit {0}
IsRead read_failed = ⊥

module _ {W : Type 0} (bar : Bar W) (f : Flash) where
  -- From a status on, the polls up to number k - 1 find the chip busy, and poll k does not; `w'` is
  -- the board then.
  abbrev pub SettlesAt : (ℕ → Bool) → State W ℕ → ℕ → ℕ × W → W → Type 0
  SettlesAt busy poll zero (status, w) w' = (busy status ≡ false) × (w ≡ w')
  SettlesAt busy poll (suc k) (status, w) w' =
      (busy status ≡ true) × SettlesAt busy poll k (poll (bar.usleep 100 w).1) w'

  wait_loop-ready :
      (busy : ℕ → Bool) (poll : State W ℕ) (timeout k status : ℕ) (w w' : W)
      → SettlesAt busy poll k (status, w) w'
      → k < timeout
      → (s : ℕ) × (wait_loop bar f busy poll timeout status w ≡ (ready s, w'))
  unfolding wait_loop
  wait_loop-ready busy poll zero k status w w' h lt = absurd (omega arith)
  wait_loop-ready busy poll (suc timeout) zero status w w' h lt = (status, ground (arith, h))
  wait_loop-ready busy poll (suc timeout) (suc k) status w w' h lt =
      let (status', next) = poll (bar.usleep 100 w).1 in
      let (s, e) = wait_loop-ready busy poll timeout k status' next w' h.1 (omega arith) in
      (s, ground (arith, h.0, e))

  -- The board after the two commands of `eraseBlock` and the first status, with that status.
  abbrev pub erasing : ℕ → W → ℕ × W
  erasing blkaddr w =
      let (_, w1) = send_command bar f blkaddr cmd_block_erase_setup w in
      let (_, w2) = send_command bar f blkaddr cmd_confirm w1 in get bar f blkaddr w2

  -- If fewer than 65536 polls find the chip busy, `eraseBlock` returns 0 and leaves the block reset.
  pub erase_block_lem :
      (blkaddr k : ℕ) (w w' : W)
      → SettlesAt is_erasing (get bar f blkaddr) k (erasing blkaddr w) w'
      → k < 65536
      → erase_block bar f blkaddr w ≡ (pos 0, (reset_block bar f blkaddr w').1)
  unfolding erase_block unless_timeout reset_block
  erase_block_lem blkaddr k w w' h lt =
      let (status, first) = erasing blkaddr w in
      let (s, e) = wait_loop-ready is_erasing (get bar f blkaddr) 65536 k status first w' h lt in
      rw e

  abbrev pub unlocking : ℕ → W → ℕ × W
  unlocking blkaddr w =
      let (_, w1) = clear_status_register bar f blkaddr w in
      let (_, w2) = send_command bar f blkaddr cmd_block_lock_setup w1 in
      let (_, w3) = send_command bar f blkaddr cmd_confirm w2 in
      get_status_register bar f blkaddr w3

  -- If fewer than 65536 polls find the chip busy, `unlockBlock` returns 0, after it has cleared the
  -- status and reset the block.
  pub unlock_block_lem :
      (blkaddr k : ℕ) (w w' : W)
      → SettlesAt is_busy (get_status_register bar f blkaddr) k (unlocking blkaddr w) w'
      → k < 65536
      → let (_, cleared) = clear_status_register bar f blkaddr w' in
        unlock_block bar f blkaddr w ≡ (pos 0, (reset_block bar f blkaddr cleared).1)
  unfolding unlock_block set_lock reset_block unless_timeout send_command
  unlock_block_lem blkaddr k w w' h lt =
      let (status, first) = unlocking blkaddr w in
      let (s, e) =
        wait_loop-ready is_busy (get_status_register bar f blkaddr) 65536 k status first w' h lt in
      rw e

  wait_loop_silent :
      (busy : ℕ → Bool) (poll : State W ℕ) (timeout status : ℕ) (w : W)
      → busy 0 ≡ true
      → ((v : W) → (poll v).0 ≡ 0)
      → status ≡ 0
      → (wait_loop bar f busy poll timeout status w).0 ≡ timed_out 0
  unfolding wait_loop
  wait_loop_silent busy poll zero status w b silent z = ground (arith, z)
  wait_loop_silent busy poll (suc timeout) status w b silent z =
      let (status', next) = poll (bar.usleep 100 w).1 in
      let again =
        wait_loop_silent busy poll timeout status' next b silent (silent (bar.usleep 100 w).1) in
      rw (wait_loop, z, b) again

  -- If every read of the block gives 0, so that it stays busy to the timeout, `eraseBlock` returns
  -- 0, as on success.
  pub erase_block_silent :
      (blkaddr : ℕ) (w : W)
      → ((v : W) → (get bar f blkaddr v).0 ≡ 0)
      → (erase_block bar f blkaddr w).0 ≡ pos 0
  unfolding erase_block unless_timeout
  erase_block_silent blkaddr w silent =
      let (status, first) = erasing blkaddr w in
      let late =
        wait_loop_silent is_erasing (get bar f blkaddr) 65536 status first refl silent (silent _) in
      rw late

  write_chunks_lem :
      (addr : ℕ) (chunks : List ReadResult) (w : W)
      → All IsRead chunks
      → (write_chunks bar f addr chunks w).0 ≡ some (pos 0)
  unfolding write_chunks
  write_chunks_lem addr [] w h = refl
  write_chunks_lem addr (read_failed ∷ chunks) w h = absurd h.0
  write_chunks_lem addr (words_read words ∷ chunks) w h =
      let (ret, w') = program_buffer bar f (u32 addr) words w in
      let next = (verify bar f addr words w').1 in
      elim (Bool-cases (is_negative ret)) [
        | inl failed ↦ rw (write_chunks, failed)
        | inr fine ↦
            rw (write_chunks, fine) (write_chunks_lem (u64 (addr + length words)) chunks next h.1)
      ]

  -- If no read of the file fails, and the erasure has succeeded, `flashWrite` returns 0, whatever
  -- `programBuffer` answers and the words that are read back from the chip are.
  pub flash_write_erased :
      (file : FlashFile) (size : ℕ) (w : W)
      → file.size ≡ some size
      → (leb size flash_file_size && file.opens) ≡ true
      → All IsRead file.chunks
      → (erase bar f size w).0 ≡ some (pos 0)
      → (flash_write bar f file w).0 ≡ some (pos 0)
  unfolding flash_write write_file
  flash_write_erased file size w e fits read erased =
      ground (arith, e, fits, erased, write_chunks_lem 0 file.chunks (erase bar f size w).1 read)
