-- ===== src/Flash/Program.antt =====
-- `programBuffer`, `flashWrite` and `findFpgaSyncWord` of src/flash.cpp: the contents of a
-- chip.
use alice_hlt_librorc.Base.{
  ℕ, zero, suc, ◌+◌, ◌-◌, ◌*◌, ◌/◌, ◌^◌, ◌==◌, Bool, true, false, ◌&&◌, not, List, [], ◌∷◌, Option,
  none, some, ltb, leb, if◌then◌else◌, length, u16, u32, u64, sub32, ◌<<<◌, ◌>>>◌,
}
use alice_hlt_librorc.Base.Int.{ℤ, pos, negsuc, neg, is_negative, is_zero}
use alice_hlt_librorc.Base.State.{State, ◌>>=◌, ◌>>◌, pure}
use alice_hlt_librorc.Bar.{Bar}
use alice_hlt_librorc.Flash.{
  Flash, cmd_buffer_prog, cmd_confirm, cfg_flash_timeout, flash_pec_busy, is_busy, send_command,
  get, reset_block, get_block_lock_configuration, wait_loop, unless_timeout, unlock_block,
}
use alice_hlt_librorc.Flash.Layout.{get_flash_architecture}
use alice_hlt_librorc.Flash.Chip.{erase}

abbrev pub flash_file_size : ℕ
flash_file_size = 16777216

abbrev pub fpga_syncword : ℕ
fpga_syncword = 0x5599aa66

-- What a read of 64 bytes from the file of `flashWrite` returns: its words (a last odd byte is not
-- looked at), or -1.
pub data ReadResult : Type 0 where
  words_read : List ℕ → ReadResult
  read_failed : ReadResult

-- What `flashWrite` finds of its file: the size, if there is such a file, whether it can be opened,
-- and the reads up to the one that returns 0.
pub record FlashFile : Type 0 where
  pub size : Option ℕ
  pub opens : Bool
  pub chunks : List ReadResult

-- A 32-bit word as a signed one.
abbrev pub to_int32 : ℕ → ℤ
to_int32 n = if ltb n (2 ^ 31) then pos n else negsuc (2 ^ 32 - 1 - n)

-- The test of the loop of `findFpgaSyncWord`.
abbrev pub searching : ℕ → ℕ → ℕ → Bool
searching cur_word offset end = not (cur_word == fpga_syncword) && ltb offset end

module _ {W : Type 0} (bar : Bar W) (f : Flash) where
  -- The words of the buffer, from the address `m_base_addr + addr + i` on.
  unfoldable pub write_words : ℕ → ℕ → List ℕ → State W (Unit {0})
  write_words addr i [] = pure tt
  write_words addr i (word ∷ words) = do
    bar.set16 (u32 (f.base_addr + addr + i)) word
    write_words addr (suc i) words

  -- `programBuffer` once the block is unlocked.
  unfoldable pub program_words : ℕ → ℕ → List ℕ → State W ℤ
  program_words blkaddr addr words = do
    send_command bar f addr cmd_buffer_prog
    status ← get bar f addr
    result ← wait_loop bar f is_busy (get bar f addr) cfg_flash_timeout status
    unless_timeout bar f result (λ _. do
      bar.set16 (u32 (f.base_addr + addr)) (u16 (length words + 2 ^ 16 - 1))
      write_words addr 0 words
      send_command bar f blkaddr cmd_confirm
      status' ← get bar f blkaddr
      result' ← wait_loop bar f is_busy (get bar f blkaddr) cfg_flash_timeout status'
      unless_timeout bar f result' (λ last.
          if last == flash_pec_busy
          then (do _ ← reset_block bar f blkaddr; pure (pos 0))
          else pure (neg last)))

  -- The test of the lock: 0, or the negative result of `unlockBlock`.
  unfoldable pub unlock_if_locked : ℕ → State W ℤ
  unlock_if_locked blkaddr = do
    locked ← get_block_lock_configuration bar f blkaddr
    if locked == 0 then pure (pos 0) else unlock_block bar f blkaddr

  unfoldable pub program_buffer : ℕ → List ℕ → State W ℤ
  program_buffer addr words = elim (get_flash_architecture addr) [
    | none ↦ pure (negsuc 0)
    | some arch ↦ do
      unlocked ← unlock_if_locked arch.blkaddr
      if is_negative unlocked then pure unlocked else program_words arch.blkaddr addr words
  ]

  -- The loop that reads back what was written, to the first difference.
  unfoldable pub verify : ℕ → List ℕ → State W (Unit {0})
  verify addr [] w = (tt, w)
  verify addr (word ∷ words) w =
      let (status, w') = get bar f (u32 addr) w in
      elim (status == word) [ true ↦ verify (addr + 1) words w' | false ↦ (tt, w') ]

  -- The loop of `flashWrite`, and the result after it. `none` is undefined: the -1 of a failed read,
  -- in a `size_t`, passes the test of the loop, and words after the end of the buffer are programmed.
  unfoldable pub write_chunks : ℕ → List ReadResult → State W (Option ℤ)
  write_chunks addr [] w = (some (pos 0), w)
  write_chunks addr (read_failed ∷ chunks) w = (none, w)
  write_chunks addr (words_read words ∷ chunks) w =
      let (ret, w') = program_buffer (u32 addr) words w in
      elim (is_negative ret) [
        | true ↦ (some (pos 0), w')
        | false ↦
            let (_, w'') = verify addr words w' in
            write_chunks (u64 (addr + length words)) chunks w''
      ]

  -- `flashWrite` of an open file of a fitting size; `none` as in `erase` and `write_chunks`.
  unfoldable pub write_file : ℕ → List ReadResult → State W (Option ℤ)
  write_file size chunks w =
      let (erased, w') = erase bar f size w in
      elim erased [
        | none ↦ (none, w')
        | some status ↦ if is_zero status then write_chunks 0 chunks w' else (some (negsuc 0), w')
      ]

  unfoldable pub flash_write : FlashFile → State W (Option ℤ)
  flash_write file w = elim file.size [
    | none ↦ (some (negsuc 0), w)
    | some size ↦
        if leb size flash_file_size && file.opens
        then write_file size file.chunks w
        else (some (negsuc 0), w)
  ]

  -- The loop of `findFpgaSyncWord`: the last word and the offset after it.
  unfoldable pub find_loop : ℕ → ℕ → ℕ → ℕ → State W (Option (ℕ × ℕ))
  find_loop zero cur_word offset end w =
      if searching cur_word offset end then (none, w) else (some (cur_word, offset), w)
  find_loop (suc fuel) cur_word offset end w = elim (searching cur_word offset end) [
    | false ↦ (some (cur_word, offset), w)
    | true ↦
        let (word, w') = get bar f (offset >>> 1) w in
        find_loop fuel (u32 ((cur_word <<< 16) + word)) (u32 (offset + 2)) end w'
  ]

  -- A round takes two bytes.
  unfoldable pub find_fpga_sync_word : ℕ → ℕ → State W (Option ℤ)
  find_fpga_sync_word start_offset search_length w =
      let end_offset = u32 (start_offset + search_length / 2 * 2) in
      let (found, w') = find_loop (search_length / 2 + 1) 0 (start_offset / 2 * 2) end_offset w in
      elim found [
        | none ↦ (none, w')
        | some (cur_word, offset) ↦
            (some (if cur_word == fpga_syncword then to_int32 (sub32 offset 2) else negsuc 0), w')
      ]
