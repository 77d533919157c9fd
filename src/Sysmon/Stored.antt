-- ===== src/Sysmon/Stored.antt =====
-- `ddr3DataReplayEventToRam` on a board that writes the blocks to its memory.
use alice_hlt_librorc.Base.{
  ℕ, zero, suc, ◌+◌, ◌-◌, ◌*◌, ◌/◌, ◌%◌, ◌^◌, ◌≤◌, ◌<◌, ◌≡◌, refl, ◌∙◌, arith, Bool, true, false,
  ◌==◌, leb, ltb, if◌then◌else◌, ◌&&◌, List, get_or, bit_and, bit_or, u16, u32,
}
use alice_hlt_librorc.Base.Bits.{bit_and_mask, bit_and_shifted, bit_or_fields}
use alice_hlt_librorc.Base.Fallible.{returned}
use alice_hlt_librorc.Bar.{Bar}
use alice_hlt_librorc.Registers.{rorc_reg_data_replay_ctrl, rorc_reg_data_replay_payload_base}
use alice_hlt_librorc.Sysmon.Replay.{
  controller_select, last_flags, done_loop, write_block, ddr3_data_replay_block_to_ram, event_loop,
  ddr3_data_replay_event_to_ram,
}
use alice_hlt_librorc.Sysmon.Events.{event_block, block_buffer-event_block, event_block-suc}

select_small : (c : ℕ) → c < 2 → 1 * 2 ^ c < 2 ^ 2
select_small zero lt = omega arith
select_small (suc zero) lt = omega arith
select_small (suc (suc c)) lt = absurd (omega arith)

module _ {W : Type 0} (bar : Bar W) where
  -- Reads 0 to k - 1 of the status find the write of controller `c` pending, and read `k` finds it
  -- done.
  abbrev pub Done : ℕ → ℕ → W → W → Type 0
  Done c zero w w' =
      let (status, after) = bar.get32 rorc_reg_data_replay_ctrl w in
      ((bit_and status (1 * 2 ^ c) == 0) ≡ false) × (after ≡ w')
  Done c (suc k) w w' =
      let (status, after) = bar.get32 rorc_reg_data_replay_ctrl w in
      ((bit_and status (1 * 2 ^ c) == 0) ≡ true) × Done c k (bar.usleep 100 after).1 w'

  done_loop-Done :
      (c timeout k : ℕ) (w w' : W)
      → Done c k w w'
      → k ≤ timeout
      → done_loop bar (1 * 2 ^ c) timeout w ≡ (returned tt, w')
  unfolding done_loop
  done_loop-Done c zero zero w w' h le = rw (done_loop, h.0, h.1) refl
  done_loop-Done c zero (suc k) w w' h le = absurd (omega arith)
  done_loop-Done c (suc timeout) zero w w' h le = rw (done_loop, h.0, h.1) refl
  done_loop-Done c (suc timeout) (suc k) w w' h le =
      let next = (bar.usleep 100 (bar.get32 rorc_reg_data_replay_ctrl w).1).1 in
      rw (done_loop, h.0) (done_loop-Done c timeout k next w' h.1 (omega arith))

  -- The board after the copy of a block and the command to write it.
  abbrev pub commanded : List ℕ → ℕ → ℕ → W → W
  commanded words c a w =
      let (_, copied) = bar.memcopy rorc_reg_data_replay_payload_base words w in
      (bar.set32 rorc_reg_data_replay_ctrl (a + 2 ^ c) copied).1

  -- A board that writes the copied block to address `a` of the memory of controller `c`, within the
  -- timeout; `block` is what is stored there.
  pub record ReplayPort (block : ℕ → ℕ → W → List ℕ) : Type 0 where
    pub stores :
        (words : List ℕ) (c a : ℕ) (w : W)
        → c < 2
        → a % 8 ≡ 0
        → a < 2 ^ 31
        → (k : ℕ) × (w' : W) × Done c k (commanded words c a w) w'
          × (k ≤ 10000)
          × ((c' a' : ℕ) → block c' a' w' ≡ (if c' == c && a' == a then words else block c' a' w))

  controller-lt : (channel : ℕ) → controller_select channel < 2
  unfolding controller_select
  controller-lt channel = ground arith

  -- The command with the controller in its low bits.
  command_lem :
      (c a : ℕ)
      → c < 2
      → a % 8 ≡ 0
      → a < 2 ^ 31
      → bit_or (bit_and a 0x7fff_fffc) (1 * 2 ^ c) ≡ a + 2 ^ c
  command_lem c a lt aligned fits =
      let low : 1 * 2 ^ c < 2 ^ 2 = select_small c lt in
      let masked : bit_and a ((2 ^ 29 - 1) * 2 ^ 2) ≡ a / 2 ^ 2 * 2 ^ 2 =
        rw (bit_and_shifted 2 a (2 ^ 29 - 1), bit_and_mask 29 (a / 2 ^ 2)) (omega arith) in
      rw (masked, bit_or_fields 2 (a / 2 ^ 2) (1 * 2 ^ c) low) (omega arith)

  module _ (block : ℕ → ℕ → W → List ℕ) (port : ReplayPort block) where
    write_block-stored :
        (words : List ℕ) (channel a : ℕ) (w : W)
        → a % 8 ≡ 0
        → a < 2 ^ 31
        → (w' : W) × (write_block bar a words channel w ≡ (returned tt, w'))
          × ((c' a' : ℕ)
              → block c' a' w'
                ≡ (if c' == controller_select channel && a' == a then words else block c' a' w))
    unfolding write_block
    write_block-stored words channel a w aligned fits =
        let c = controller_select channel in
        let lt = controller-lt channel in
        let (k, w', settles, soon, set) = port.stores words c a w lt aligned fits in
        let loop = done_loop-Done c 10000 k (commanded words c a w) w' settles soon in
        (w', rw (command_lem c a lt aligned fits, loop) refl, set)

    -- The blocks of an event of `n` words, which starts at block address `addr`: block `i` is in the
    -- memory of the channel's controller, and no other block has changed.
    pub record Stored (stale words : ℕ → ℕ) (n addr channel : ℕ) (last_event diu_error : Bool)
        (w w' : W) : Type 0 where
      pub blocks :
          (i : ℕ)
          → i < (n + 14) / 15
          → block (controller_select channel) (addr + 8 * i) w'
            ≡ event_block stale words n channel last_event diu_error i
      pub others :
          (c a : ℕ)
          → ((i : ℕ)
              → i < (n + 14) / 15
              → (c == controller_select channel && a == addr + 8 * i) ≡ false)
          → block c a w' ≡ block c a w

    -- A first block, and the rest 8 addresses on.
    module _ (stale words : ℕ → ℕ) (n addr channel : ℕ) (last_event diu_error : Bool) (w w1 w' : W)
        (first : (c' a' : ℕ)
          → block c' a' w1 ≡ (
              if c' == controller_select channel && a' == addr
              then event_block stale words (suc n) channel last_event diu_error 0
              else block c' a' w))
        (rest : Stored stale
          (λ j. words (j + 15))
          (suc n - 15)
          (addr + 8)
          channel
          last_event
          diu_error
          w1
          w') where
      first_blocks :
          (i : ℕ)
          → i < (suc n + 14) / 15
          → block (controller_select channel) (addr + 8 * i) w'
            ≡ event_block stale words (suc n) channel last_event diu_error i
      first_blocks zero lt =
          let c = controller_select channel in
          let here : addr + 8 * 0 ≡ addr = omega arith in
          let hit : (c == c && addr == addr) ≡ true = ground arith in
          let apart : (i : ℕ) → (c == c && addr == addr + 8 + 8 * i) ≡ false = λ i. ground arith in
          rw here (rest.others c addr (λ j below. apart j) ∙ (rw hit at (first c addr)))
      first_blocks (suc j) lt =
          let up : addr + 8 * suc j ≡ addr + 8 + 8 * j = omega arith in
          rw up (
            rest.blocks j (omega arith)
            ∙ event_block-suc stale words (suc n) channel last_event diu_error j)

      Stored-first : Stored stale words (suc n) addr channel last_event diu_error w w'
      Stored-first =
          let up : (i : ℕ) → addr + 8 * suc i ≡ addr + 8 + 8 * i = λ i. omega arith in
          let here : addr + 8 * 0 ≡ addr = omega arith in
          record {
            blocks = first_blocks;
            others = λ c' a' outside.
                let miss : (c' == controller_select channel && a' == addr) ≡ false =
                  rw here at (outside 0 (omega arith)) in
                rest.others c' a' (λ i lt. rw (up i) at (outside (suc i) (omega arith)))
                ∙ (rw miss at (first c' a'));
          }

    -- A round of the loop with `n` words left.
    block_to_ram-stored :
        (stale words : ℕ → ℕ) (n channel a : ℕ) (last_event diu_error : Bool) (w : W)
        → channel < 12
        → a % 8 ≡ 0
        → a < 2 ^ 31
        → let is_last = leb n 15 in
          (w' : W) × (ddr3_data_replay_block_to_ram bar stale a words
              (if is_last then u16 (2 ^ n - 1) else 0x7fff)
              channel
              (if is_last then last_flags last_event diu_error else 0)
              w
            ≡ (returned tt, w'))
          × ((c' a' : ℕ)
              → block c' a' w' ≡ (
                  if c' == controller_select channel && a' == a
                  then event_block stale words n channel last_event diu_error 0
                  else block c' a' w))
    unfolding ddr3_data_replay_block_to_ram
    block_to_ram-stored stale words n channel a last_event diu_error w valid aligned fits =
        let buffer = event_block stale words n channel last_event diu_error 0 in
        let (w', e, set) = write_block-stored buffer channel a w aligned fits in
        let known : ltb 11 channel ≡ false = ground arith in
        let filled = block_buffer-event_block stale words n channel last_event diu_error in
        (w', rw (known, filled, e) refl, set)

    event_loop-zero :
        (stale words : ℕ → ℕ) (addr channel : ℕ) (last_event diu_error : Bool) (fuel : ℕ) (w : W)
        → event_loop bar stale fuel words 0 addr channel last_event diu_error w ≡ (returned addr, w)
    unfolding event_loop
    event_loop-zero stale words addr channel last_event diu_error zero w = refl
    event_loop-zero stale words addr channel last_event diu_error (suc fuel) w = refl

    event_loop-Stored :
        (stale : ℕ → ℕ) (channel : ℕ) (last_event diu_error : Bool)
        → channel < 12
        → (fuel : ℕ) (words : ℕ → ℕ) (n addr : ℕ) (w : W) → n ≤ fuel
        → addr % 8 ≡ 0
        → addr + 8 * ((n + 14) / 15) < 2 ^ 31
        → (w' : W) × (event_loop bar stale fuel words n addr channel last_event diu_error w
            ≡ (returned (addr + 8 * ((n + 14) / 15)), w'))
          × Stored stale words n addr channel last_event diu_error w w'
    unfolding event_loop
    event_loop-Stored stale channel last_event diu_error valid fuel words zero addr w le aligned
          fits =
        let same : addr + 8 * 0 ≡ addr = omega arith in
        let none : Stored stale words zero addr channel last_event diu_error w w = record {
          blocks = λ i lt. absurd (omega arith);
          others = λ c a outside. refl;
        } in
        (w, rw same (event_loop-zero stale words addr channel last_event diu_error fuel w), none)
    event_loop-Stored stale channel last_event diu_error valid zero words (suc n) addr w le aligned
          fits =
        absurd (omega arith)
    event_loop-Stored stale channel last_event diu_error valid (suc fuel) words (suc n) addr w le
          aligned fits =
        let (w1, e1, first) =
          block_to_ram-stored stale words (suc n) channel addr last_event diu_error w valid aligned
            (omega arith) in
        let (w', e, rest) =
          event_loop-Stored stale channel last_event diu_error valid fuel (λ j. words (j + 15))
            (suc n - 15) (addr + 8) w1 (omega arith) (omega arith) (omega arith) in
        let some_words : (suc n == 0) ≡ false = ground arith in
        let left : (if ltb (suc n) 15 then 0 else suc n - 15) ≡ suc n - 15 = ground arith in
        let next : u32 (addr + 8) ≡ addr + 8 = omega arith in
        let total : addr + 8 + 8 * ((suc n - 15 + 14) / 15) ≡ addr + 8 * ((suc n + 14) / 15) =
          omega arith in
        (
          w',
          rw (some_words, e1, e1, left, next, e, total) refl,
          Stored-first stale words n addr channel last_event diu_error w w1 w' first rest,
        )

    -- On a board that writes the blocks, `ddr3DataReplayEventToRam` of an event of `n` words to an
    -- aligned address of a channel below 12, the limit that the code tests (include/librorc/sysmon.hh
    -- documents 0 to 7), returns the address after its blocks, 8 for every 15 words or fewer. It
    -- leaves the words in them, in order, with the flags in the last header, and changes no other
    -- block.
    pub ddr3_data_replay_event_to_ram-Stored :
        (stale : ℕ → ℕ) (event_data : List ℕ) (n addr channel : ℕ) (last_event diu_error : Bool)
        (w : W)
        → channel < 12
        → addr % 8 ≡ 0
        → addr + 8 * ((n + 14) / 15) < 2 ^ 31
        → (w' : W) × (ddr3_data_replay_event_to_ram bar stale event_data n addr channel last_event
              diu_error w
            ≡ (returned (addr + 8 * ((n + 14) / 15)), w'))
          × Stored stale (λ i. get_or event_data i 0) n addr channel last_event diu_error w w'
    unfolding ddr3_data_replay_event_to_ram
    ddr3_data_replay_event_to_ram-Stored stale event_data n addr channel last_event diu_error w
          valid aligned fits =
        event_loop-Stored stale channel last_event diu_error valid n (λ i. get_or event_data i 0) n
          addr w (omega arith) aligned fits
