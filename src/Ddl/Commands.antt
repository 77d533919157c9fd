-- ===== src/Ddl/Commands.antt =====
-- How the commands of a DIU end.
use alice_hlt_librorc.Base.{
  ℕ, zero, suc, ◌+◌, ◌≤◌, ◌<◌, ◌≡◌, ◌≢◌, refl, arith, false, ◌==◌, min, if◌then◌else◌, ltb, List,
  [], ◌∷◌, bit_and, u8, ◌>>>◌, ltb,
}
use native.Mathlib.Decide.{dec_lt}
use alice_hlt_librorc.Base.Int.{pos, negsuc, is_negative}
use alice_hlt_librorc.Base.Polling.{FirstAt, wait_until_timeout}
use alice_hlt_librorc.Bar.{Bar}
use alice_hlt_librorc.Link.{Link, ddl_reg}
use alice_hlt_librorc.Ddl.Diu.{
  no_status, link_up, status_loop, wait_for_status_word, wait_for_link_up, toggle_ddl_reset,
  send_siu_reset_cmd, prepare_for_siu_data, read_remote_hw_version, serial_loop, read_remote_serial,
}

module _ {W : Type 0} (bar : Bar W) (l : Link) where
  -- Polls 0 to k - 1 of a register find no status, and poll k finds `status`.
  abbrev pub Answers : ℕ → ℕ → W → ℕ → W → Type 0
  Answers address zero w status w' =
      ((ddl_reg bar l address w).0 ≢ no_status) × (ddl_reg bar l address w ≡ (status, w'))
  Answers address (suc k) w status w' =
      ((ddl_reg bar l address w).0 ≡ no_status)
      × Answers address k (bar.usleep 100 (ddl_reg bar l address w).1).1 status w'

  status_loop-Answers :
      (address timeout k : ℕ) (w : W) (status : ℕ) (w' : W)
      → Answers address k w status w'
      → k ≤ timeout
      → status_loop bar l address timeout w ≡ (status, w')
  unfolding status_loop
  status_loop-Answers address zero zero w status w' h le = h.1
  status_loop-Answers address zero (suc k) w status w' h le = absurd (omega arith)
  status_loop-Answers address (suc timeout) zero w status w' h le = ground (arith, h.0, h.1)
  status_loop-Answers address (suc timeout) (suc k) w status w' h le = ground (
    arith,
    h.0,
    status_loop-Answers address timeout k (bar.usleep 100 (ddl_reg bar l address w).1).1 status w'
        h.1,
  )

  status_loop_silent :
      (address timeout k : ℕ) (w : W) (status : ℕ) (w' : W)
      → Answers address k w status w'
      → timeout < k
      → (status_loop bar l address timeout w).0 ≡ no_status
  unfolding status_loop
  status_loop_silent address timeout zero w status w' h lt = absurd (omega arith)
  status_loop_silent address zero (suc k) w status w' h lt = h.0
  status_loop_silent address (suc timeout) (suc k) w status w' h lt = ground (
    arith,
    h.0,
    status_loop_silent address timeout k (bar.usleep 100 (ddl_reg bar l address w).1).1 status w'
        h.1,
  )

  -- If read `k` of a status register is the first to find a status, `waitForStatusWord` returns it
  -- if `k` is at most 10000, and 0xffffffff otherwise.
  pub wait_for_status_word_lem :
      (address k : ℕ) (w : W) (status : ℕ) (w' : W)
      → Answers address k w status w'
      → (wait_for_status_word bar l address w).0 ≡ (if ltb 10000 k then no_status else status)
  unfolding wait_for_status_word
  wait_for_status_word_lem address k w status w' h = elim (dec_lt 10000 k) [
    | yes late ↦ ground (arith, status_loop_silent address 10000 k w status w' h late)
    | no soon ↦ ground (arith, status_loop-Answers address 10000 k w status w' h)
  ]

  -- If poll `k` is the first to find the link up, `waitForLinkUp` returns 0 if `k` is below 10000,
  -- and -1 otherwise.
  pub wait_for_link_up_lem :
      (k : ℕ) (w w' : W)
      → FirstAt (link_up bar l) (bar.usleep 100) k w w'
      → (wait_for_link_up bar l w).0 ≡ (if ltb k 10000 then pos 0 else negsuc 0)
  unfolding wait_for_link_up
  wait_for_link_up_lem k w w' h =
      rw (wait_until_timeout (link_up bar l) (bar.usleep 100) 10000 k w w' h) (ground arith)

  -- `prepareForSiuData` ignores the answer to the reset command: when the first reset of the link
  -- succeeds, it returns what the second one does, after a command that failed too.
  pub prepare_for_siu_data_ignores :
      (w : W)
      → is_negative (toggle_ddl_reset bar l w).0 ≡ false
      → let sent = (send_siu_reset_cmd bar l (toggle_ddl_reset bar l w).1).1 in
        prepare_for_siu_data bar l w ≡ (
          if is_negative (toggle_ddl_reset bar l sent).0 then negsuc 0 else pos 0,
          (toggle_ddl_reset bar l sent).1,
        )
  unfolding prepare_for_siu_data
  prepare_for_siu_data_ignores w e =
      let toggled = (toggle_ddl_reset bar l w).1 in
      let (status, sent) = send_siu_reset_cmd bar l toggled in
      let (again, last) = toggle_ddl_reset bar l sent in ground (arith, e)

  -- The bytes that the addresses from `a` on answer with.
  abbrev pub bytes_from : (ℕ → ℕ) → ℕ → ℕ → List ℕ
  bytes_from words a zero = []
  bytes_from words a (suc n) = bit_and (words a >>> 20) 0xff ∷ bytes_from words (suc a) n

  serial_loop-bytes :
      (words : ℕ → ℕ) (n a left : ℕ) (w : W)
      → ((i : ℕ) (v : W) → i < a + left → (read_remote_hw_version bar l (u8 i) v).0 ≡ words i)
      → ((i : ℕ) → i < n → words (a + i) ≢ no_status)
      → words (a + n) ≡ no_status
      → (serial_loop bar l a left w).0 ≡ bytes_from words a (min n left)
  unfolding serial_loop
  serial_loop-bytes words n a zero w answers some_word last = ground arith
  serial_loop-bytes words zero a (suc left) w answers some_word last =
      rw (serial_loop, answers a w (omega arith)) (ground (arith, last))
  serial_loop-bytes words (suc n) a (suc left) w answers some_word last =
      let next = (read_remote_hw_version bar l (u8 a) w).1 in
      let moved : (i : ℕ) → suc a + i ≡ a + suc i = λ i. omega arith in
      let here : a + 0 ≡ a = omega arith in
      let present : words a ≢ no_status = rw here at (some_word 0 (omega arith)) in
      let differs : (words a == no_status) ≡ false = ground (arith, present) in
      let shorter : min (suc n) (suc left) ≡ suc (min n left) = omega arith in
      let up : a + 1 ≡ suc a = omega arith in
      let ih =
        serial_loop-bytes words n (suc a) left next (λ i v lt. answers i v (omega arith))
          (λ i lt. rw (moved i) (some_word (suc i) (omega arith))) (rw (moved n) last) in
      rw
        (
          serial_loop,
          answers a w (omega arith),
          differs,
          shorter,
          up,
          ih,
          answers a w (omega arith),
        )
        refl

  -- If the unit answers the addresses below 50 with `words`, the first that has no status is `n`,
  -- then `readRemoteSerial` returns the bytes of the words before it, at most 50.
  pub read_remote_serial-bytes :
      (words : ℕ → ℕ) (n : ℕ) (w : W)
      → ((i : ℕ) (v : W) → i < 50 → (read_remote_hw_version bar l (u8 i) v).0 ≡ words i)
      → ((i : ℕ) → i < n → words i ≢ no_status)
      → words n ≡ no_status
      → (read_remote_serial bar l w).0 ≡ bytes_from words 0 (min n 50)
  unfolding read_remote_serial
  read_remote_serial-bytes words n w answers present last =
      let from : (i : ℕ) → 0 + i ≡ i = λ i. omega arith in
      serial_loop-bytes words n 0 50 w answers (λ i lt. rw (from i) (present i lt))
        (rw (from n) last)
