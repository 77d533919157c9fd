-- ===== src/Gtx/Init.antt =====
-- How `rxInitialize` ends.
use alice_hlt_librorc.Base.{
  ℕ, zero, suc, ◌+◌, ◌-◌, ◌<◌, ◌≡◌, refl, ap, ◌∙◌, ◌==◌, if◌then◌else◌, some, arith,
}
use alice_hlt_librorc.Base.Int.{pos, negsuc}
use alice_hlt_librorc.Base.Polling.{FirstAt, wait_until-ready}
use alice_hlt_librorc.Bar.{Bar}
use alice_hlt_librorc.Link.{Link}
use alice_hlt_librorc.Gtx.{
  is_link_up, set_rx_reset, rx_attempt, rx_rounds, clear_error_counters, rx_initialize,
}

module _ {W : Type 0} (bar : Bar W) (l : Link) where
  -- `Failed k w w'`: `k` rounds after another run out of their timeout, and leave `w'`.
  pub data Failed : ℕ → W → W → Type 0 where
    untried : {w : W} → Failed zero w w
    retried :
        {k : ℕ} {w w' w'' : W}
        → rx_attempt bar l w ≡ (0, w')
        → Failed k w' w''
        → Failed (suc k) w w''

  -- The board after the reset of the receiver, when the first poll looks for the link.
  abbrev pub restarted : W → W
  restarted w = (set_rx_reset bar l 0 (bar.usleep 100 (set_rx_reset bar l 1 w).1).1).1

  -- One round, by the timeout that it leaves.
  rx_rounds-suc :
      (retries count : ℕ) (w w' : W) (timeout : ℕ)
      → rx_attempt bar l w ≡ (timeout, w')
      → rx_rounds bar l (suc retries) count w
        ≡ (if timeout == 0 then rx_rounds bar l retries (suc count) w' else (some count, w'))
  unfolding rx_rounds
  rx_rounds-suc retries count w w' timeout e =
      ap
        (λ (p : ℕ × W).
          if p.0 == 0 then rx_rounds bar l retries (suc count) p.1 else (some count, p.1))
        e

  rx_rounds-Failed :
      {k : ℕ} {w w' : W} (retries count : ℕ)
      → Failed k w w'
      → rx_rounds bar l (k + retries) count w ≡ rx_rounds bar l retries (count + k) w'
  rx_rounds-Failed retries count untried = ground arith
  rx_rounds-Failed {k = suc k} {w = w} retries count (retried {w' = w'} e rest) =
      let more : suc k + retries ≡ suc (k + retries) = omega arith in
      let counted : count + suc k ≡ suc count + k = omega arith in
      let round = rx_rounds-suc (k + retries) count w w' 0 e in
      rw (more, counted) (round ∙ rx_rounds-Failed retries (suc count) rest)

  rx_attempt-aligned :
      (j : ℕ) (w w' : W)
      → FirstAt (is_link_up bar l) (bar.usleep 100) j (restarted w) w'
      → j < 10000
      → rx_attempt bar l w ≡ (10000 - j, w')
  unfolding rx_attempt
  rx_attempt-aligned j w w' h lt =
      wait_until-ready (is_link_up bar l) (bar.usleep 100) 10000 j (restarted w) w' h lt

  -- If `k` rounds time out, fewer than five, and poll `j` of the next one is the first to find the
  -- link up, with `j` below 10000, `rxInitialize` returns `k` after it has cleared the counters.
  pub rx_initialize-aligned :
      {k : ℕ} {w w' : W} (j : ℕ) (w'' : W)
      → Failed k w w'
      → k < 5
      → FirstAt (is_link_up bar l) (bar.usleep 100) j (restarted w') w''
      → j < 10000
      → rx_initialize bar l w ≡ (pos k, (clear_error_counters bar l w'').1)
  unfolding rx_initialize rx_rounds
  rx_initialize-aligned {k} {w} {w'} j w'' failed lt up soon =
      let tries : k + suc (4 - k) ≡ 5 = omega arith in
      let round =
        rx_rounds-suc (4 - k) k w' w'' (10000 - j) (rx_attempt-aligned j w' w'' up soon) in
      let rounds : rx_rounds bar l (k + suc (4 - k)) 0 w ≡ (some k, w'') =
        rx_rounds-Failed (suc (4 - k)) 0 failed ∙ ground (arith, round) in
      rw (rw tries at rounds) refl

  -- If five rounds time out, `rxInitialize` returns -1, and does not clear the counters.
  pub rx_initialize-Failed : {w w' : W} → Failed 5 w w' → rx_initialize bar l w ≡ (negsuc 0, w')
  unfolding rx_initialize rx_rounds
  rx_initialize-Failed failed = rw (rx_rounds-Failed 0 0 failed) refl
