-- ===== src/Link/Wait.antt =====
-- `waitForGTXDomain` returns 0 exactly when the domain gets ready soon enough.
use alice_hlt_librorc.Base.{ℕ, zero, suc, ◌-◌, ◌≤◌, ◌≡◌, refl, arith, ltb, if◌then◌else◌}
use native.Mathlib.Decide.{dec_lt}
use alice_hlt_librorc.Base.Int.{pos, negsuc}
use alice_hlt_librorc.Base.Polling.{FirstAt}
use alice_hlt_librorc.Bar.{Bar}
use alice_hlt_librorc.Link.{Link, is_gtx_domain_ready, wait_loop, wait_for_gtx_domain}

module _ {W : Type 0} (bar : Bar W) (l : Link) where
  abbrev pub ReadyAt : ℕ → W → W → Type 0
  ReadyAt = FirstAt (is_gtx_domain_ready bar l) (bar.usleep 100)

  wait_loop-ready :
      (timeout k : ℕ) (w w' : W)
      → ReadyAt k w w'
      → k ≤ timeout
      → let (ready, polled) = is_gtx_domain_ready bar l w in
        wait_loop bar l timeout ready polled ≡ (timeout - k, w')
  unfolding wait_loop
  wait_loop-ready zero zero w w' h le = ground arith
  wait_loop-ready zero (suc k) w w' h le = absurd (omega arith)
  wait_loop-ready (suc timeout) zero w w' h le = ground arith
  wait_loop-ready (suc timeout) (suc k) w w' h le =
      let next = (bar.usleep 100 (is_gtx_domain_ready bar l w).1).1 in
      ground (arith, wait_loop-ready timeout k next w' h.1)

  wait_loop_late :
      (timeout k : ℕ) (w w' : W)
      → ReadyAt k w w'
      → timeout ≤ k
      → let (ready, polled) = is_gtx_domain_ready bar l w in
        (wait_loop bar l timeout ready polled).0 ≡ 0
  unfolding wait_loop
  wait_loop_late zero k w w' h le = refl
  wait_loop_late (suc timeout) zero w w' h le = absurd (omega arith)
  wait_loop_late (suc timeout) (suc k) w w' h le =
      let next = (bar.usleep 100 (is_gtx_domain_ready bar l w).1).1 in
      ground (arith, wait_loop_late timeout k next w' h.1)

  -- If poll `k` is the first to find the domain ready, `waitForGTXDomain` returns 0 if `k` is
  -- below 10000, and -1 otherwise.
  pub wait_for_gtx_domain_lem :
      (k : ℕ) (w w' : W)
      → ReadyAt k w w'
      → (wait_for_gtx_domain bar l w).0 ≡ (if ltb k 10000 then pos 0 else negsuc 0)
  unfolding wait_for_gtx_domain
  wait_for_gtx_domain_lem k w w' h = elim (dec_lt k 10000) [
    | yes lt ↦ ground (arith, wait_loop-ready 10000 k w w' h)
    | no ge ↦ ground (arith, wait_loop_late 10000 k w w' h)
  ]
