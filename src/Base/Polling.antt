-- ===== src/Base/Polling.antt =====
-- Loops that poll a status until it is ready, and what it means that it gets ready at a certain
-- poll.
use Prim.Native.Nat.{ℕ, zero, suc, ◌-◌, ◌≤◌, ◌<◌}
use mathlib.Core.Path.{◌≡◌, refl}
use native.Mathlib.Omega.{arith}
use native.Mathlib.Decide.{dec_lt}
use alice_hlt_librorc.Base.Tests.{◌==◌, ltb, if◌then◌else◌}
use mathlib.Core.Bool.{Bool, true, false}
use alice_hlt_librorc.Base.State.{State}

module _ {W : Type 0} (poll : State W Bool) (pause : State W (Unit {0})) where
  -- From `w`, the polls 0 to k - 1 answer false, with a pause after each, and poll k answers true
  -- and leaves `w'`.
  abbrev pub FirstAt : ℕ → W → W → Type 0
  FirstAt zero w w' = poll w ≡ (true, w')
  FirstAt (suc k) w w' = ((poll w).0 ≡ false) × FirstAt k (pause (poll w).1).1 w'

  -- `while (!poll() && timeout) { pause(); timeout--; }`: the timeout that is left.
  unfoldable pub wait_until : ℕ → State W ℕ
  wait_until zero w = (0, (poll w).1)
  wait_until (suc timeout) w =
      let (ready, w') = poll w in
      elim ready [ true ↦ (suc timeout, w') | false ↦ wait_until timeout (pause w').1 ]

  pub wait_until-ready :
      (timeout k : ℕ) (w w' : W)
      → FirstAt k w w'
      → k < timeout
      → wait_until timeout w ≡ (timeout - k, w')
  unfolding wait_until
  wait_until-ready zero k w w' h lt = absurd (omega arith)
  wait_until-ready (suc timeout) zero w w' h lt = ground (arith, h)
  wait_until-ready (suc timeout) (suc k) w w' h lt =
      ground (arith, h.0, wait_until-ready timeout k (pause (poll w).1).1 w' h.1)

  pub wait_until_late :
      (timeout k : ℕ) (w w' : W) → FirstAt k w w' → timeout ≤ k → (wait_until timeout w).0 ≡ 0
  unfolding wait_until
  wait_until_late zero k w w' h le = refl
  wait_until_late (suc timeout) zero w w' h le = absurd (omega arith)
  wait_until_late (suc timeout) (suc k) w w' h le =
      ground (arith, h.0, wait_until_late timeout k (pause (poll w).1).1 w' h.1)

  -- The loop ends before the timeout exactly if the status is ready soon enough.
  pub wait_until_timeout :
      (timeout k : ℕ) (w w' : W)
      → FirstAt k w w'
      → ((wait_until timeout w).0 == 0) ≡ (if ltb k timeout then false else true)
  wait_until_timeout timeout k w w' h = elim (dec_lt k timeout) [
    | yes lt ↦ ground (arith, wait_until-ready timeout k w w' h lt)
    | no ge ↦ ground (arith, wait_until_late timeout k w w' h)
  ]
