-- ===== src/DmaChannel/Control.antt =====
-- The control register of a DMA channel: each setter changes its own bit, and `disable` ends in a
-- reset and reports whether the channel got idle in time.
use native.Mathlib.Decide.{dec_lt}
use alice_hlt_librorc.Base.{
  ℕ, zero, suc, ◌-◌, ◌%◌, ◌<◌, ◌≤◌, ◌≡◌, refl, Bool, arith, ◌==◌, ltb, if◌then◌else◌,
}
use alice_hlt_librorc.Base.Int.{pos, negsuc}
use alice_hlt_librorc.Base.State.{State}
use alice_hlt_librorc.Base.Bits.{bit}
use alice_hlt_librorc.Base.Fields.{bit-put}
use alice_hlt_librorc.Base.Polling.{FirstAt}
use alice_hlt_librorc.Bar.{Bar}
use alice_hlt_librorc.Link.{Link}
use alice_hlt_librorc.DmaChannel.{
  dma_config, set_dma_config, get_enable, get_dma_busy, set_ebdm_enable, set_rbdm_enable,
  set_suspend, busy_loop, wait_idle, disable,
}

module _ {W : Type 0} (bar : Bar W) (l : Link) where
  -- One read of the control register, then one write of it that has the lowest bit of `v` at bit
  -- `k` and the bits that were read elsewhere.
  pub record PutsBit (k v : ℕ) (op : State W (Unit {0})) (w : W) : Type 0 where
    pub value : ℕ
    pub writes : op w ≡ set_dma_config bar l value (dma_config bar l w).1
    pub bits :
        (j : ℕ) → j < 32 → bit j value ≡ (if j == k then v % 2 else bit j (dma_config bar l w).0)

  set_ebdm_enable-PutsBit : (v : ℕ) (w : W) → PutsBit 2 v (set_ebdm_enable bar l v) w
  unfolding set_ebdm_enable
  set_ebdm_enable-PutsBit v w = record {
    value = _;
    writes = refl;
    bits = λ j h. bit-put 2 v (dma_config bar l w).0 j (omega arith) h;
  }

  set_rbdm_enable-PutsBit : (v : ℕ) (w : W) → PutsBit 3 v (set_rbdm_enable bar l v) w
  unfolding set_rbdm_enable
  set_rbdm_enable-PutsBit v w = record {
    value = _;
    writes = refl;
    bits = λ j h. bit-put 3 v (dma_config bar l w).0 j (omega arith) h;
  }

  set_suspend-PutsBit : (v : ℕ) (w : W) → PutsBit 10 v (set_suspend bar l v) w
  unfolding set_suspend
  set_suspend-PutsBit v w = record {
    value = _;
    writes = refl;
    bits = λ j h. bit-put 10 v (dma_config bar l w).0 j (omega arith) h;
  }

  -- `setEbdmEnable`, `setRbdmEnable` and `setSuspend` write bits 2, 3 and 10 and no other.
  pub setters-PutsBit :
      (v : ℕ) (w : W)
      → PutsBit 2 v (set_ebdm_enable bar l v) w
        × PutsBit 3 v (set_rbdm_enable bar l v) w
        × PutsBit 10 v (set_suspend bar l v) w
  setters-PutsBit v w =
      (set_ebdm_enable-PutsBit v w, set_rbdm_enable-PutsBit v w, set_suspend-PutsBit v w)

  abbrev pub is_idle : State W Bool
  is_idle w = let (busy, w') = get_dma_busy bar l w in (busy == 0, w')

  abbrev pub IdleAt : ℕ → W → W → Type 0
  IdleAt = FirstAt is_idle (bar.usleep 100)

  busy_loop_idle :
      (timeout k : ℕ) (w w' : W)
      → IdleAt k w w'
      → k < timeout
      → busy_loop bar l timeout w ≡ (timeout - k, w')
  unfolding busy_loop
  busy_loop_idle zero k w w' h lt = absurd (omega arith)
  busy_loop_idle (suc timeout) zero w w' h lt = ground arith
  busy_loop_idle (suc timeout) (suc k) w w' h lt =
      ground (arith, busy_loop_idle timeout k (bar.usleep 100 (get_dma_busy bar l w).1).1 w' h.1)

  busy_loop_late :
      (timeout k : ℕ) (w w' : W) → IdleAt k w w' → timeout ≤ k → (busy_loop bar l timeout w).0 ≡ 0
  unfolding busy_loop
  busy_loop_late zero k w w' h le = refl
  busy_loop_late (suc timeout) zero w w' h le = absurd (omega arith)
  busy_loop_late (suc timeout) (suc k) w w' h le =
      ground (arith, busy_loop_late timeout k (bar.usleep 100 (get_dma_busy bar l w).1).1 w' h.1)

  wait_idle_enabled :
      (k : ℕ) (w w' : W)
      → (get_enable bar l w).0 ≡ 1
      → IdleAt k (set_suspend bar l 1 (get_enable bar l w).1).1 w'
      → (wait_idle bar l w).0 ≡ 10000 - k
  unfolding wait_idle
  wait_idle_enabled k w w' on h =
      let suspended = (set_suspend bar l 1 (get_enable bar l w).1).1 in
      elim (dec_lt k 10000) [
        | yes lt ↦ ground (arith, busy_loop_idle 10000 k suspended w' h lt)
        | no ge ↦ ground (arith, busy_loop_late 10000 k suspended w' h)
      ]

  -- The last access of `disable` is the write of the FIFO reset bit alone, whatever came before.
  disable-reset : (w : W) → (disable bar l w).1 ≡ (set_dma_config bar l 2 (wait_idle bar l w).1).1
  unfolding disable
  disable-reset w = refl

  -- If the channel is enabled and poll `k` after the suspend is the first to find it idle, then
  -- `disable` returns 0 if `k` is below 10000 and -1 otherwise, and in both cases its last access
  -- writes the FIFO reset bit alone to the control register.
  pub disable_enabled :
      (k : ℕ) (w w' : W)
      → (get_enable bar l w).0 ≡ 1
      → IdleAt k (set_suspend bar l 1 (get_enable bar l w).1).1 w'
      → ((disable bar l w).0 ≡ (if ltb k 10000 then pos 0 else negsuc 0))
        × ((disable bar l w).1 ≡ (set_dma_config bar l 2 (wait_idle bar l w).1).1)
  disable_enabled k w w' on h = (answer, disable-reset w)
    where
      answer : (disable bar l w).0 ≡ (if ltb k 10000 then pos 0 else negsuc 0)
      answer = unfold disable in ground (arith, wait_idle_enabled k w w' on h)
