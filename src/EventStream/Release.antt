-- ===== src/EventStream/Release.antt =====
-- The loop of `updateBufferOffsets`: it ends, and frees the run of released entries at the index.
use native.Mathlib.Decide.{dec_lt, ℕ_discrete}
use alice_hlt_librorc.Base.{
  ℕ, zero, suc, ◌-◌, ◌*◌, ◌%◌, u64, ◌<◌, ◌≤◌, ◌≡◌, ◌≢◌, refl, true, false, some, arith, ◌==◌, ltb,
  if◌then◌else◌, Bool-cases, inl, inr, ◌∙◌,
}
use alice_hlt_librorc.Buffer.{event_descriptor_size}
use alice_hlt_librorc.EventStream.{cleared, Releasing, release_body, release_loop, count_pending}
use alice_hlt_librorc.EventStream.Ring.{
  ring_pos, ring_dist, Rolling, Round, release_body-Round, entry, flag, count_pending-release_body,
}

-- From `r` the loop got to `out` by freeing the `n` entries from the index on: those had been
-- released, the one after them has not been, and no other entry or flag is changed.
pub record Freed (max size : ℕ) (r out : Releasing) (n : ℕ) : Type 0 where
  pub bounded : n ≤ max
  pub rolling : Rolling max out
  pub index : out.release_index ≡ ring_pos max r.release_index n
  pub were_released : (k : ℕ) → k < n → flag r (ring_pos max r.release_index k) ≡ true
  pub stopped : flag out out.release_index ≡ false
  pub flags :
      (j : ℕ)
      → j < max
      → flag out j ≡ (if ltb (ring_dist max r.release_index j) n then false else flag r j)
  pub entries :
      (j : ℕ)
      → j < max
      → entry out j ≡ (if ltb (ring_dist max r.release_index j) n then cleared else entry r j)
  pub offset : out.event_buffer_offset ≡ (
      if n == 0
      then r.event_buffer_offset
      else (entry r (ring_pos max r.release_index (n - 1))).offset)
  pub report_offset : out.report_buffer_offset ≡ (
      if n == 0
      then r.report_buffer_offset
      else u64 (ring_pos max r.release_index (n - 1) * event_descriptor_size) % size)

Freed-zero :
    (max size : ℕ) (r : Releasing)
    → Rolling max r
    → flag r r.release_index ≡ false
    → Freed max size r r 0
Freed-zero max size r v e = record {
  bounded = omega arith;
  rolling = v;
  index = ground arith;
  were_released = λ k lt. absurd (omega arith);
  stopped = e;
  flags = λ j lt. ground arith;
  entries = λ j lt. ground arith;
  offset = refl;
  report_offset = refl;
}

module _ (max size : ℕ) (r r' out : Releasing) (n : ℕ) (v : Rolling max r)
    (set_here : flag r r.release_index ≡ true) (step : Round max size r r')
    (rest : Freed max size r' out n) where
  -- Once round the ring is the entry that this round has freed.
  not_all : n < max
  not_all = elim (dec_lt n max) [
    | yes lt ↦ lt
    | no ge ↦
        let back : ring_pos max r'.release_index (max - 1) ≡ r.release_index =
          ground (arith, step.index, v.inside) in
        absurd (
          ground (
            arith,
            back,
            rest.were_released (max - 1),
            step.flags r.release_index,
            rest.bounded,
            v.inside,
          ))
  ]

  shift : (k : ℕ) → k < max → ring_pos max r.release_index (suc k) ≡ ring_pos max r'.release_index k
  shift k lt = ground (arith, step.index, v.inside)

  released : (k : ℕ) → k < suc n → flag r (ring_pos max r.release_index k) ≡ true
  released zero lt =
      let p : ring_pos max r.release_index 0 ≡ r.release_index = ground (arith, v.inside) in
      rw p set_here
  released (suc k) lt =
      let p = shift k (omega (arith, not_all)) in
      rw p (ground (arith, rest.were_released k, step.flags (ring_pos max r'.release_index k)))

  last_offset :
      out.event_buffer_offset ≡ (entry r (ring_pos max r.release_index (suc n - 1))).offset
  last_offset = elim (ℕ_discrete n 0) [
    | yes none_left ↦
        let p : ring_pos max r.release_index (suc n - 1) ≡ r.release_index =
          ground (arith, v.inside) in
        rw p (ground (arith, rest.offset, step.offset))
    | no more ↦
        let p : ring_pos max r.release_index (suc n - 1) ≡ ring_pos max r'.release_index (n - 1) =
          ground (arith, step.index, v.inside, not_all) in
        let away : ring_pos max r'.release_index (n - 1) ≢ r.release_index =
          ground (arith, step.index, v.inside, not_all) in
        rw p
          (ground (arith, rest.offset, step.entries (ring_pos max r'.release_index (n - 1)), away))
  ]

  last_report_offset :
      out.report_buffer_offset
      ≡ u64 (ring_pos max r.release_index (suc n - 1) * event_descriptor_size) % size
  last_report_offset = elim (ℕ_discrete n 0) [
    | yes none_left ↦
        let p : ring_pos max r.release_index (suc n - 1) ≡ r.release_index =
          ground (arith, v.inside) in
        rw p (ground (arith, rest.report_offset, step.report_offset))
    | no more ↦
        let p : ring_pos max r.release_index (suc n - 1) ≡ ring_pos max r'.release_index (n - 1) =
          ground (arith, step.index, v.inside, not_all) in
        rw p (ground (arith, rest.report_offset))
  ]

  Freed-suc : Freed max size r out (suc n)
  Freed-suc = record {
    bounded = not_all;
    rolling = rest.rolling;
    index = ground (arith, rest.index, step.index, v.inside, not_all);
    were_released = released;
    stopped = rest.stopped;
    flags = λ j lt. ground (arith, rest.flags j, step.flags j, step.index, v.inside, not_all);
    entries = λ j lt. ground (arith, rest.entries j, step.entries j, step.index, v.inside, not_all);
    offset = ground (arith, last_offset);
    report_offset = ground (arith, last_report_offset);
  }

release_loop_stop :
    (fuel max size : ℕ) (r : Releasing)
    → flag r r.release_index ≡ false
    → release_loop (suc fuel) max size r ≡ some r
unfolding release_loop
release_loop_stop fuel max size r e = ground (arith, e)

release_loop_go :
    (fuel max size : ℕ) (r : Releasing)
    → flag r r.release_index ≡ true
    → release_loop (suc fuel) max size r ≡ release_loop fuel max size (release_body max size r)
unfolding release_loop
release_loop_go fuel max size r e = rw (e, release_loop)

-- With fuel for every flag that is set the loop ends.
pub release_loop-Freed :
    (fuel max size : ℕ) (r : Releasing)
    → Rolling max r
    → count_pending r.release_map < fuel
    → (out : Releasing) × (n : ℕ) × (release_loop fuel max size r ≡ some out)
      × Freed max size r out n
release_loop-Freed zero max size r v h = absurd (omega arith)
release_loop-Freed (suc fuel) max size r v h = elim (Bool-cases (flag r r.release_index)) [
  | inr stop ↦ (r, 0, release_loop_stop fuel max size r stop, Freed-zero max size r v stop)
  | inl here ↦
      let r' = release_body max size r in
      let step = release_body-Round max size r v in
      let (out, n, e, rest) =
        release_loop-Freed fuel max size r' step.rolling
          (omega (arith, count_pending-release_body max size r here)) in
      (
        out,
        suc n,
        release_loop_go fuel max size r here ∙ e,
        Freed-suc max size r r' out n v here step rest,
      )
]
