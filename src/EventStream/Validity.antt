-- ===== src/EventStream/Validity.antt =====
-- The invariant of an event stream, and `releaseEvent` as a whole.
use alice_hlt_librorc.Base.{
  ℕ, suc, ◌-◌, ◌*◌, ◌%◌, ◌^◌, ◌<◌, ◌≤◌, ◌≡◌, ◌⊎◌, refl, Bool, Bool-cases, inl, inr, true, false,
  some, arith, ◌==◌, ltb, leb, if◌then◌else◌, u64, get_or, set, length, length-set, ◌∙◌,
}
use alice_hlt_librorc.Base.Int.{pos, negsuc}
use alice_hlt_librorc.Bar.{Bar}
use alice_hlt_librorc.Link.{Link}
use alice_hlt_librorc.Buffer.{event_descriptor_size}
use alice_hlt_librorc.Base.State.{State}
use alice_hlt_librorc.DmaChannel.{DmaChannel}
use alice_hlt_librorc.DmaChannel.Pointers.{set_buffer_offsets_on_device}
use alice_hlt_librorc.EventStream.{
  EventDescriptor, EventStream, cleared, event_index_undefined, Releasing, finish_release,
  update_buffer_offsets, release_event, count_pending,
}
use alice_hlt_librorc.EventStream.Ring.{
  ring_pos, ring_dist, Rolling, count_pending-le, length-clear_reports, get_or-clear_reports,
}
use alice_hlt_librorc.EventStream.Release.{Freed, release_loop-Freed}

pub record IsValid (es : EventStream) : Type 0 where
  pub positive : 0 < es.max_rb_entries
  pub small : es.max_rb_entries < 2 ^ 58
  pub map_length : length es.release_map ≡ es.max_rb_entries
  pub reports_length : length es.reports ≡ es.max_rb_entries
  pub release_inside : es.release_index < es.max_rb_entries
  pub receive_inside :
      (es.receive_index ≡ event_index_undefined) ⊎ (es.receive_index < es.max_rb_entries)

abbrev pub report : EventStream → ℕ → EventDescriptor
report es j = get_or es.reports j cleared

abbrev pub released : EventStream → ℕ → Bool
released es j = get_or es.release_map j false

-- `es'` is `es` with the `n` entries from the release index on freed: all of them had been
-- released, the next has not been, and nothing else of the ring changed.
pub record Frees (es es' : EventStream) (n : ℕ) : Type 0 where
  pub bounded : n ≤ es.max_rb_entries
  pub index : es'.release_index ≡ ring_pos es.max_rb_entries es.release_index n
  pub were_released :
      (k : ℕ) → k < n → released es (ring_pos es.max_rb_entries es.release_index k) ≡ true
  pub stopped : released es' es'.release_index ≡ false
  pub flags :
      (j : ℕ)
      → j < es.max_rb_entries
      → released es' j
        ≡ (if ltb (ring_dist es.max_rb_entries es.release_index j) n then false else released es j)
  pub reports :
      (j : ℕ)
      → j < es.max_rb_entries
      → report es' j
        ≡ (if ltb (ring_dist es.max_rb_entries es.release_index j) n then cleared else report es j)
  pub receive_index : es'.receive_index ≡ es.receive_index
  pub max_rb_entries : es'.max_rb_entries ≡ es.max_rb_entries

-- The entry `reference` marked as released.
abbrev pub mark : ℕ → EventStream → EventStream
mark reference es = record es { release_map = set es.release_map reference true }

-- The last of `n` freed entries.
abbrev pub last_freed : EventStream → ℕ → ℕ
last_freed es n = ring_pos es.max_rb_entries es.release_index (n - 1)

abbrev start : EventStream → Releasing
start es = record {
  reports = es.reports;
  release_map = es.release_map;
  release_index = es.release_index;
  index_start = es.release_index;
  index_count = 0;
  event_buffer_offset = 0;
  report_buffer_offset = 0;
}

start-Rolling : {es : EventStream} → IsValid es → Rolling es.max_rb_entries (start es)
start-Rolling v = omega arith

module _ {W : Type 0} (bar : Bar W) (l : Link) where
  -- The device is told the offsets of the last of `n` freed entries, if there is one.
  abbrev pub tell : EventStream → ℕ → State W DmaChannel
  tell es n w =
      if n == 0
      then (es.dma_channel, w)
      else set_buffer_offsets_on_device bar l (report es (last_freed es n)).offset
          (u64 (last_freed es n * event_descriptor_size) % es.report_buffer_size) es.dma_channel w

  -- What `updateBufferOffsets` did: with no entry freed nothing at all, and else the device was
  -- told the offsets of the last freed entry.
  pub record Updated (es : EventStream) (w : W) (es' : EventStream) (w' : W) : Type 0 where
    pub n : ℕ
    pub frees : Frees es es' n
    pub valid : IsValid es'
    pub device : ◌≡◌ {A = DmaChannel × W} (es'.dma_channel, w') (tell es n w)
    pub status : es'.channel_status.release_offset ≡ (
        if n == 0 then es.channel_status.release_offset else (report es (last_freed es n)).offset)

  update_unreleased :
      {es : EventStream} (w : W)
      → IsValid es
      → released es es.release_index ≡ false
      → Updated es w es w
  update_unreleased {es} w v e = record {
    n = 0;
    frees = record {
      bounded = omega arith;
      index = ground (arith, v.release_inside);
      were_released = λ k lt. absurd (omega arith);
      stopped = e;
      flags = λ j lt. ground arith;
      reports = λ j lt. ground arith;
      receive_index = refl;
      max_rb_entries = refl;
    };
    valid = v;
    device = refl;
    status = refl;
  }

  some-Freed :
      {es : EventStream} (out : Releasing) (n : ℕ)
      → IsValid es
      → released es es.release_index ≡ true
      → Freed es.max_rb_entries es.report_buffer_size (start es) out n
      → (n == 0) ≡ false
  some-Freed {es} out n v e f = elim (Bool-cases (n == 0)) [
    | inr more ↦ more
    | inl nothing ↦
        let here : out.release_index ≡ es.release_index =
          ground (arith, f.index, v.release_inside) in
        absurd
          (ground (arith, here, f.stopped, f.flags es.release_index, v.release_inside, v.positive))
  ]

  -- The offset that goes to the device.
  event_offset :
      (es : EventStream) (out : Releasing) (n : ℕ)
      → (n == 0) ≡ false
      → Freed es.max_rb_entries es.report_buffer_size (start es) out n
      → out.event_buffer_offset ≡ (report es (last_freed es n)).offset
  event_offset es out n more f =
      ground (arith, f.offset, get_or-clear_reports es.reports es.release_index 0 (last_freed es n))

  report_offset :
      (es : EventStream) (out : Releasing) (n : ℕ)
      → (n == 0) ≡ false
      → Freed es.max_rb_entries es.report_buffer_size (start es) out n
      → out.report_buffer_offset
        ≡ u64 (last_freed es n * event_descriptor_size) % es.report_buffer_size
  report_offset es out n more f = ground (arith, f.report_offset)

  update-Freed :
      {es : EventStream} (w : W) (out : Releasing) (n : ℕ)
      → IsValid es
      → released es es.release_index ≡ true
      → Freed es.max_rb_entries es.report_buffer_size (start es) out n
      → let (es', w') = finish_release bar l es out w in Updated es w es' w'
  unfolding finish_release
  update-Freed {es} w out n v e f =
      let more = some-Freed out n v e f in
      let off = event_offset es out n more f in
      let roff = report_offset es out n more f in
      record {
        n = n;
        frees = record {
          bounded = f.bounded;
          index = f.index;
          were_released = f.were_released;
          stopped = f.stopped;
          flags = f.flags;
          reports = λ j lt.
              ground (arith, f.entries j lt, get_or-clear_reports es.reports es.release_index 0 j);
          receive_index = refl;
          max_rb_entries = refl;
        };
        valid = record {
          positive = v.positive;
          small = v.small;
          map_length = f.rolling.map_length;
          reports_length =
              length-clear_reports out.reports out.index_start out.index_count
              ∙ f.rolling.reports_length;
          release_inside = f.rolling.inside;
          receive_inside = v.receive_inside;
        };
        device = rw (more, off, roff);
        status = rw more off;
      }

  -- On a valid stream `updateBufferOffsets` ends. It frees the run of released entries at the
  -- release index, clears their descriptors and flags and nothing else, and, if there is one,
  -- tells the device the offsets of the last of them. The stream is valid afterwards.
  pub update_buffer_offsets-Updated :
      {es : EventStream} (w : W)
      → IsValid es
      → (es' : EventStream) × (w' : W) × (update_buffer_offsets bar l es w ≡ (some es', w'))
        × Updated es w es' w'
  unfolding update_buffer_offsets
  update_buffer_offsets-Updated {es} w v = elim (Bool-cases (released es es.release_index)) [
    | inr e ↦ (es, w, rw e, update_unreleased w v e)
    | inl e ↦
        let enough : count_pending es.release_map < suc es.max_rb_entries =
          omega (arith, count_pending-le es.release_map, v.map_length) in
        let (out, n, loop, f) =
          release_loop-Freed (suc es.max_rb_entries) es.max_rb_entries es.report_buffer_size
            (start es) (start-Rolling v) enough in
        let (es', w') = finish_release bar l es out w in
        (es', w', rw (e, loop), update-Freed w out n v e f)
  ]

  mark-IsValid : (reference : ℕ) {es : EventStream} → IsValid es → IsValid (mark reference es)
  mark-IsValid reference {es} v = record {
    positive = v.positive;
    small = v.small;
    map_length = length-set es.release_map reference true ∙ v.map_length;
    reports_length = v.reports_length;
    release_inside = v.release_inside;
    receive_inside = v.receive_inside;
  }

  -- On a valid stream and a reference below the number of entries, `releaseEvent` returns 0. It
  -- marks the entry, then frees the run of released entries at the release index and tells the
  -- device of the last of them, if there is one. The stream is valid afterwards.
  pub release_event-Updated :
      (reference : ℕ) {es : EventStream} (w : W)
      → IsValid es
      → reference < es.max_rb_entries
      → (es' : EventStream) × (w' : W) × (release_event bar l reference es w
          ≡ ((pos 0, some es'), w'))
        × Updated (mark reference es) w es' w'
  unfolding release_event
  release_event-Updated reference {es} w v h =
      let (es', w', e, u) = update_buffer_offsets-Updated w (mark-IsValid reference v) in
      let inside : leb es.max_rb_entries reference ≡ false = ground arith in
      (es', w', rw (inside, e), u)

  -- A reference that is no entry of the ring returns -1 and changes nothing.
  pub release_event_invalid :
      (reference : ℕ) (es : EventStream) (w : W)
      → es.max_rb_entries ≤ reference
      → release_event bar l reference es w ≡ ((negsuc 0, some es), w)
  unfolding release_event
  release_event_invalid reference es w h = ground arith
