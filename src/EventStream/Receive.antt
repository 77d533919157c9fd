-- ===== src/EventStream/Receive.antt =====
-- `getNextEvent`: one call, and a series of calls.
use alice_hlt_librorc.Base.{
  ℕ, zero, suc, ◌^◌, ◌<◌, ◌≡◌, ◌≢◌, refl, List, [], ◌∷◌, none, some, arith, inr, ◌==◌, false, ◌∙◌,
  if◌then◌else◌,
}
use mathlib.Core.Path.{ap₂}
use alice_hlt_librorc.EventStream.{
  event_index_undefined, next_index, EventStream, Event, candidate, get_next_event, get_raw_event,
}
use alice_hlt_librorc.EventStream.Ring.{ring_pos}
use alice_hlt_librorc.EventStream.Validity.{IsValid, report}

-- The event `e` is the entry after the last one received, and is recorded as received.
pub record Received (es es' : EventStream) (e : Event) : Type 0 where
  pub reference : e.reference ≡ candidate es
  pub inside : e.reference < es.max_rb_entries
  pub report : e.report ≡ report es e.reference
  pub raw_index : e.raw_index ≡ get_raw_event e.report
  pub received : es'.receive_index ≡ e.reference
  pub valid : IsValid es'
  pub offset : es'.channel_status.receive_offset ≡ e.report.offset
  pub reports : es'.reports ≡ es.reports
  pub release_map : es'.release_map ≡ es.release_map
  pub release_index : es'.release_index ≡ es.release_index
  pub max_rb_entries : es'.max_rb_entries ≡ es.max_rb_entries

candidate-lt : (es : EventStream) → IsValid es → candidate es < es.max_rb_entries
candidate-lt es v = ground arith

-- On a valid stream, if the entry after the last one received has a size other than 0, the call
-- returns it, records it as received, and changes nothing else of the ring.
pub get_next_event-some :
    (es : EventStream)
    → IsValid es
    → (report es (candidate es)).reported_event_size ≢ 0
    → (es' : EventStream) × (e : Event) × (get_next_event es ≡ (es', some e)) × Received es es' e
unfolding get_next_event
get_next_event-some es v h =
    let full : ((report es (candidate es)).reported_event_size == 0) ≡ false = ground arith in
    (
      record es {
        receive_index = candidate es;
        channel_status = record es.channel_status {
          receive_offset = (report es (candidate es)).offset;
        };
      },
      record {
        report = report es (candidate es);
        raw_index = get_raw_event (report es (candidate es));
        reference = candidate es;
      },
      rw full,
      record {
        reference = refl;
        inside = candidate-lt es v;
        report = refl;
        raw_index = refl;
        received = refl;
        valid = record {
          positive = v.positive;
          small = v.small;
          map_length = v.map_length;
          reports_length = v.reports_length;
          release_inside = v.release_inside;
          receive_inside = inr (candidate-lt es v);
        };
        offset = refl;
        reports = refl;
        release_map = refl;
        release_index = refl;
        max_rb_entries = refl;
      },
    )

-- If that entry has size 0, the call returns false and changes nothing.
pub get_next_event-none :
    (es : EventStream)
    → (report es (candidate es)).reported_event_size ≡ 0
    → get_next_event es ≡ (es, none)
unfolding get_next_event
get_next_event-none es h = ground arith

-- A client's loop: at most `n` calls, until one returns false; the references in order.
unfoldable pub receive_up_to : ℕ → EventStream → EventStream × List ℕ
receive_up_to zero es = (es, [])
receive_up_to (suc n) es =
    let (es', found) = get_next_event es in
    elim found [
      | none ↦ (es', [])
      | some e ↦ let (es'', rest) = receive_up_to n es' in (es'', e.reference ∷ rest)
    ]

-- `n` positions from `i` on, around the ring.
abbrev pub positions : ℕ → ℕ → ℕ → List ℕ
positions max i zero = []
positions max i (suc n) = i ∷ positions max (ring_pos max i 1) n

-- The `n` entries from `i` on have arrived.
abbrev pub Arrived : EventStream → ℕ → ℕ → Type 0
Arrived es i zero = Unit {0}
Arrived es i (suc n) =
    ((report es i).reported_event_size ≢ 0) × Arrived es (ring_pos es.max_rb_entries i 1) n

Arrived-same :
    (es es' : EventStream) (i n : ℕ)
    → es'.reports ≡ es.reports
    → es'.max_rb_entries ≡ es.max_rb_entries
    → Arrived es i n
    → Arrived es' i n
Arrived-same es es' i zero r m a = tt
Arrived-same es es' i (suc n) r m a =
    (rw r a.0, rw m (Arrived-same es es' (ring_pos es.max_rb_entries i 1) n r m a.1))

candidate-after :
    (es es' : EventStream) (e : Event)
    → IsValid es
    → Received es es' e
    → candidate es' ≡ ring_pos es.max_rb_entries (candidate es) 1
candidate-after es es' e v r =
    let here : es'.receive_index ≡ candidate es = r.received ∙ r.reference in
    rw (here, r.max_rb_entries) (past (candidate es) (candidate-lt es v) v.small)
  where
    past :
        (c : ℕ)
        → c < es.max_rb_entries
        → es.max_rb_entries < 2 ^ 58
        → (if c == event_index_undefined then 0 else next_index es.max_rb_entries c)
          ≡ ring_pos es.max_rb_entries c 1
    past c h small = ground arith

receive_up_to-suc :
    (n : ℕ) (es es' : EventStream) (e : Event)
    → get_next_event es ≡ (es', some e)
    → (receive_up_to (suc n) es).1 ≡ e.reference ∷ (receive_up_to n es').1
unfolding receive_up_to
receive_up_to-suc n es es' e call = ground (arith, call)

-- Where `n` entries have arrived after the last one received, `n` calls on a valid stream return
-- them once each, in the order of the ring.
pub receive_up_to-positions :
    (n : ℕ) (es : EventStream)
    → IsValid es
    → Arrived es (candidate es) n
    → (receive_up_to n es).1 ≡ positions es.max_rb_entries (candidate es) n
unfolding receive_up_to
receive_up_to-positions zero es v a = refl
receive_up_to-positions (suc n) es v a =
    let (es', e, call, r) = get_next_event-some es v a.0 in
    let after = candidate-after es es' e v r in
    let same = Arrived-same es es' _ n r.reports r.max_rb_entries a.1 in
    let ih = receive_up_to-positions n es' r.valid (rw after same) in
    receive_up_to-suc n es es' e call
    ∙ ap₂ ◌∷◌ r.reference (ih ∙ ap₂ (λ m c. positions m c n) r.max_rb_entries after)
