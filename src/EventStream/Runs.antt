-- ===== src/EventStream/Runs.antt =====
-- Runs of an event stream: the firmware delivers reports, the program receives and releases
-- events, in any order.
use alice_hlt_librorc.Base.{
  ℕ, ◌≡◌, Option, none, some, arith, set, length-set, sym, ap, ◌∙◌, ◌==◌, Bool-cases, inl, inr,
}
use native.Mathlib.Decide.{dec_lt}
use alice_hlt_librorc.Base.Int.{ℤ}
use alice_hlt_librorc.Bar.{Bar}
use alice_hlt_librorc.Link.{Link}
use alice_hlt_librorc.EventStream.{
  EventDescriptor, EventStream, candidate, get_next_event, release_event,
}
use alice_hlt_librorc.EventStream.Validity.{
  IsValid, report, release_event-Updated, release_event_invalid,
}
use alice_hlt_librorc.EventStream.Receive.{get_next_event-some, get_next_event-none}

-- The firmware writes a descriptor into the memory of the report buffer.
abbrev pub deliver : ℕ → EventDescriptor → EventStream → EventStream
deliver j d es = record es { reports = set es.reports j d }

module _ {W : Type 0} (bar : Bar W) (l : Link) where
  -- One step of the board, of `getNextEvent` or of `releaseEvent`, whatever they return.
  pub data Step : EventStream → W → EventStream → W → Type 0 where
    delivers :
        {es : EventStream} {w : W} (j : ℕ) (d : EventDescriptor) (w' : W)
        → Step es w (deliver j d es) w'
    receives : {es : EventStream} {w : W} → Step es w (get_next_event es).0 w
    releases :
        {es es' : EventStream} {w w' : W} (reference : ℕ) (result : ℤ)
        → release_event bar l reference es w ≡ ((result, some es'), w')
        → Step es w es' w'

  pub data Steps : EventStream → W → EventStream → W → Type 0 where
    stay : {es : EventStream} {w : W} → Steps es w es w
    step :
        {es es' es'' : EventStream} {w w' w'' : W}
        → Step es w es' w'
        → Steps es' w' es'' w''
        → Steps es w es'' w''

  receives-IsValid : (es : EventStream) → IsValid es → IsValid (get_next_event es).0
  receives-IsValid es v = elim (Bool-cases ((report es (candidate es)).reported_event_size == 0)) [
    | inl empty ↦ rw (get_next_event-none es (ground arith)) v
    | inr full ↦ let (es', e, call, r) = get_next_event-some es v (ground arith) in rw call r.valid
  ]

  stream_of : EventStream → (ℤ × Option EventStream) × W → EventStream
  stream_of es ((result, none), w) = es
  stream_of es ((result, some es'), w) = es'

  releases-IsValid :
      {es es' : EventStream} (w w' : W) (reference : ℕ) (result : ℤ)
      → IsValid es
      → release_event bar l reference es w ≡ ((result, some es'), w')
      → IsValid es'
  unfolding stream_of
  releases-IsValid {es} {es'} w w' reference result v e =
      elim (dec_lt reference es.max_rb_entries) [
        | yes inside ↦
            let (out, after, call, u) = release_event-Updated bar l reference w v inside in
            let same : out ≡ es' = ap (stream_of es) (sym call ∙ e) in rw same at u.valid
        | no outside ↦
            let call = release_event_invalid bar l reference es w (omega arith) in
            let same : es ≡ es' = ap (stream_of es) (sym call ∙ e) in rw same at v
      ]

  -- A valid stream stays valid, in whatever order reports are delivered and events are received and
  -- released.
  pub Steps-IsValid :
      {es es' : EventStream} {w w' : W} → IsValid es → Steps es w es' w' → IsValid es'
  Steps-IsValid v stay = v
  Steps-IsValid v (step s rest) = Steps-IsValid (next v s) rest
    where
      next : {a b : EventStream} {x y : W} → IsValid a → Step a x b y → IsValid b
      next {a} v (delivers j d w') = record {
        positive = v.positive;
        small = v.small;
        map_length = v.map_length;
        reports_length = length-set a.reports j d ∙ v.reports_length;
        release_inside = v.release_inside;
        receive_inside = v.receive_inside;
      }
      next {a} v receives = receives-IsValid a v
      next {a} {b} {x} {y} v (releases reference result e) =
          releases-IsValid x y reference result v e
