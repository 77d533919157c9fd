-- ===== src/EventStream/FillCount.antt =====
-- `getRingbufferFillCount` against the number of events that are received and not yet freed.
use alice_hlt_librorc.Base.{ℕ, ◌+◌, ◌-◌, ◌<◌, ◌≡◌, arith}
use alice_hlt_librorc.EventStream.{EventStream, next_index, get_ringbuffer_fill_count}
use alice_hlt_librorc.EventStream.Ring.{ring_dist}
use alice_hlt_librorc.EventStream.Validity.{IsValid}

-- The events from the release index to the last one received, where any is left.
abbrev pub in_use : EventStream → ℕ
in_use es = ring_dist es.max_rb_entries es.release_index es.receive_index + 1

-- On a valid stream that has received an event, the count of `getRingbufferFillCount` is one less
-- than the entries from the release index to the last event received.
pub get_ringbuffer_fill_count_lem :
    (es : EventStream)
    → IsValid es
    → es.receive_index < es.max_rb_entries
    → get_ringbuffer_fill_count es + 1 ≡ in_use es
unfolding get_ringbuffer_fill_count
get_ringbuffer_fill_count_lem es v h = ground arith

-- On a valid stream that has received an event and in which every event received has been freed,
-- the count is the number of entries less one, the same as for a ring in which every entry is in use.
pub get_ringbuffer_fill_count_freed :
    (es : EventStream)
    → IsValid es
    → es.receive_index < es.max_rb_entries
    → es.release_index ≡ next_index es.max_rb_entries es.receive_index
    → get_ringbuffer_fill_count es ≡ es.max_rb_entries - 1
unfolding get_ringbuffer_fill_count
get_ringbuffer_fill_count_freed es v h e = ground arith
