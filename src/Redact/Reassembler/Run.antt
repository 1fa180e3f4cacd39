-- ===== src/Redact/Reassembler/Run.antt =====
-- `accept`, `consume`, `Write`, `Flush` and `process` of pkg/redact/sse_backfill.go.
use tokenhush.Base.{
  ℕ, Bool, true, false, Option, none, some, List, [], ◌∷◌, ◌++◌, Bytes, if◌then◌else◌, length, drop,
}
use tokenhush.Protocol.Writer.{flush}
use tokenhush.Protocol.Sse.{Span, Event}
use tokenhush.Protocol.Sse
use tokenhush.Redact.Reassembler.Spell.{feed_value}
use tokenhush.Redact.Reassembler.{
  Host, SseSegment, SseBackfiller, segment_value, release_segments, clear_carry, flush_held,
}
use tokenhush.Redact.Reassembler.Accept.{handled, unhandled, accept_leaf}

abbrev pub plain_segment : Bytes → SseSegment
plain_segment raw = record {
  raw = raw;
  span = record { start = 0; end = 0 };
  content = [];
  has_span = false;
  leaf = false;
  extra_edits = [];
}

-- A pending data segment is queued: `pendingIndex() >= 0`.
unfoldable pub is_pending : List SseSegment → Bool
is_pending [] = false
is_pending (seg ∷ segs) = elim seg.has_span [ true ↦ true | false ↦ is_pending segs ]

-- The raw path of `accept`.
unfoldable pub accept_raw : Host → SseSegment → SseBackfiller → Bytes × SseBackfiller
unfolding flush_held feed_value release_segments
accept_raw host seg s =
    let (out, s1) = flush_held s in
    let (content, s2) = feed_value host (segment_value seg) s1 in
    let (more, s3) = release_segments (length s2.segments) s2 in
    (out ++ more, record s3 { segments = s3.segments ++ record seg { content = content } ∷ [] })

unfoldable pub accept_data : Host → SseSegment → SseBackfiller → Bytes × SseBackfiller
accept_data host seg s = elim (accept_leaf host seg s) [
  | handled out s' ↦ (out, s')
  | unhandled s' ↦ accept_raw host seg s'
]

-- An event with no canonical data line.
unfoldable pub accept_other_event : SseSegment → SseBackfiller → Bytes × SseBackfiller
unfolding release_segments
accept_other_event seg s =
    let s' : SseBackfiller = record s { segments = s.segments ++ seg ∷ [] } in
    if is_pending s'.segments then ([], s') else release_segments (length s'.segments) s'

unfoldable pub accept : Host → Event → SseBackfiller → Bytes × SseBackfiller
accept host ev s = elim ev.data_spans [
  | [] ↦ accept_other_event (plain_segment ev.raw) s
  | span ∷ spans ↦ elim spans [
    | [] ↦ accept_data host (record (plain_segment ev.raw) { has_span = true; span = span }) s
    | _ ∷ _ ↦ accept_other_event (plain_segment ev.raw) s
  ]
]

-- `drop`.
unfoldable pub drop_tail : ℕ → SseBackfiller → SseBackfiller
drop_tail n s = record s { tail = drop n s.tail }

unfoldable pub observed : Host → Event → Option Bytes
observed host ev = elim host.observer [ none ↦ none | some observe ↦ observe ev ]

-- What an abort leaves.
unfoldable pub abort_stream : SseBackfiller → SseBackfiller
unfolding clear_carry
abort_stream s = record (clear_carry (record s { segments = []; tail = [] })) { closed = true }

-- The loop of `consume`; `out` is what the events before gave.
unfoldable pub consume : Host → List Event → Bytes → SseBackfiller → Bytes × SseBackfiller
consume host [] out s = (out, s)
consume host (ev ∷ evs) out s = elim (observed host ev) [
  | some aborted ↦ (aborted, abort_stream (drop_tail (length ev.raw) s))
  | none ↦
      let (more, s') = accept host ev (drop_tail (length ev.raw) s) in
      consume host evs (out ++ more) s'
]

-- The events of `Feed`; a closed decoder refuses the bytes and gives none.
abbrev pub events_of : Option (List Event) → List Event
events_of none = []
events_of (some events) = events

unfoldable pub write : Host → Bytes → SseBackfiller → Bytes × SseBackfiller
write host chunk s =
    let (events, d) = Sse.feed s.decoder chunk in
    if s.closed
    then ([], s)
    else consume host (events_of events) [] (record s { tail = s.tail ++ chunk; decoder = d })

-- The writer's held tail goes to the first data segment of the queue.
unfoldable pub append_pending : Bytes → List SseSegment → List SseSegment
append_pending t [] = []
append_pending t (seg ∷ segs) = elim seg.has_span [
  | true ↦ record seg { content = seg.content ++ t } ∷ segs
  | false ↦ seg ∷ append_pending t segs
]

unfoldable pub flush_pending : SseBackfiller → SseBackfiller
unfolding flush
flush_pending s =
    if is_pending s.segments
    then record s {
      segments = append_pending (flush s.writer).0 s.segments;
      writer = (flush s.writer).1;
    }
    else s

-- `Flush`.
unfoldable pub finish : Host → SseBackfiller → Bytes × SseBackfiller
unfolding release_segments
finish host s =
    let (events, d) = Sse.close s.decoder in
    let (out, s1) = consume host events [] (record s { closed = true; decoder = d }) in
    let s2 = flush_pending s1 in
    let (more, s3) = release_segments (length s2.segments) s2 in
    if s.closed then ([], s) else (out ++ (more ++ s3.tail), clear_carry (record s3 { tail = [] }))

-- Any writes, in order.
unfoldable pub write_all : Host → List Bytes → SseBackfiller → Bytes × SseBackfiller
write_all host [] s = ([], s)
write_all host (c ∷ cs) s =
    let (out, s') = write host c s in let (more, s'') = write_all host cs s' in (out ++ more, s'')

-- `process`: one write and the flush, on any state.
unfoldable pub process : Host → Bytes → SseBackfiller → Bytes × SseBackfiller
process host chunk s =
    let (out, s') = write host chunk s in let (more, s'') = finish host s' in (out ++ more, s'')
