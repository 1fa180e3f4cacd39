-- ===== src/Redact/Reassembler/Budget.antt =====
-- What `SSEBackfiller` holds back over any writes and the flush, and that it ends there.
use tokenhush.Base.{
  ℕ, ◌≤◌, ◌≡◌, refl, Bool, true, false, inl, inr, some, List, [], ◌∷◌, ◌++◌, Bytes, length, drop,
  arith, if-case, Option-cases,
}
use tokenhush.Protocol.Writer.{flush, held_count, sse_backfill_holdback_bytes}
use tokenhush.Protocol.Writer.Conserve.{held_bound}
use tokenhush.Protocol.Sse.{Span, Event}
use tokenhush.Redact.Reassembler.Spell.{feed_value, spell_feed, replace_token}
use tokenhush.Redact.Reassembler.{
  Host, SseSegment, SseBackfiller, new_sse_backfiller, held, segment_value, release_segments,
  clear_carry, flush_held,
}
use tokenhush.Redact.Reassembler.Accept.{Handled, handled, unhandled, accept_leaf}
use tokenhush.Redact.Reassembler.Run.{
  plain_segment, is_pending, accept_raw, accept_data, accept_other_event, accept, drop_tail,
  observed, abort_stream, consume, write, flush_pending, finish, write_all,
}
use tokenhush.Redact.Reassembler.Branches.{leaf-IsSound}
use tokenhush.Redact.Reassembler.Sound.{IsCarry, IsSound, Good, HandledGood, clear-IsSound}

module _ (shut : Bool) where
  raw-IsSound :
      (host : Host) (seg : SseSegment) (s : SseBackfiller)
      → IsSound shut s
      → IsSound shut (accept_raw host seg s).1
  unfolding accept_raw flush_held clear_carry release_segments feed_value
  raw-IsSound host seg s h = record {
    bounded = omega (
      arith,
      (held_bound
          (record s.writer {
            replace = some (λ t. some (replace_token host (spell_feed host (segment_value seg)) t));
          })
          (segment_value seg)).1,
    );
    carried = inl refl;
    stays = h.stays;
  }

  data-IsSound :
      (host : Host) (seg : SseSegment) (s : SseBackfiller)
      → IsSound shut s
      → IsSound shut (accept_data host seg s).1
  unfolding accept_data
  data-IsSound host seg s h = go (accept_leaf host seg s) (leaf-IsSound shut host seg s h)
    where
      go :
          (r : Handled)
          → HandledGood shut r
          → IsSound shut
              (elim r as (λ _. Bytes × SseBackfiller) [
                | handled out s' ↦ (out, s')
                | unhandled s' ↦ accept_raw host seg s'
              ]).1
      go (handled out s') g = g
      go (unhandled s') g = raw-IsSound host seg s' g

  other_event-IsSound :
      (seg : SseSegment) (s : SseBackfiller)
      → IsSound shut s
      → IsSound shut (accept_other_event seg s).1
  unfolding accept_other_event release_segments
  other_event-IsSound seg s h =
      if-case (Good shut) (is_pending (s.segments ++ seg ∷ [])) _ _
        (λ _. record { bounded = h.bounded; carried = h.carried; stays = h.stays })
        (λ _. record { bounded = h.bounded; carried = h.carried; stays = h.stays })

  accept-IsSound :
      (host : Host) (ev : Event) (s : SseBackfiller)
      → IsSound shut s
      → IsSound shut (accept host ev s).1
  unfolding accept
  accept-IsSound host ev s h = go ev.data_spans
    where
      go :
          (spans : List Span)
          → IsSound shut
              (elim spans as (λ _. Bytes × SseBackfiller) [
                | [] ↦ accept_other_event (plain_segment ev.raw) s
                | span ∷ more ↦ elim more as (λ _. Bytes × SseBackfiller) [
                  | [] ↦
                      accept_data host
                        (record (plain_segment ev.raw) { has_span = true; span = span })
                        s
                  | _ ∷ _ ↦ accept_other_event (plain_segment ev.raw) s
                ]
              ]).1
      go [] = other_event-IsSound (plain_segment ev.raw) s h
      go (span ∷ []) =
          data-IsSound host (record (plain_segment ev.raw) { has_span = true; span = span }) s h
      go (span ∷ x ∷ more) = other_event-IsSound (plain_segment ev.raw) s h

  drop_tail-IsSound : (n : ℕ) (s : SseBackfiller) → IsSound shut s → IsSound shut (drop_tail n s)
  unfolding drop_tail
  drop_tail-IsSound n s h = record { bounded = h.bounded; carried = h.carried; stays = h.stays }

  abort-IsSound : (s : SseBackfiller) → IsSound shut s → IsSound shut (abort_stream s)
  unfolding abort_stream clear_carry
  abort-IsSound s h = record {
    bounded = omega (arith, h.bounded);
    carried = inl refl;
    stays = λ _. refl;
  }

  consume-IsSound :
      (host : Host) (evs : List Event) (out : Bytes) (s : SseBackfiller)
      → IsSound shut s
      → IsSound shut (consume host evs out s).1
  unfolding consume
  consume-IsSound host [] out s h = h
  consume-IsSound host (ev ∷ evs) out s h =
      let s' = drop_tail (length ev.raw) s in
      let h' = drop_tail-IsSound (length ev.raw) s h in
      elim (Option-cases (observed host ev)) [
        | inl e ↦
            rw (e, consume)
              (consume-IsSound host evs (out ++ (accept host ev s').0) (accept host ev s').1
                (accept-IsSound host ev s' h'))
        | inr (aborted, e) ↦ rw (e, consume) (abort-IsSound s' h')
      ]

  pub write-IsSound :
      (host : Host) (chunk : Bytes) (s : SseBackfiller)
      → IsSound shut s
      → IsSound shut (write host chunk s).1
  unfolding write
  write-IsSound host chunk s h =
      if-case (Good shut) s.closed _ _ (λ _. h)
        (λ _.
          consume-IsSound host _ [] _
            (record { bounded = h.bounded; carried = h.carried; stays = h.stays }))

  flush_pending-IsSound : (s : SseBackfiller) → IsSound shut s → IsSound shut (flush_pending s)
  unfolding flush_pending flush held_count
  flush_pending-IsSound s h =
      if-case (IsSound shut) (is_pending s.segments) _ _
        (λ _. record { bounded = omega (arith, h.bounded); carried = h.carried; stays = h.stays })
        (λ _. h)

  pub write_all-IsSound :
      (host : Host) (chunks : List Bytes) (s : SseBackfiller)
      → IsSound shut s
      → IsSound shut (write_all host chunks s).1
  unfolding write_all
  write_all-IsSound host [] s h = h
  write_all-IsSound host (c ∷ cs) s h =
      write_all-IsSound host cs (write host c s).1 (write-IsSound host c s h)

finish-IsSound :
    (host : Host) (s : SseBackfiller) → IsSound false s → IsSound true (finish host s).1
unfolding finish release_segments
finish-IsSound host s h =
    if-case (Good true) s.closed _ _
      (λ e. record { bounded = h.bounded; carried = h.carried; stays = λ _. e })
      (λ _. last (
        flush_pending-IsSound true _ (
          consume-IsSound true host _ [] _
            (record { bounded = h.bounded; carried = h.carried; stays = λ _. refl }))))
  where
    last :
        {s : SseBackfiller}
        → IsSound true s
        → IsSound true
            (clear_carry (record s { segments = drop (length s.segments) s.segments; tail = [] }))
    last {s} h =
        clear-IsSound true (record s { segments = drop (length s.segments) s.segments; tail = [] })
          (record { bounded = h.bounded; carried = h.carried; stays = h.stays })

new-IsSound : IsSound false new_sse_backfiller
unfolding held_count
new-IsSound = record { bounded = omega arith; carried = inl refl; stays = λ e. cc e }

-- For every host and all chunks, from a new `SSEBackfiller` on: after the writes, and again after a
-- flush behind them, `Held` is at most 256 KiB, and the carry is empty or the head of a placeholder.
pub held_budget :
    (host : Host) (chunks : List Bytes)
    → (held (write_all host chunks new_sse_backfiller).1 ≤ sse_backfill_holdback_bytes)
      × IsCarry (write_all host chunks new_sse_backfiller).1
      × (held (finish host (write_all host chunks new_sse_backfiller).1).1
          ≤ sse_backfill_holdback_bytes)
      × IsCarry (finish host (write_all host chunks new_sse_backfiller).1).1
unfolding held
held_budget host chunks =
    let a = write_all-IsSound false host chunks new_sse_backfiller new-IsSound in
    let b = finish-IsSound host (write_all host chunks new_sse_backfiller).1 a in
    (a.bounded, a.carried, b.bounded, b.carried)

write_closed :
    (host : Host) (chunk : Bytes) (s : SseBackfiller)
    → s.closed ≡ true
    → write host chunk s ≡ ([], s)
unfolding write
write_closed host chunk s e = rw e

finish_closed : (host : Host) (s : SseBackfiller) → s.closed ≡ true → finish host s ≡ ([], s)
unfolding finish
finish_closed host s e = rw e

-- For every host and all chunks, from a new `SSEBackfiller` on: behind the flush it is closed, every
-- later write and every later flush returns nothing, and neither changes the state.
pub finish_ends :
    (host : Host) (chunks : List Bytes) (chunk : Bytes)
    → ((finish host (write_all host chunks new_sse_backfiller).1).1.closed ≡ true)
      × (write host chunk (finish host (write_all host chunks new_sse_backfiller).1).1
          ≡ ([], (finish host (write_all host chunks new_sse_backfiller).1).1))
      × (finish host (finish host (write_all host chunks new_sse_backfiller).1).1
          ≡ ([], (finish host (write_all host chunks new_sse_backfiller).1).1))
finish_ends host chunks chunk =
    let s = (write_all host chunks new_sse_backfiller).1 in
    let end = (finish host s).1 in
    let e =
      (finish-IsSound host s
          (write_all-IsSound false host chunks new_sse_backfiller new-IsSound)).stays
        refl in
    (e, write_closed host chunk end e, finish_closed host end e)
