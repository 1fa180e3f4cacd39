-- ===== src/Redact/Reassembler/Sound.antt =====
-- What `acceptLeaf` and the operations below it keep of the state of `SSEBackfiller`.
use tokenhush.Base.{
  ℕ, ◌+◌, ◌≤◌, ◌≡◌, refl, Bool, true, ◌⊎◌, inl, inr, Option, none, some, List, [], ◌++◌, Bytes,
  ◌==◌, length, arith, if-case, length-append, leb→le,
}
use tokenhush.Protocol.Leaf.{Leaf}
use tokenhush.Protocol.Edit.{Edit}
use tokenhush.Protocol.Writer.{flush, held_count, sse_backfill_holdback_bytes}
use tokenhush.Redact.Matcher.{is_placeholder_prefix}
use tokenhush.Redact.Tokens.{Trailing, trailing_prefix_after}
use tokenhush.Redact.Tokens.Heads.{IsHead, trailing_prefix_after-IsHead}
use tokenhush.Redact.Reassembler.{
  Host, SseSegment, SseBackfiller, release_segments, clear_carry, flush_held, fits_budget,
  hold_segment, emit_segment, append_last_raw, handoff_writer, drain, edit_parts,
}
use tokenhush.Redact.Reassembler.Accept.{
  start_carry, settle, drain_after, accept_idle, accept_other, accept_alone, accept_complete,
  accept_more, Handled, handled, unhandled,
}

-- The carry is empty, or the head of some placeholder.
abbrev pub IsCarry : SseBackfiller → Type 0
IsCarry s = (length s.carry ≡ 0) ⊎ (is_placeholder_prefix s.carry ≡ true)

-- What holds of every state: the budget, and that the carry is the head of some placeholder.
pub record IsSound (shut : Bool) (s : SseBackfiller) : Type 0 where
  pub bounded : held_count s.writer + length s.carry + s.held_bytes ≤ sse_backfill_holdback_bytes
  pub carried : IsCarry s
  pub stays : shut ≡ true → s.closed ≡ true

abbrev pub Good : Bool → Bytes × SseBackfiller → Type 0
Good shut r = IsSound shut r.1

abbrev pub HandledGood : Bool → Handled → Type 0
HandledGood shut (handled out s) = IsSound shut s
HandledGood shut (unhandled s) = IsSound shut s

module _ (shut : Bool) where
  start-IsSound :
      (seg : SseSegment) (content : Bytes) (extra : List Edit) (p : Bytes) (leaf : Leaf)
      (s : SseBackfiller)
      → fits_budget s (length seg.raw + length content + length p) ≡ true
      → is_placeholder_prefix p ≡ true
      → IsSound shut s
      → IsSound shut (start_carry seg content extra p leaf s)
  unfolding start_carry hold_segment fits_budget
  start-IsSound seg content extra p leaf s fits head h = record {
    bounded = let b = leb→le _ _ fits in omega arith;
    carried = inr head;
    stays = h.stays;
  }

  emit-IsSound :
      (seg : SseSegment) (content : Bytes) (extra : List Edit) (s : SseBackfiller)
      → IsSound shut s
      → IsSound shut (emit_segment seg content extra s)
  unfolding emit_segment
  emit-IsSound seg content extra s h = record {
    bounded = h.bounded;
    carried = h.carried;
    stays = h.stays;
  }

  release-IsSound :
      (n : ℕ) (s : SseBackfiller) → IsSound shut s → IsSound shut (release_segments n s).1
  unfolding release_segments
  release-IsSound n s h = record { bounded = h.bounded; carried = h.carried; stays = h.stays }

  drain-IsSound : (r : Bytes × SseBackfiller) → IsSound shut r.1 → IsSound shut (drain_after r).1
  unfolding drain_after drain release_segments
  drain-IsSound (out, s) h = record { bounded = h.bounded; carried = h.carried; stays = h.stays }

  pub clear-IsSound : (s : SseBackfiller) → IsSound shut s → IsSound shut (clear_carry s)
  unfolding clear_carry
  clear-IsSound s h = record {
    bounded = omega (arith, h.bounded);
    carried = inl refl;
    stays = h.stays;
  }

  pub flush_held-IsSound : (s : SseBackfiller) → IsSound shut s → IsSound shut (flush_held s).1
  unfolding flush_held release_segments
  flush_held-IsSound s h =
      clear-IsSound (release_segments (length s.segments) s).1
        (release-IsSound (length s.segments) s h)

  settle-IsSound :
      (seg : SseSegment) (content : Bytes) (extra : List Edit) (last : Trailing) (s : SseBackfiller)
      → IsHead last
      → IsSound shut s
      → IsSound shut (settle seg content extra last s)
  unfolding settle
  settle-IsSound seg content extra none s g h = emit-IsSound seg content [] s h
  settle-IsSound seg content extra (some (p, leaf)) s g h =
      if-case (IsSound shut) (fits_budget s (length seg.raw + length content + length p))
        (start_carry seg content extra p leaf s) (emit_segment seg content [] s)
        (λ e. start-IsSound seg content extra p leaf s e g h) (λ e. emit-IsSound seg content [] s h)

  pub handoff-IsSound : (s : SseBackfiller) → IsSound shut s → IsSound shut (handoff_writer s)
  unfolding handoff_writer flush held_count
  handoff-IsSound s h =
      if-case (IsSound shut) (held_count s.writer == 0) s _ (λ e. h)
        (λ e. go (append_last_raw s.writer.held s.segments))
    where
      go :
          (o : Option (List SseSegment))
          → IsSound shut (elim o [
            | none ↦ s
            | some segs ↦ record s { segments = segs; writer = (flush s.writer).1 }
          ])
      go none = h
      go (some segs) = record {
        bounded = omega (arith, h.bounded);
        carried = h.carried;
        stays = h.stays;
      }

  pub idle-IsSound :
      (seg : SseSegment) (content : Bytes) (last : Trailing) (s : SseBackfiller)
      → IsHead last
      → IsSound shut s
      → IsSound shut (accept_idle seg content last s).1
  unfolding accept_idle release_segments
  idle-IsSound seg content none s g h = drain-IsSound _ (emit-IsSound seg content [] s h)
  idle-IsSound seg content (some (p, leaf)) s g h =
      if-case (λ (r : Bytes × SseBackfiller). IsSound shut r.1)
        (fits_budget s (length seg.raw + length content + length p)) _ _
        (λ e. drain-IsSound _ (
          start-IsSound seg content [] p leaf (release_segments (length s.segments) s).1
            (unfold fits_budget in e) g (release-IsSound (length s.segments) s h)))
        (λ e. drain-IsSound _ (emit-IsSound seg content [] s h))

  pub other-IsSound :
      (seg : SseSegment) (content : Bytes) (last : Trailing) (s : SseBackfiller)
      → IsHead last
      → IsSound shut s
      → IsSound shut (accept_other seg content last s).1
  unfolding accept_other
  other-IsSound seg content last s g h =
      drain-IsSound _
        (settle-IsSound seg content [] last (flush_held s).1 g (flush_held-IsSound s h))

  pub alone-IsSound :
      (seg : SseSegment) (content : Bytes) (s : SseBackfiller)
      → IsSound shut s
      → IsSound shut (accept_alone seg content s).1
  unfolding accept_alone
  alone-IsSound seg content s h =
      drain-IsSound _ (emit-IsSound seg content [] (flush_held s).1 (flush_held-IsSound s h))

  pub complete-IsSound :
      (host : Host) (seg : SseSegment) (value : Bytes) (leaves : List Leaf) (m : Leaf) (k : ℕ)
      (secret : Bytes) (s : SseBackfiller)
      → IsSound shut s
      → IsSound shut (accept_complete host seg value leaves m k secret s).1
  unfolding accept_complete
  complete-IsSound host seg value leaves m k secret s h = drain-IsSound _ (
      settle-IsSound seg _ _ (trailing_prefix_after leaves m k) _
        (trailing_prefix_after-IsHead leaves m k)
        (flush_held-IsSound (record s { segments = edit_parts host s.carry_parts s.segments })
          (record { bounded = h.bounded; carried = h.carried; stays = h.stays })))

  pub more-IsSound :
      (seg : SseSegment) (content : Bytes) (m : Leaf) (s : SseBackfiller)
      → fits_budget s (length seg.raw + length content + length m.value) ≡ true
      → is_placeholder_prefix (s.carry ++ m.value) ≡ true
      → IsSound shut s
      → IsSound shut (accept_more seg content m (s.carry ++ m.value) s).1
  unfolding accept_more hold_segment fits_budget
  more-IsSound seg content m s fits head h = drain-IsSound _ (record {
    bounded = let b = leb→le _ _ fits in omega (arith, length-append s.carry m.value);
    carried = inr head;
    stays = h.stays;
  })
