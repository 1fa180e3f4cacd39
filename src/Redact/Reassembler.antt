-- ===== src/Redact/Reassembler.antt =====
-- The state of `SSEBackfiller` (pkg/redact/sse_backfill.go) and the operations on its segments and on
-- its carry (sse_leaf.go, sse_spelling.go). `Host` holds what the code takes from elsewhere. The
-- writer's replacement reads the feed's spelling, so each feed sets it.
pub mod Spell
pub mod Accept
pub mod Run
pub mod Sound
pub mod Branches
pub mod Budget
use tokenhush.Base.{
  ℕ, zero, suc, ◌+◌, ◌-◌, Bool, true, false, not, ◌&&◌, ◌||◌, Option, none, some, List, [], ◌∷◌,
  ◌++◌, Bytes, ltb, leb, ◌==◌, if◌then◌else◌, length, take, drop, bytes_eq, lookup, insert,
  get_elem?,
}
use tokenhush.Protocol.Spelling.{raw_spelling, escape_json_string}
use tokenhush.Protocol.Leaf.{Leaf}
use tokenhush.Protocol.Edit.{Edit, slice, apply_edits}
use tokenhush.Protocol.Walk.{JsonDecoder, WalkResult, walk_leaves, walk_error, walk}
use tokenhush.Protocol.Writer.{
  BackfillWriter, new_backfill_writer, feed, flush, held_count, sse_backfill_holdback_bytes,
}
use tokenhush.Protocol.Sse.{Span, Event, Decoder, new_decoder}
use tokenhush.Redact.Grammar.{placeholder_prefix}
use tokenhush.Redact.Matcher.{placeholder_matcher}
use tokenhush.Redact.Tokens.{leaf_tokens, within_leaf_edits}
use tokenhush.Redact.Restore.{contains}

-- The restorer, the observer, `json.Valid`, `utf8.Valid` and the tokens of `encoding/json`.
pub record Host : Type 0 where
  pub restore : Bytes → Bytes
  pub observer : Option (Event → Option Bytes)
  pub json_valid : Bytes → Bool
  pub is_utf8 : Bytes → Bool
  pub decoder : JsonDecoder

abbrev pub walk_of : Host → Bytes → WalkResult
walk_of host value = walk host.is_utf8 host.decoder value

pub record FeedSpelling : Type 0 where
  pub spelled : List (Bytes × Bytes)
  pub json : Bool

pub record SseSegment : Type 0 where
  pub raw : Bytes
  pub span : Span
  pub content : Bytes
  pub has_span : Bool
  pub leaf : Bool
  pub extra_edits : List Edit

pub record CarryPart : Type 0 where
  pub seg : ℕ
  pub leaf : Leaf
  pub decoded_start : ℕ
  pub decoded_end : ℕ

pub record SseBackfiller : Type 0 where
  pub decoder : Decoder
  pub writer : BackfillWriter
  pub feed_spelling : FeedSpelling
  pub segments : List SseSegment
  pub tail : Bytes
  pub closed : Bool
  pub carry : Bytes
  pub carry_key : Bytes
  pub carry_parts : List CarryPart
  pub held_bytes : ℕ

abbrev pub new_sse_backfiller : SseBackfiller
new_sse_backfiller = record {
  decoder = new_decoder;
  writer = new_backfill_writer placeholder_matcher none;
  feed_spelling = record { spelled = []; json = false };
  segments = [];
  tail = [];
  closed = false;
  carry = [];
  carry_key = [];
  carry_parts = [];
  held_bytes = 0;
}

-- `Held`.
unfoldable pub held : SseBackfiller → ℕ
held s = held_count s.writer + length s.carry + s.held_bytes

unfoldable pub segment_value : SseSegment → Bytes
segment_value seg = slice seg.raw seg.span.start seg.span.end

-- `sseSegment.bytes`.
unfoldable pub segment_bytes : SseSegment → Bytes
segment_bytes seg =
    if not seg.has_span
    then seg.raw
    else take seg.span.start seg.raw ++ (seg.content ++ drop seg.span.end seg.raw)

unfoldable pub render_segments : List SseSegment → Bytes
render_segments [] = []
render_segments (seg ∷ segs) = segment_bytes seg ++ render_segments segs

-- `release`.
unfoldable pub release_segments : ℕ → SseBackfiller → Bytes × SseBackfiller
release_segments n s =
    (render_segments (take n s.segments), record s { segments = drop n s.segments })

unfoldable pub clear_carry : SseBackfiller → SseBackfiller
clear_carry s = record s { carry = []; carry_key = []; carry_parts = []; held_bytes = 0 }

unfoldable pub flush_held : SseBackfiller → Bytes × SseBackfiller
unfolding release_segments clear_carry
flush_held s = let (out, s') = release_segments (length s.segments) s in (out, clear_carry s')

unfoldable pub fits_budget : SseBackfiller → ℕ → Bool
fits_budget s add =
    leb (held_count s.writer + length s.carry + s.held_bytes + add) sse_backfill_holdback_bytes

abbrev pub as_leaf : SseSegment → Bytes → List Edit → SseSegment
as_leaf seg content extra = record seg { leaf = true; content = content; extra_edits = extra }

-- `holdSegment`, with the index of the segment.
unfoldable pub hold_segment : SseSegment → Bytes → List Edit → SseBackfiller → ℕ × SseBackfiller
hold_segment seg content extra s = (
  length s.segments,
  record s {
    held_bytes = s.held_bytes + (length seg.raw + length content);
    segments = s.segments ++ as_leaf seg content extra ∷ [];
  },
)

unfoldable pub emit_segment : SseSegment → Bytes → List Edit → SseBackfiller → SseBackfiller
emit_segment seg content extra s = record s {
  segments = s.segments ++ as_leaf seg content extra ∷ [];
}

-- A raw data segment.
abbrev pub is_raw : SseSegment → Bool
is_raw seg = not seg.leaf && seg.has_span

-- The loop of `handoffWriter`: the tail goes to the newest raw data segment.
unfoldable pub append_last_raw : Bytes → List SseSegment → Option (List SseSegment)
append_last_raw t [] = none
append_last_raw t (seg ∷ segs) = elim (append_last_raw t segs) [
  | some segs' ↦ some (seg ∷ segs')
  | none ↦ if is_raw seg then some (record seg { content = seg.content ++ t } ∷ segs) else none
]

unfoldable pub handoff_writer : SseBackfiller → SseBackfiller
unfolding flush
handoff_writer s =
    if held_count s.writer == 0 then s else elim (append_last_raw (flush s.writer).0 s.segments) [
      | none ↦ s
      | some segs ↦ record s { segments = segs; writer = (flush s.writer).1 }
    ]

unfoldable pub carry_referenced : List CarryPart → ℕ → Bool
carry_referenced [] n = false
carry_referenced (p ∷ ps) n = elim (p.seg == n) [ true ↦ true | false ↦ carry_referenced ps n ]

unfoldable pub has_later_raw : List SseSegment → Bool
has_later_raw [] = false
has_later_raw (seg ∷ segs) = elim (is_raw seg) [ true ↦ true | false ↦ has_later_raw segs ]

-- The loop of `drain`, from the segment of index `n` on.
unfoldable pub drain_loop : List CarryPart → ℕ → List SseSegment → ℕ
drain_loop parts n [] = n
drain_loop parts n (seg ∷ segs) =
    let rest = drain_loop parts (n + 1) segs in
    if (seg.leaf && carry_referenced parts n) || (is_raw seg && not (has_later_raw segs))
    then n
    else rest

unfoldable pub drain : SseBackfiller → Bytes × SseBackfiller
unfolding drain_loop release_segments
drain s = release_segments (drain_loop s.carry_parts 0 s.segments) s

-- `contentWith`.
unfoldable pub content_with : Host → Bytes → List Leaf → List Edit → Bytes
content_with host value leaves extra = elim (within_leaf_edits leaves host.restore ++ extra) [
  | [] ↦ value
  | e ∷ es ↦ (apply_edits value (e ∷ es)).0
]

unfoldable pub render_held : Host → SseSegment → SseSegment
render_held host seg = elim (walk_of host (segment_value seg)) [
  | walk_error e ↦ seg
  | walk_leaves leaves ↦ record seg {
    content = content_with host (segment_value seg) leaves seg.extra_edits;
  }
]

unfoldable pub edit_at : Host → ℕ → Edit → List SseSegment → List SseSegment
edit_at host i e [] = []
edit_at host zero e (seg ∷ segs) =
    render_held host (record seg { extra_edits = seg.extra_edits ++ e ∷ [] }) ∷ segs
edit_at host (suc i) e (seg ∷ segs) = seg ∷ edit_at host i e segs

-- The calls `editHeld(part, nil)` for every part.
unfoldable pub edit_parts : Host → List CarryPart → List SseSegment → List SseSegment
edit_parts host [] segs = segs
edit_parts host (p ∷ ps) segs = edit_parts host ps (
    edit_at host p.seg
      (record { leaf = p.leaf; start = p.decoded_start; end = p.decoded_end; replacement = [] })
      segs)
