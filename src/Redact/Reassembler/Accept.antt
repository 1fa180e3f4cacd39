-- ===== src/Redact/Reassembler/Accept.antt =====
-- `acceptLeaf` of pkg/redact/sse_leaf.go, with one function for each of its branches.
use tokenhush.Base.{
  ℕ, ◌+◌, ◌-◌, Bool, true, false, not, ◌&&◌, ◌||◌, none, some, List, [], ◌∷◌, ◌++◌, Bytes, ltb,
  ◌==◌, if◌then◌else◌, length, take, bytes_eq,
}
use tokenhush.Protocol.Spelling.{raw_spelling, escape_json_string}
use tokenhush.Protocol.Leaf.{Leaf}
use tokenhush.Protocol.Edit.{Edit}
use tokenhush.Protocol.Walk.{walk_leaves, walk_error}
use tokenhush.Redact.Grammar.{max_placeholder_len}
use tokenhush.Redact.Matcher.{token_len, prefix_len}
use tokenhush.Redact.Tokens.{
  Trailing, has_identifiable_leaf, unique_identity_match, trailing_prefix, trailing_prefix_after,
}
use tokenhush.Redact.Reassembler.{
  Host, walk_of, SseSegment, CarryPart, SseBackfiller, segment_value, release_segments, flush_held,
  fits_budget, hold_segment, emit_segment, handoff_writer, drain, content_with, edit_parts,
}

unfoldable pub first_non_space : Bytes → ℕ
first_non_space [] = 0
first_non_space (c ∷ s) = elim (c == b' ' || c == b'\t' || c == b'\r' || c == b'\n') [
  | true ↦ first_non_space s
  | false ↦ c
]

unfoldable pub origin_torn_inner : Host → Leaf → Bool
origin_torn_inner host l =
    if l.encoded || host.json_valid l.value
    then false
    else (let c = first_non_space l.value in c == b'{' || c == b'[')

unfoldable pub keep_placeholder : Host → Leaf → Bytes → Bool
keep_placeholder host origin secret =
    origin_torn_inner host origin && not (bytes_eq (escape_json_string secret) secret)

-- The part of a carry that begins in a segment.
abbrev pub new_part : ℕ → Leaf → Bytes → CarryPart
new_part seg leaf p = record {
  seg = seg;
  leaf = leaf;
  decoded_start = length leaf.value - length p;
  decoded_end = length leaf.value;
}

-- A segment is held, with a new carry that begins in it.
unfoldable pub start_carry :
    SseSegment → Bytes → List Edit → Bytes → Leaf → SseBackfiller → SseBackfiller
unfolding hold_segment
start_carry seg content extra p leaf s =
    let (cur, s') = hold_segment seg content extra s in
    record s' { carry = p; carry_key = leaf.identity; carry_parts = new_part cur leaf p ∷ [] }

-- `if ok && fitsBudget(...) { hold } else { emit }`, where no carry is open any more.
unfoldable pub settle : SseSegment → Bytes → List Edit → Trailing → SseBackfiller → SseBackfiller
settle seg content extra none s = emit_segment seg content [] s
settle seg content extra (some (p, leaf)) s =
    if fits_budget s (length seg.raw + length content + length p)
    then start_carry seg content extra p leaf s
    else emit_segment seg content [] s

-- `return append(out, s.drain()...)`.
unfoldable pub drain_after : Bytes × SseBackfiller → Bytes × SseBackfiller
unfolding drain
drain_after (out, s) = let (more, s') = drain s in (out ++ more, s')

-- No carry is open.
unfoldable pub accept_idle : SseSegment → Bytes → Trailing → SseBackfiller → Bytes × SseBackfiller
accept_idle seg content none s = drain_after ([], emit_segment seg content [] s)
accept_idle seg content (some (p, leaf)) s =
    if fits_budget s (length seg.raw + length content + length p)
    then (let (out, s') = release_segments (length s.segments) s in
        drain_after (out, start_carry seg content [] p leaf s'))
    else drain_after ([], emit_segment seg content [] s)

-- The carry is dropped, and the event begins anew.
unfoldable pub accept_other : SseSegment → Bytes → Trailing → SseBackfiller → Bytes × SseBackfiller
unfolding flush_held
accept_other seg content last s =
    let (out, s') = flush_held s in drain_after (out, settle seg content [] last s')

-- The carry is dropped, and the event stands by itself.
unfoldable pub accept_alone : SseSegment → Bytes → SseBackfiller → Bytes × SseBackfiller
unfolding flush_held
accept_alone seg content s =
    let (out, s') = flush_held s in drain_after (out, emit_segment seg content [] s')

-- The token is complete in `match_leaf`, behind `k` of its bytes, and stands for `secret`.
unfoldable pub accept_complete :
    Host → SseSegment → Bytes → List Leaf → Leaf → ℕ → Bytes → SseBackfiller → Bytes × SseBackfiller
unfolding flush_held
accept_complete host seg value leaves match_leaf k secret s =
    let (out, s') = flush_held (record s { segments = edit_parts host s.carry_parts s.segments }) in
    let extra : List Edit =
      record {
        leaf = match_leaf;
        start = 0;
        end = k;
        replacement = raw_spelling match_leaf.tok secret;
      }
      ∷ [] in
    let content = content_with host value leaves extra in
    drain_after (out, settle seg content extra (trailing_prefix_after leaves match_leaf k) s')

-- The carry goes on through the whole of `match_leaf`.
unfoldable pub accept_more :
    SseSegment → Bytes → Leaf → Bytes → SseBackfiller → Bytes × SseBackfiller
unfolding hold_segment
accept_more seg content match_leaf combined s =
    let (cur, s') = hold_segment seg content [] s in
    drain_after (
      [],
      record s' {
        carry = combined;
        carry_parts =
            s'.carry_parts
            ++ record {
              seg = cur;
              leaf = match_leaf;
              decoded_start = 0;
              decoded_end = length match_leaf.value;
            }
              ∷ [];
      },
    )

-- `origin := s.carryParts[0].leaf`; a carry has a part, and with none the code would panic.
unfoldable pub keeps_origin : Host → List CarryPart → Bytes → Bool
keeps_origin host [] secret = false
keeps_origin host (p ∷ ps) secret = keep_placeholder host p.leaf secret

-- A carry is open and `match_leaf` goes on with it.
unfoldable pub accept_match :
    Host → SseSegment → Bytes → List Leaf → Leaf → SseBackfiller → Bytes × SseBackfiller
accept_match host seg value leaves match_leaf s =
    let combined = s.carry ++ match_leaf.value in
    let t = token_len combined in
    let secret = host.restore (take t combined) in
    let content = content_with host value leaves [] in
    if ltb (length s.carry) t
    then (if bytes_eq secret (take t combined) || keeps_origin host s.carry_parts secret
        then accept_alone seg content s
        else accept_complete host seg value leaves match_leaf (t - length s.carry) secret s)
    else if not (prefix_len combined == length combined)
        || ltb max_placeholder_len (length combined)
        || not (fits_budget s (length seg.raw + length content + length match_leaf.value))
    then accept_alone seg content s
    else accept_more seg content match_leaf combined s

-- A usable JSON envelope with its leaves.
unfoldable pub accept_leaves :
    Host → SseSegment → Bytes → List Leaf → SseBackfiller → Bytes × SseBackfiller
accept_leaves host seg value leaves s =
    let content = content_with host value leaves [] in
    let last = trailing_prefix leaves in
    if length s.carry == 0
    then accept_idle seg content last s
    else elim (unique_identity_match leaves s.carry_key) [
      | none ↦ accept_other seg content last s
      | some match_leaf ↦ accept_match host seg value leaves match_leaf s
    ]

pub data Handled : Type 0 where
  handled : Bytes → SseBackfiller → Handled
  unhandled : SseBackfiller → Handled

unfoldable pub accept_leaf : Host → SseSegment → SseBackfiller → Handled
accept_leaf host seg s =
    let value = segment_value seg in
    if not (host.json_valid value) then unhandled s else elim (walk_of host value) [
      | walk_error e ↦ unhandled (handoff_writer s)
      | walk_leaves leaves ↦
          if not (has_identifiable_leaf leaves)
          then unhandled (handoff_writer s)
          else (let (out, s') = accept_leaves host seg value leaves (handoff_writer s) in
              handled out s')
    ]
