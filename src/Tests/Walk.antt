-- ===== src/Tests/Walk.antt =====
-- The properties of spans, edits and the walk at concrete inputs.
use tokenhush.Base.{
  ◌≡◌, refl, ◌≤◌, ◌<◌, ◌+◌, true, false, some, List, [], ◌∷◌, ◌++◌, Bytes, codes, length, arith,
  All, bytes_eq, if◌then◌else◌, map, index, lookup, insert, has_prefix,
}
use tokenhush.Protocol.Spelling.{RawToken, root, inner}
use tokenhush.Protocol.Leaf.{Leaf, plain_leaf}
use tokenhush.Protocol.Span.{
  raw_span, raw_span_loop, map_span, decoded_len, decoded_loop, next_unit, rune_size, is_between,
  is_short_escape, map_loop,
}
use tokenhush.Protocol.Span.Mapped.{outer_start, outer_raw, raw_span_bounds}
use tokenhush.Protocol.Edit.{
  Edit, Candidate, kept, candidates, apply_edits, splice_all, keep_apart, sort_candidates,
  candidate, insert_candidate, splice,
}
use tokenhush.Protocol.Edit.Splice.{render, IsApart}
use tokenhush.Protocol.Edit.Chosen.{IsCandidate, apply_refines}
use tokenhush.Protocol.Edit.Complete.{Served}
use tokenhush.Protocol.Walk.{
  open_array, closes, string_token, eof, broken, lexeme, JsonDecoder, walk_leaves, walk,
  walk_document, append_leaf, inner_or_literal, literal_leaf, walk_value, token_step, string_step,
  open_step, close_step, emit_leaf, advance, child_segment, join_segs, token_node, replace_byte,
  escape_pointer,
}
use tokenhush.Protocol.Identity.{
  child, member_key, flatten_scalars, next_occurrence, join_identity, render_scalars, itoa,
  decimal_loop,
}
use tokenhush.Protocol.Walk.Leaves.{IsWalked, walk_leaves_lem}

-- The document `["x\ny"]`, with its newline escaped.
abbrev escaped_body : Bytes
escaped_body = codes "[\"x\\ny\"]"

abbrev escaped_leaf : Leaf
escaped_leaf = record (plain_leaf (codes "x\ny")) { tok = some (root (codes "x\\ny") 1) }

located : raw_span escaped_leaf 1 2 ≡ some (3, 5)
unfolding raw_span raw_span_loop map_span decoded_len decoded_loop next_unit rune_size is_between
    is_short_escape map_loop
located = refl

raw_span_bounds_example :
    (tok : RawToken) × (escaped_leaf.tok ≡ some tok)
    × (3 < 5)
    × (outer_start tok < 3)
    × (5 ≤ outer_start tok + 1 + length (outer_raw tok))
raw_span_bounds_example = raw_span_bounds escaped_leaf 1 2 3 5 (omega arith) located

abbrev two_edits : List Edit
two_edits =
    record { leaf = escaped_leaf; start = 1; end = 3; replacement = codes "--" }
    ∷ record { leaf = escaped_leaf; start = 0; end = 2; replacement = codes "P" }
    ∷ []

apply_refines_example :
    All (IsCandidate escaped_body two_edits) (kept escaped_body two_edits)
    × IsApart (length escaped_body) 0 (kept escaped_body two_edits)
    × (apply_edits escaped_body two_edits ≡ (
      render escaped_body 0 (kept escaped_body two_edits),
      map (λ (c : Candidate). c.idx) (kept escaped_body two_edits),
    ))
    × All (Served escaped_body (kept escaped_body two_edits)) two_edits
apply_refines_example = apply_refines escaped_body two_edits

applied : apply_edits escaped_body two_edits ≡ (codes "[\"Py\"]", 1 ∷ [])
unfolding apply_edits kept splice_all keep_apart sort_candidates candidates candidate raw_span
    raw_span_loop map_span decoded_len decoded_loop next_unit rune_size is_between is_short_escape
    map_loop bytes_eq insert_candidate splice
applied = refl

-- The document `"[\"ab\"]"`: a string that holds an array of one string.
abbrev nested_text : Bytes
nested_text = codes "\"[\\\"ab\\\"]\""

abbrev nested_inner : Bytes
nested_inner = codes "[\"ab\"]"

abbrev nested_decoder : JsonDecoder
nested_decoder text =
    if bytes_eq text nested_text
    then lexeme (string_token nested_inner) 0 10 eof
    else if bytes_eq text nested_inner
    then lexeme open_array 0 1 (lexeme (string_token (codes "ab")) 1 5 (lexeme closes 5 6 eof))
    else broken false

abbrev nested_leaf : Leaf
nested_leaf = record {
  path = codes "/0";
  value = codes "ab";
  length_of = 2;
  encoded = true;
  member = false;
  key = [];
  identity = b'/' ∷ b'0' ∷ 31 ∷ b'0' ∷ [];
  identifiable = true;
  tok = some (inner (codes "ab") 1 (root (codes "[\\\"ab\\\"]") 0));
}

walked : walk (λ _. true) nested_decoder nested_text ≡ walk_leaves (nested_leaf ∷ [])
unfolding walk walk_document append_leaf inner_or_literal literal_leaf walk_value token_step
    string_step open_step close_step emit_leaf advance child_segment join_segs token_node child
    member_key flatten_scalars next_occurrence join_identity render_scalars itoa decimal_loop
    bytes_eq index lookup insert has_prefix replace_byte escape_pointer
walked = refl

walk_leaves_lem_example : All (IsWalked nested_decoder nested_text) (nested_leaf ∷ [])
walk_leaves_lem_example =
    walk_leaves_lem (λ _. true) nested_decoder nested_text (nested_leaf ∷ []) walked

-- A key may hold the separator, so two leaves can have one identity.
identities_meet :
    join_identity (codes "/a" ++ (31 ∷ codes "n=1")) [] 0
    ≡ join_identity (codes "/a") (record { name = codes "n"; raw = codes "1" } ∷ []) 0
unfolding join_identity render_scalars
identities_meet = refl
