-- ===== src/Tests/Reassembler.antt =====
-- The properties of the stream reassembler at concrete inputs.
use tokenhush.Base.{
  ◌≡◌, refl, ◌≤◌, true, false, none, List, [], ◌∷◌, ◌++◌, Bytes, codes, bytes_eq, index, lookup,
  if◌then◌else◌,
}
use tokenhush.Protocol.Writer.{sse_backfill_holdback_bytes}
use tokenhush.Protocol.Walk.{
  Token, open_object, open_array, closes, scalar, string_token, Lexemes, eof, broken, lexeme,
  JsonDecoder,
}
use tokenhush.Redact.Reassembler.{Host, new_sse_backfiller, held}
use tokenhush.Redact.Reassembler.Run.{write, finish, write_all, process}
use tokenhush.Redact.Reassembler.Sound.{IsCarry}
use tokenhush.Redact.Reassembler.Budget.{held_budget, finish_ends}

-- A document whose two keys hold the head and the end of a token.
abbrev keys_value : Bytes
keys_value = codes "{\"__PII_\":0,\"_0123456789ab__\":1}"

abbrev keys_host : Host
keys_host = record {
  restore = λ token. token;
  observer = none;
  json_valid = λ text. bytes_eq text keys_value;
  is_utf8 = λ text. true;
  decoder = λ text. lexeme open_object 0 1 (
      lexeme (string_token (codes "__PII_")) 1 9 (
        lexeme scalar 9 11 (
          lexeme (string_token (codes "_0123456789ab__")) 11 29
            (lexeme scalar 29 31 (lexeme closes 31 32 eof)))));
}

abbrev keys_stream : Bytes
keys_stream = codes "data: " ++ (keys_value ++ codes "\n\n")

abbrev keys_out : Bytes
keys_out = (process keys_host keys_stream new_sse_backfiller).0

-- A value with no placeholder of any secret is changed: `TokenLen` reads the syntax between the keys
-- as a type, and the text of the foreign token is escaped.
keys_escaped : keys_out ≡ codes "data: {\"__PII_\\\":0,\\\"_0123456789ab__\":1}\n\n"
unfolding tokenhush.Protocol.Sse.line_loop tokenhush.Protocol.Sse.next_line
    tokenhush.Protocol.Sse.index_colon tokenhush.Protocol.Sse.add_data
    tokenhush.Protocol.Sse.set_field tokenhush.Protocol.Sse.strip_space tokenhush.Protocol.Sse.field
    tokenhush.Protocol.Sse.event_of tokenhush.Protocol.Sse.reset tokenhush.Protocol.Sse.dispatch
    tokenhush.Protocol.Sse.line_step tokenhush.Protocol.Sse.scan_lines tokenhush.Protocol.Sse.feed
    tokenhush.Protocol.Sse.close tokenhush.Protocol.Writer.replacement
    tokenhush.Protocol.Writer.at_token tokenhush.Protocol.Writer.may_grow
    tokenhush.Protocol.Writer.held_count tokenhush.Redact.Grammar.is_hex_digit
    tokenhush.Redact.Grammar.hex_run tokenhush.Redact.Matcher.byte_is
    tokenhush.Redact.Matcher.suffix_at tokenhush.Redact.Matcher.digest_loop
    tokenhush.Redact.Matcher.try_type tokenhush.Redact.Matcher.better
    tokenhush.Redact.Matcher.type_loop tokenhush.Redact.Matcher.token_len
    tokenhush.Redact.Matcher.is_placeholder_prefix tokenhush.Redact.Matcher.prefix_scan
    tokenhush.Redact.Matcher.prefix_len tokenhush.Redact.Tokens.has_identifiable_leaf
    tokenhush.Redact.Restore.contains tokenhush.Redact.Reassembler.segment_value
    tokenhush.Redact.Reassembler.segment_bytes tokenhush.Redact.Reassembler.render_segments
    tokenhush.Redact.Reassembler.handoff_writer tokenhush.Redact.Reassembler.Spell.spell_leaves
    tokenhush.Redact.Reassembler.Spell.spell_feed tokenhush.Redact.Reassembler.Spell.replace_token
    tokenhush.Redact.Reassembler.Accept.accept_leaf tokenhush.Redact.Reassembler.Run.is_pending
    tokenhush.Redact.Reassembler.Run.accept_raw tokenhush.Redact.Reassembler.Run.accept_data
    tokenhush.Redact.Reassembler.Run.accept tokenhush.Redact.Reassembler.Run.drop_tail
    tokenhush.Redact.Reassembler.Run.observed tokenhush.Redact.Reassembler.Run.consume
    tokenhush.Redact.Reassembler.Run.write tokenhush.Redact.Reassembler.Run.append_pending
    tokenhush.Redact.Reassembler.Run.flush_pending tokenhush.Redact.Reassembler.Run.finish
    tokenhush.Redact.Reassembler.Run.process tokenhush.Protocol.Walk.advance
    tokenhush.Protocol.Walk.open_step tokenhush.Protocol.Walk.close_step
    tokenhush.Protocol.Walk.string_step tokenhush.Protocol.Walk.scalar_step
    tokenhush.Protocol.Walk.token_step tokenhush.Protocol.Walk.walk_value
    tokenhush.Protocol.Walk.walk_document tokenhush.Protocol.Walk.walk
    tokenhush.Protocol.Identity.capture_scalar tokenhush.Protocol.Spelling.escape_byte
    tokenhush.Protocol.Spelling.escape_json_string bytes_eq index lookup
keys_escaped = refl

-- A line that is no JSON, then two envelopes.
abbrev stalled_host : Host
stalled_host = record {
  restore = λ token. token;
  observer = none;
  json_valid = λ text. bytes_eq text (codes "[\"a\"]");
  is_utf8 = λ text. true;
  decoder = λ text.
      if bytes_eq text (codes "[\"a\"]")
      then lexeme open_array 0 1 (lexeme (string_token (codes "a")) 1 4 (lexeme closes 4 5 eof))
      else broken false;
}

abbrev stalled_chunks : List Bytes
stalled_chunks = codes "data: x\n\n" ∷ codes "data: [\"a\"]\n\n" ∷ codes "data: [\"a\"]\n\n" ∷ []

-- Nothing leaves, and nothing counts as held.
stalled :
    ((write_all stalled_host stalled_chunks new_sse_backfiller).0 ≡ [])
    × (held (write_all stalled_host stalled_chunks new_sse_backfiller).1 ≡ 0)
unfolding tokenhush.Protocol.Sse.line_loop tokenhush.Protocol.Sse.next_line
    tokenhush.Protocol.Sse.index_colon tokenhush.Protocol.Sse.add_data
    tokenhush.Protocol.Sse.set_field tokenhush.Protocol.Sse.strip_space tokenhush.Protocol.Sse.field
    tokenhush.Protocol.Sse.event_of tokenhush.Protocol.Sse.reset tokenhush.Protocol.Sse.dispatch
    tokenhush.Protocol.Sse.line_step tokenhush.Protocol.Sse.scan_lines tokenhush.Protocol.Sse.feed
    tokenhush.Protocol.Writer.at_token tokenhush.Protocol.Writer.may_grow
    tokenhush.Protocol.Writer.held_count tokenhush.Redact.Matcher.token_len
    tokenhush.Redact.Matcher.is_placeholder_prefix tokenhush.Redact.Matcher.prefix_scan
    tokenhush.Redact.Matcher.prefix_len tokenhush.Redact.Tokens.has_identifiable_leaf
    tokenhush.Redact.Tokens.prefix_at_loop tokenhush.Redact.Tokens.smallest_prefix_at
    tokenhush.Redact.Tokens.trailing_of tokenhush.Redact.Tokens.trailing_loop
    tokenhush.Redact.Tokens.trailing_prefix tokenhush.Redact.Reassembler.held
    tokenhush.Redact.Reassembler.segment_value tokenhush.Redact.Reassembler.render_segments
    tokenhush.Redact.Reassembler.emit_segment tokenhush.Redact.Reassembler.handoff_writer
    tokenhush.Redact.Reassembler.has_later_raw tokenhush.Redact.Reassembler.Accept.drain_after
    tokenhush.Redact.Reassembler.Accept.accept_idle
    tokenhush.Redact.Reassembler.Accept.accept_leaves
    tokenhush.Redact.Reassembler.Accept.accept_leaf tokenhush.Redact.Reassembler.Run.accept_raw
    tokenhush.Redact.Reassembler.Run.accept_data tokenhush.Redact.Reassembler.Run.accept
    tokenhush.Redact.Reassembler.Run.drop_tail tokenhush.Redact.Reassembler.Run.observed
    tokenhush.Redact.Reassembler.Run.consume tokenhush.Redact.Reassembler.Run.write
    tokenhush.Redact.Reassembler.Run.write_all tokenhush.Protocol.Walk.child_segment
    tokenhush.Protocol.Walk.advance tokenhush.Protocol.Walk.join_segs
    tokenhush.Protocol.Walk.emit_leaf tokenhush.Protocol.Walk.open_step
    tokenhush.Protocol.Walk.close_step tokenhush.Protocol.Walk.string_step
    tokenhush.Protocol.Walk.token_step tokenhush.Protocol.Walk.walk_value
    tokenhush.Protocol.Walk.walk_document tokenhush.Protocol.Walk.literal_leaf
    tokenhush.Protocol.Walk.inner_or_literal tokenhush.Protocol.Walk.append_leaf
    tokenhush.Protocol.Walk.walk tokenhush.Protocol.Identity.decimal_loop
    tokenhush.Protocol.Identity.itoa tokenhush.Protocol.Identity.flatten_scalars
    tokenhush.Protocol.Identity.child tokenhush.Protocol.Identity.next_occurrence
    tokenhush.Protocol.Identity.render_scalars tokenhush.Protocol.Identity.join_identity bytes_eq
    index lookup
stalled = (refl, refl)

held_budget_example :
    (held (write_all stalled_host stalled_chunks new_sse_backfiller).1
      ≤ sse_backfill_holdback_bytes)
    × IsCarry (write_all stalled_host stalled_chunks new_sse_backfiller).1
    × (held (finish stalled_host (write_all stalled_host stalled_chunks new_sse_backfiller).1).1
        ≤ sse_backfill_holdback_bytes)
    × IsCarry (finish stalled_host (write_all stalled_host stalled_chunks new_sse_backfiller).1).1
held_budget_example = held_budget stalled_host stalled_chunks

finish_ends_example :
    ((finish keys_host (write_all keys_host (keys_stream ∷ []) new_sse_backfiller).1).1.closed
      ≡ true)
    × (write keys_host keys_stream
          (finish keys_host (write_all keys_host (keys_stream ∷ []) new_sse_backfiller).1).1
        ≡ ([], (finish keys_host (write_all keys_host (keys_stream ∷ []) new_sse_backfiller).1).1))
    × (finish keys_host
          (finish keys_host (write_all keys_host (keys_stream ∷ []) new_sse_backfiller).1).1
        ≡ ([], (finish keys_host (write_all keys_host (keys_stream ∷ []) new_sse_backfiller).1).1))
finish_ends_example = finish_ends keys_host (keys_stream ∷ []) keys_stream
