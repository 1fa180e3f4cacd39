-- ===== src/Tests/Response.antt =====
-- The properties of the response path at concrete inputs.
use tokenhush.Base.{
  ◌≡◌, refl, inr, if◌then◌else◌, true, false, none, some, [], ◌∷◌, ◌++◌, Bytes, codes, bytes_eq,
  lookup, insert, index, All,
}
use tokenhush.Protocol.Identity.{itoa, decimal_loop}
use tokenhush.Protocol.Sse.{Event}
use tokenhush.Protocol.Sse.Lines.{raws}
use tokenhush.Protocol.Sse.Whole.{records, unread}
use tokenhush.Protocol.Walk.{broken}
use tokenhush.Redact.Reassembler.{Host}
use tokenhush.Proxy.Headers.{
  Text, Header, contains_name, split_loop, split_commas, values_of, connection_names, connections,
  skipped_names, copy_loop, copy_end_to_end_headers, delete_key, copy_request_headers,
}
use tokenhush.Proxy.Headers.Skipped.{IsNamed, headers_end_to_end}
use tokenhush.Proxy.Response.{
  response_allow, Gateway, Upstream, Monitor, delivered, coding_of, token_codings, declared_codings,
  decode_one, decode_all, decoded_body, backfill_body, client_header, judge_body, judge_sse,
  deliver, handle, decode_sse, events_loop, event_verdict, conclude, restore_sse,
  handle_buffered_sse,
}
use tokenhush.Proxy.Response.Passed.{passes_text, passes_event}
use tokenhush.Proxy.Response.Closed.{
  IsDelivery, handle_fails_closed, handle_buffered_sse_fails_closed,
}

abbrev plain_text : Text
plain_text = record { canonical = λ s. s; trim = λ s. s; lower = λ s. s; equal_fold = bytes_eq }

abbrev gateway : Gateway
gateway = record {
  evaluator = some (λ body.
      if bytes_eq body (codes "2")
      then none
      else some (record { action = response_allow; rule_ids = [] }));
  backfiller = some (λ body. body ++ codes "!");
  warns = true;
  text = plain_text;
  gunzip = λ body. some (codes "hi");
  inflate = λ body. none;
  quote = λ s. s;
  stream = record {
    restore = λ token. token;
    observer = none;
    json_valid = λ text. bytes_eq text (codes "1");
    is_utf8 = λ text. true;
    decoder = λ text. broken false;
  };
}

abbrev zipped : Upstream
zipped = record {
  status = 200;
  header =
      (codes "Content-Encoding", codes "gzip" ∷ [])
      ∷ (codes "Upgrade", codes "h2c" ∷ [])
      ∷ (codes "X-Id", codes "7" ∷ [])
      ∷ [];
  body = some (codes "zzz");
}

abbrev quiet : Monitor
quiet = record {
  requests = 0;
  redactions = 0;
  content_policy_blocks = 0;
  rule_blocks = 0;
  walk_skips = 0;
  warnings = [];
}

abbrev zipped_header : Header
zipped_header = (codes "X-Id", codes "7" ∷ []) ∷ (codes "Content-Length", codes "3" ∷ []) ∷ []

zipped_handled : (handle gateway zipped quiet).0 ≡ delivered 200 zipped_header (codes "hi!")
unfolding handle deliver decoded_body declared_codings token_codings coding_of decode_all decode_one
    judge_body backfill_body client_header copy_end_to_end_headers skipped_names copy_loop
    contains_name connections connection_names values_of split_commas split_loop delete_key itoa
    decimal_loop bytes_eq lookup insert
zipped_handled = refl

handle_fails_closed_example :
    (d : IsDelivery gateway zipped (backfill_body gateway) 200 zipped_header (codes "hi!"))
    × (passes_text gateway d.decoded ≡ true)
handle_fails_closed_example =
    handle_fails_closed gateway zipped quiet 200 zipped_header (codes "hi!") zipped_handled

-- A header whose `Connection` lists two names.
abbrev linked : Header
linked =
    (codes "X-Hop", codes "7" ∷ [])
    ∷ (codes "Connection", codes "close,X-Hop" ∷ [])
    ∷ (codes "X-Id", codes "7" ∷ [])
    ∷ []

linked_connection : lookup (codes "Connection") linked ≡ some (codes "close,X-Hop" ∷ [])
unfolding lookup bytes_eq
linked_connection = refl

linked-IsNamed : IsNamed plain_text linked (codes "X-Hop")
linked-IsNamed = record {
  values = codes "close,X-Hop" ∷ [];
  header = linked_connection;
  j = 0;
  first = codes "close";
  others = codes "X-Hop" ∷ [];
  value = refl;
  plain = (
    (refl, (refl, (refl, (refl, (refl, tt))))),
    ((refl, (refl, (refl, (refl, (refl, tt))))), tt),
  );
  k = 1;
  token = codes "X-Hop";
  listed = refl;
  c = b'X';
  name = codes "-Hop";
  trimmed = refl;
  spelled = refl;
}

headers_end_to_end_example :
    (lookup (codes "X-Hop") (copy_end_to_end_headers plain_text [] linked) ≡ none)
    × (lookup (codes "X-Hop") (copy_request_headers plain_text [] linked) ≡ none)
headers_end_to_end_example =
    headers_end_to_end plain_text linked (codes "X-Hop") (inr linked-IsNamed)

-- A stream of one event. Its data is JSON, so that the evaluator is asked.
abbrev stream_body : Bytes
stream_body = codes "data: 1\n\n"

abbrev streamed : Upstream
streamed = record { status = 200; header = []; body = some stream_body }

abbrev streamed_header : Header
streamed_header = (codes "Content-Length", codes "9" ∷ []) ∷ []

streamed_handled :
    (handle_buffered_sse gateway streamed quiet).0 ≡ delivered 200 streamed_header stream_body
unfolding handle_buffered_sse judge_sse restore_sse decode_sse events_loop event_verdict conclude
    backfill_body deliver decoded_body declared_codings token_codings coding_of decode_all
    decode_one client_header copy_end_to_end_headers skipped_names copy_loop contains_name
    connections connection_names values_of split_commas split_loop delete_key itoa decimal_loop
    insert bytes_eq index lookup tokenhush.Protocol.Identity.capture_scalar
    tokenhush.Protocol.Identity.child tokenhush.Protocol.Identity.flatten_scalars
    tokenhush.Protocol.Identity.join_identity tokenhush.Protocol.Identity.next_occurrence
    tokenhush.Protocol.Identity.render_scalars tokenhush.Protocol.Spelling.escape_byte
    tokenhush.Protocol.Spelling.escape_json_string tokenhush.Protocol.Sse.add_data
    tokenhush.Protocol.Sse.close tokenhush.Protocol.Sse.dispatch tokenhush.Protocol.Sse.event_of
    tokenhush.Protocol.Sse.feed tokenhush.Protocol.Sse.field tokenhush.Protocol.Sse.index_colon
    tokenhush.Protocol.Sse.line_loop tokenhush.Protocol.Sse.line_step
    tokenhush.Protocol.Sse.next_line tokenhush.Protocol.Sse.reset tokenhush.Protocol.Sse.scan_lines
    tokenhush.Protocol.Sse.set_field tokenhush.Protocol.Sse.strip_space
    tokenhush.Protocol.Walk.advance tokenhush.Protocol.Walk.append_leaf
    tokenhush.Protocol.Walk.child_segment tokenhush.Protocol.Walk.close_step
    tokenhush.Protocol.Walk.emit_leaf tokenhush.Protocol.Walk.inner_or_literal
    tokenhush.Protocol.Walk.join_segs tokenhush.Protocol.Walk.literal_leaf
    tokenhush.Protocol.Walk.open_step tokenhush.Protocol.Walk.scalar_step
    tokenhush.Protocol.Walk.string_step tokenhush.Protocol.Walk.token_step
    tokenhush.Protocol.Walk.walk tokenhush.Protocol.Walk.walk_document
    tokenhush.Protocol.Walk.walk_value tokenhush.Protocol.Writer.at_token
    tokenhush.Protocol.Writer.held_count tokenhush.Protocol.Writer.may_grow
    tokenhush.Protocol.Writer.replacement tokenhush.Redact.Grammar.hex_run
    tokenhush.Redact.Grammar.is_hex_digit tokenhush.Redact.Matcher.better
    tokenhush.Redact.Matcher.byte_is tokenhush.Redact.Matcher.digest_loop
    tokenhush.Redact.Matcher.is_placeholder_prefix tokenhush.Redact.Matcher.prefix_len
    tokenhush.Redact.Matcher.prefix_scan tokenhush.Redact.Matcher.suffix_at
    tokenhush.Redact.Matcher.token_len tokenhush.Redact.Matcher.try_type
    tokenhush.Redact.Matcher.type_loop tokenhush.Redact.Reassembler.Accept.accept_idle
    tokenhush.Redact.Reassembler.Accept.accept_leaf
    tokenhush.Redact.Reassembler.Accept.accept_leaves
    tokenhush.Redact.Reassembler.Accept.drain_after tokenhush.Redact.Reassembler.Run.accept
    tokenhush.Redact.Reassembler.Run.accept_data tokenhush.Redact.Reassembler.Run.accept_raw
    tokenhush.Redact.Reassembler.Run.append_pending tokenhush.Redact.Reassembler.Run.consume
    tokenhush.Redact.Reassembler.Run.drop_tail tokenhush.Redact.Reassembler.Run.finish
    tokenhush.Redact.Reassembler.Run.flush_pending tokenhush.Redact.Reassembler.Run.is_pending
    tokenhush.Redact.Reassembler.Run.observed tokenhush.Redact.Reassembler.Run.process
    tokenhush.Redact.Reassembler.Run.write tokenhush.Redact.Reassembler.Run.write_all
    tokenhush.Redact.Reassembler.Spell.replace_token tokenhush.Redact.Reassembler.Spell.spell_feed
    tokenhush.Redact.Reassembler.Spell.spell_leaves tokenhush.Redact.Reassembler.emit_segment
    tokenhush.Redact.Reassembler.handoff_writer tokenhush.Redact.Reassembler.has_later_raw
    tokenhush.Redact.Reassembler.held tokenhush.Redact.Reassembler.render_segments
    tokenhush.Redact.Reassembler.segment_bytes tokenhush.Redact.Reassembler.segment_value
    tokenhush.Redact.Restore.contains tokenhush.Redact.Tokens.has_identifiable_leaf
    tokenhush.Redact.Tokens.prefix_at_loop tokenhush.Redact.Tokens.smallest_prefix_at
    tokenhush.Redact.Tokens.trailing_loop tokenhush.Redact.Tokens.trailing_of
    tokenhush.Redact.Tokens.trailing_prefix
streamed_handled = refl

handle_buffered_sse_fails_closed_example :
    (d : IsDelivery gateway streamed (restore_sse gateway) 200 streamed_header stream_body) × (raws
          (records d.decoded)
        ++ unread d.decoded
      ≡ d.decoded)
    × All (λ (ev : Event). passes_event gateway ev ≡ true) (records d.decoded)
handle_buffered_sse_fails_closed_example =
    handle_buffered_sse_fails_closed gateway streamed quiet 200 streamed_header stream_body
      streamed_handled
