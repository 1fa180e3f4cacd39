-- ===== src/Redact/Reassembler/Spell.antt =====
-- `spellFeed` and `replace` of pkg/redact/sse_spelling.go, and the feed of a data value.
use tokenhush.Base.{false, not, none, some, List, [], ◌∷◌, Bytes, if◌then◌else◌, lookup, insert}
use tokenhush.Protocol.Spelling.{raw_spelling, escape_json_string}
use tokenhush.Protocol.Leaf.{Leaf}
use tokenhush.Protocol.Walk.{walk_leaves, walk_error}
use tokenhush.Protocol.Writer.{feed}
use tokenhush.Redact.Grammar.{placeholder_prefix}
use tokenhush.Redact.Tokens.{leaf_tokens}
use tokenhush.Redact.Restore.{contains}
use tokenhush.Redact.Reassembler.{Host, walk_of, FeedSpelling, SseBackfiller}

-- The loops of `spellFeed`.
unfoldable pub spell_tokens : Host → Leaf → List Bytes → List (Bytes × Bytes) → List (Bytes × Bytes)
spell_tokens host leaf [] spelled = spelled
spell_tokens host leaf (token ∷ ts) spelled =
    spell_tokens host leaf ts (insert token (raw_spelling leaf.tok (host.restore token)) spelled)

unfoldable pub spell_leaves : Host → List Leaf → List (Bytes × Bytes) → List (Bytes × Bytes)
spell_leaves host [] spelled = spelled
spell_leaves host (leaf ∷ leaves) spelled =
    spell_leaves host leaves (spell_tokens host leaf (leaf_tokens leaf.value) spelled)

unfoldable pub spell_feed : Host → Bytes → FeedSpelling
spell_feed host value =
    if not (contains value placeholder_prefix)
    then record { spelled = []; json = false }
    else record {
      spelled = elim (walk_of host value) [
        | walk_error e ↦ []
        | walk_leaves leaves ↦ spell_leaves host leaves []
      ];
      json = host.json_valid value;
    }

-- `replace`.
unfoldable pub replace_token : Host → FeedSpelling → Bytes → Bytes
replace_token host spelling token = elim (lookup token spelling.spelled) [
  | some spelled ↦ spelled
  | none ↦ if spelling.json then escape_json_string (host.restore token) else host.restore token
]

-- `spellFeed` and `Feed` of one data value.
unfoldable pub feed_value : Host → Bytes → SseBackfiller → Bytes × SseBackfiller
unfolding feed
feed_value host value s =
    let spelling = spell_feed host value in
    let (out, w) =
      feed (record s.writer { replace = some (λ t. some (replace_token host spelling t)) }) value in
    (out, record s { feed_spelling = spelling; writer = w })
