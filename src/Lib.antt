-- ===== src/Lib.antt =====
-- A verification library for tokenhush, a local gateway that replaces secrets in requests by
-- placeholders and puts the secrets back into the answers.
--
-- The program's parts and the files that model them:
--   Protocol/Writer    pkg/protocol/backfill.go: `BackfillWriter`, which rewrites the tokens of a byte
--                      stream that arrives in chunks. The state is the bytes held back; `feed`,
--                      `flush` and `held_count` are its operations, `scan` is the loop of `release`.
--   Protocol/Spelling  pkg/protocol/spelling.go: the JSON escaping of a restored secret, once for each
--                      string wrapper of the token chain.
--   Protocol/Sse       pkg/protocol/sse.go: `Decoder`, the incremental decoder of server-sent events,
--                      with its whole state; `feed` and `close` are `Feed` and `Close`.
--   Protocol/Leaf      `Leaf` of pkg/protocol/walk.go, which the walk gives and the filter reads.
--   Protocol/Walk      pkg/protocol/walk.go: `Walk`, with the stack of open containers as its state and
--                      one function per kind of token; `append_leaf` reads a string as a document.
--   Protocol/Identity  pkg/protocol/identity.go: the channel identity of a leaf.
--   Protocol/Span      pkg/protocol/span.go: `RawSpan`, from a decoded span to its raw bytes through
--                      every wrapper.
--   Protocol/Edit      pkg/protocol/span.go: `Apply`, which splices edits into a body.
--   Redact/Grammar     the geometry of placeholders (pkg/redact/placeholder.go) and their character
--                      classes (pkg/redact/sse_backfill.go).
--   Redact/Matcher     `placeholderMatcher` of pkg/redact/sse_backfill.go, which is the `TokenMatcher`
--                      that the stream rewriter is given.
--   Redact/Placeholder `engine` of pkg/redact/placeholder.go: the forward map of a session.
--   Redact/Backfiller  `Backfiller` of pkg/redact/backfill.go and exclusion.go: the reverse map and the
--                      exclusion set. `mint` calls the engine and records what it returned.
--   Redact/Session     any sequence of `Mint` calls on one engine and one reverse map.
--   Redact/Restore     whole bodies: `BackfillCount` of pkg/redact/backfill.go, `Substitute` of
--                      substitute.go and `redactBody` of forward_writer.go.
--   Redact/Tokens      pkg/redact/sse_leaf_scan.go: tokens and unfinished placeholders in leaves.
--   Redact/Reassembler `SSEBackfiller` of pkg/redact/sse_backfill.go, sse_leaf.go and sse_spelling.go.
--                      The state holds a decoder, a stream rewriter, the queue of segments and the
--                      carry; `accept_leaf` has one function per branch, and `write` and `finish` are
--                      `Write` and `Flush`.
--   Filter/Rule        what a rule is seen through, and its guard `invoke` (pkg/filter/registry.go).
--   Filter/Sensitive   the sensitive-key gate (pkg/filter/sensitive.go) and the allowlist test
--                      `insideOccurrence` (pkg/filter/evaluate.go).
--   Filter/Collect     `collect` of pkg/filter/collect.go: all rules over all leaves, the gate, the
--                      match budget and the order of the findings.
--   Filter/Evaluate    `Compiled.Evaluate` of pkg/filter/evaluate.go: keywords, expressions, primitives,
--                      the allowlists, the sensitive-key gate and the blocklist of a compiled set.
--   Filter/Policy      `Policy.Decide` of pkg/filter/policy.go: the verdict of a content phase.
--   Filter/Luhn        the payment-card detector of pkg/filter/primitive_luhn.go.
--   Filter/Floor       `FloorBaseline.Check` of pkg/filter/floor.go.
--   Supply/HighWater   `FileHighWater` of pkg/supply/highwater.go: the replay mark and its file, with
--                      failed writes and restarts as events.
--   Supply/Revocation  `RevocationStore` of pkg/supply/revocation.go.
--   Proxy/Resolve      `Resolve` of pkg/proxy/resolve.go: the upstream of a request path.
--   Proxy/Headers      the header copies of pkg/proxy/forward.go.
--   Proxy/Response     `Handle` and `HandleBufferedSSE` of pkg/proxy/response_buffered.go and
--                      response_sse_buffered.go, with the counters and the warning lines as state. The
--                      latter runs Protocol/Sse for the evaluation and Redact/Reassembler for the
--                      restoration.
--   Base               shared names, byte strings, lists, prefixes and association lists.
--   Tests              the properties at concrete inputs.
--
-- Bytes are numbers, and the properties of texts hold for numbers of any size unless they say
-- otherwise; Go's `len` and offsets are natural numbers, which is exact below 2 ^ 63. A Go map is an
-- association list, in which the newest entry of a key counts. A call under a lock is one step of the
-- state.
--
-- Fuel: `scan` has the length of the held bytes, and each round takes one at least; `scan_lines`
-- has the bytes that are not read yet and one more, and each line takes a byte at least;
-- `find_loop` has the length of the text, and each round takes a byte at least; so do the two loops
-- of `map_span`. `token_loop`, `occurrences` and `replace_loop` have the length of the text, and
-- each round takes a byte at least; `literal_loop` too, as the compiler refuses empty literals.
-- `append_leaf` has the wrappers that may still be decoded, 32 at first. The loops over type and
-- digest lengths are bounded by the constants of the grammar.
--
-- Parameters: the tokens that `encoding/json` reads from a document and their offsets,
-- `utf8.Valid`, `json.Valid`, the restorer and the observer of a stream, the evaluator, the
-- decompressors and the header names of a response, the digest function (HMAC-SHA256 in
-- production), the salt, the rules' `Inspect`, the matches of regular expressions,
-- `slices.BinarySearch`, `strings.ToLower`, `strings.TrimSpace`, the signature check of a revocation document, the
-- replacement function and the matcher of a writer. Not modelled: network and file input and
-- output, the filter compiler, the rule supply's fetching, and the command line.
pub mod Base
pub mod Filter
pub mod Protocol
pub mod Proxy
pub mod Redact
pub mod Supply
pub mod Tests
