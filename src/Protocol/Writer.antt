-- ===== src/Protocol/Writer.antt =====
-- `BackfillWriter` of pkg/protocol/backfill.go: the streaming token rewriter. `TokenMatcher` is the
-- interface of that name; `none` for `replace` is a nil `ReplaceFunc`, and `none` as its result is a
-- nil replacement. The slice `w.held[i:]` of the loop is the list that is left.
pub mod Steps
pub mod Conserve
use tokenhush.Base.{
  ℕ, zero, suc, ◌+◌, ◌-◌, ◌*◌, ◌≤◌, ◌<◌, ◌≡◌, Bool, true, false, ◌&&◌, Option, none, some, List, [],
  ◌∷◌, ◌++◌, Bytes, ltb, leb, if◌then◌else◌, length, take, drop,
}

pub record TokenMatcher : Type 0 where
  pub prefix_len : Bytes → ℕ
  pub token_len : Bytes → ℕ
  pub max_token_len : ℕ

abbrev pub ReplaceFunc : Type 0
ReplaceFunc = Bytes → Option Bytes

pub record BackfillWriter : Type 0 where
  pub matcher : TokenMatcher
  pub replace : Option ReplaceFunc
  pub held : Bytes

abbrev pub sse_backfill_holdback_bytes : ℕ
sse_backfill_holdback_bytes = 256 * 1024

abbrev pub new_backfill_writer : TokenMatcher → Option ReplaceFunc → BackfillWriter
new_backfill_writer m r = record { matcher = m; replace = r; held = [] }

-- What a complete token is rewritten to.
unfoldable pub replacement : Option ReplaceFunc → Bytes → Bytes
replacement none token = token
replacement (some f) token = elim (f token) [ none ↦ token | some rep ↦ rep ]

unfoldable pub holdback_limit : TokenMatcher → ℕ
holdback_limit m =
    if ltb 0 m.max_token_len && ltb m.max_token_len sse_backfill_holdback_bytes
    then m.max_token_len
    else sse_backfill_holdback_bytes

-- The test of the loop: a complete token stands at the head of the bytes that are left.
unfoldable pub at_token : TokenMatcher → Bytes → Bool
at_token m rest = ltb 0 (m.token_len rest) && leb (m.token_len rest) (length rest)

-- The second test: all that is left may still grow into a token.
unfoldable pub may_grow : TokenMatcher → Bytes → Bool
may_grow m rest = leb (length rest) (m.prefix_len rest)

-- The loop of `release`. The result is what was emitted, and the tail where it stopped.
unfoldable pub scan : TokenMatcher → Option ReplaceFunc → ℕ → Bytes → Bytes → Bytes × Bytes
scan m r zero rest out = (out, rest)
scan m r (suc fuel) [] out = (out, [])
scan m r (suc fuel) (b ∷ bs) out = elim (at_token m (b ∷ bs)) [
  | true ↦
      let n = m.token_len (b ∷ bs) in
      scan m r fuel (drop n (b ∷ bs)) (out ++ replacement r (take n (b ∷ bs)))
  | false ↦ elim (may_grow m (b ∷ bs)) [
    | true ↦ (out, b ∷ bs)
    | false ↦ scan m r fuel bs (out ++ b ∷ [])
  ]
]

-- The trim behind the loop: the oldest bytes over the bound leave literally.
unfoldable pub trim : ℕ → Bytes × Bytes → Bytes × Bytes
trim limit (out, tail) =
    let over = length tail - limit in
    if ltb limit (length tail) then (out ++ take over tail, drop over tail) else (out, tail)

unfoldable pub release : BackfillWriter → Bytes × BackfillWriter
unfolding scan trim holdback_limit
release w =
    let (out, tail) =
      trim (holdback_limit w.matcher) (scan w.matcher w.replace (length w.held) w.held []) in
    (out, record w { held = tail })

unfoldable pub feed : BackfillWriter → Bytes → Bytes × BackfillWriter
unfolding release
feed w p = release (record w { held = w.held ++ p })

unfoldable pub flush : BackfillWriter → Bytes × BackfillWriter
flush w = (w.held, record w { held = [] })

unfoldable pub held_count : BackfillWriter → ℕ
held_count w = length w.held

-- A stream: the chunks in order, then the flush.
unfoldable pub feed_all : BackfillWriter → List Bytes → Bytes × BackfillWriter
feed_all w [] = ([], w)
feed_all w (p ∷ ps) =
    let (out, w') = feed w p in let (more, w'') = feed_all w' ps in (out ++ more, w'')

unfoldable pub stream : BackfillWriter → List Bytes → Bytes
unfolding feed_all flush
stream w ps = let (out, w') = feed_all w ps in out ++ (flush w').0
