-- ===== src/Tests/Writer.antt =====
-- The properties of `BackfillWriter` at concrete inputs: a matcher for one literal token, and chunks
-- that cut it in two.
use tokenhush.Base.{ℕ, ◌≤◌, ◌≡◌, refl, ◌&&◌, none, [], ◌∷◌, Bytes, codes, ◌==◌, if◌then◌else◌}
use tokenhush.Protocol.Writer.{
  TokenMatcher, new_backfill_writer, holdback_limit, sse_backfill_holdback_bytes, feed, held_count,
  stream,
}
use tokenhush.Protocol.Writer.Conserve.{held_bound, stream_identity}

-- The token is `ab`.
unfoldable ab_token_len : Bytes → ℕ
ab_token_len [] = 0
ab_token_len (c ∷ []) = 0
ab_token_len (c ∷ d ∷ s) = if c == b'a' && d == b'b' then 2 else 0

unfoldable ab_prefix_len : Bytes → ℕ
ab_prefix_len [] = 0
ab_prefix_len (c ∷ []) = if c == b'a' then 1 else 0
ab_prefix_len (c ∷ d ∷ s) = if c == b'a' then (if d == b'b' then 2 else 1) else 0

abbrev ab : TokenMatcher
ab = record { prefix_len = ab_prefix_len; token_len = ab_token_len; max_token_len = 2 }

held_bound_example :
    (held_count (feed (record { matcher = ab; replace = none; held = codes "a" }) (codes "xa")).1
      ≤ holdback_limit ab)
    × (held_count (feed (record { matcher = ab; replace = none; held = codes "a" }) (codes "xa")).1
        ≤ sse_backfill_holdback_bytes)
held_bound_example =
    held_bound (record { matcher = ab; replace = none; held = codes "a" }) (codes "xa")

stream_identity_example :
    stream (new_backfill_writer ab none) (codes "xa" ∷ codes "b" ∷ []) ≡ codes "xab"
stream_identity_example =
    stream_identity (new_backfill_writer ab none) (codes "xa" ∷ codes "b" ∷ []) refl
