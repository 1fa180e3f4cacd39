-- ===== src/Redact/Matcher.antt =====
-- `placeholderMatcher` of pkg/redact/sse_backfill.go. Each loop is a function of its variables: its
-- first number is the rounds left, `max_type_len` for the type lengths 1 to 16, and 53 for the
-- digest lengths 12 to 64.
pub mod Match
pub mod Spell
pub mod Head
pub mod Grow
pub mod Stream
use tokenhush.Base.{
  ℕ, zero, suc, ◌+◌, ◌-◌, ◌≤◌, ◌<◌, ◌≡◌, Bool, true, false, not, ◌&&◌, ◌||◌, Option, none, some, [],
  ◌∷◌, ◌++◌, Bytes, ltb, leb, ◌==◌, if◌then◌else◌, length, take, drop, get_elem?, bytes_eq,
  has_prefix,
}
use tokenhush.Protocol.Writer.{TokenMatcher}
use tokenhush.Redact.Grammar.{
  placeholder_prefix, placeholder_suffix, placeholder_sep, max_type_len, max_digest_len,
  min_digest_len, max_placeholder_len, all_type_chars, hex_run,
}

-- `p[i] == c`, for an index that may be out of range.
unfoldable pub byte_is : Bytes → ℕ → ℕ → Bool
byte_is p i c = elim (get_elem? p i) [ none ↦ false | some x ↦ x == c ]

-- `p[i : i+2] == "__"` with `i + 2 <= len(p)` already tested.
unfoldable pub suffix_at : Bytes → ℕ → Bool
suffix_at p i = bytes_eq (take 2 (drop i p)) placeholder_suffix

-- The inner loop of `TokenLen`, over the digest length `l`.
unfoldable pub digest_loop : Bytes → ℕ → ℕ → ℕ → ℕ → Option ℕ
digest_loop p sep d zero l = none
digest_loop p sep d (suc k) l =
    let end = sep + 1 + l + 2 in
    let next = digest_loop p sep d k (l + 1) in
    if leb l d && leb l max_digest_len
    then (if ltb (length p) end then none else if suffix_at p (sep + 1 + l) then some end else next)
    else none

-- One round of the outer loop: the end of the shortest token with a type of length `t`.
unfoldable pub try_type : Bytes → ℕ → Option ℕ
try_type p t =
    let sep = length placeholder_prefix + t in
    if leb (length p) sep || not (byte_is p sep placeholder_sep)
    then none
    else digest_loop p sep (hex_run (drop (sep + 1) p)) 53 min_digest_len

unfoldable pub better : ℕ → Option ℕ → ℕ
better best none = best
better best (some end) = if best == 0 || ltb end best then end else best

unfoldable pub type_loop : Bytes → ℕ → ℕ → ℕ → ℕ
type_loop p zero t best = best
type_loop p (suc k) t best = type_loop p k (t + 1) (better best (try_type p t))

unfoldable pub token_len : Bytes → ℕ
token_len p = if has_prefix placeholder_prefix p then type_loop p max_type_len 1 0 else 0

-- The loop of `isPlaceholderPrefix`, over the type length `t`.
unfoldable pub prefix_loop : Bytes → ℕ → ℕ → Bool
prefix_loop rest zero t = false
prefix_loop rest (suc k) t =
    let next = prefix_loop rest k (t + 1) in
    let d = hex_run (drop (t + 1) rest) in
    let rem = drop (t + 1 + d) rest in
    if leb (length rest) t
    then all_type_chars rest
    else if not (byte_is rest t placeholder_sep)
    then next
    else if d == length rest - t - 1
    then leb d max_digest_len
    else if not (byte_is rem 0 placeholder_sep) || ltb d min_digest_len || ltb max_digest_len d
    then next
    else if length rem == 1 || (length rem == 2 && byte_is rem 1 placeholder_sep)
    then true
    else next

unfoldable pub is_placeholder_prefix : Bytes → Bool
is_placeholder_prefix s =
    if leb (length s) (length placeholder_prefix)
    then has_prefix s placeholder_prefix
    else if not (has_prefix placeholder_prefix s)
    then false
    else prefix_loop (drop (length placeholder_prefix) s) max_type_len 1

-- The loop of `PrefixLen`; the first number is `len(p) - k`.
unfoldable pub prefix_scan : Bytes → ℕ → ℕ → ℕ
prefix_scan p zero k = k
prefix_scan p (suc left) k =
    let next = prefix_scan p left (k + 1) in
    if is_placeholder_prefix (take (k + 1) p) then next else k

unfoldable pub prefix_len : Bytes → ℕ
prefix_len p = prefix_scan p (length p) 0

abbrev pub placeholder_matcher : TokenMatcher
placeholder_matcher = record {
  prefix_len = prefix_len;
  token_len = token_len;
  max_token_len = max_placeholder_len;
}
