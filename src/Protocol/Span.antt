-- ===== src/Protocol/Span.antt =====
-- `nextUnit`, `mapSpan` and `Leaf.RawSpan` of pkg/protocol/span.go. An offset into `raw` is kept beside
-- the bytes from it on; the decoded rune, which no caller reads, is left out. Offsets are natural
-- numbers: a negative one fails the source's first tests.
pub mod Mapped
use tokenhush.Base.{
  ℕ, zero, suc, ◌+◌, ◌-◌, ◌*◌, ◌≤◌, ◌<◌, Bool, true, false, not, ◌&&◌, ◌||◌, Option, none, some,
  List, [], ◌∷◌, Bytes, ltb, leb, ◌==◌, if◌then◌else◌, length, take, drop,
}
use tokenhush.Protocol.Spelling.{backslash, RawToken, root, inner}
use tokenhush.Protocol.Leaf.{Leaf}

-- `utf8.DecodeRune`: the size of the first rune, 1 for a byte that starts none.
unfoldable pub is_between : ℕ → ℕ → ℕ → Bool
is_between lo hi c = leb lo c && leb c hi

-- The bytes that the second byte of a rune may be, by the first.
unfoldable pub second_ok : ℕ → ℕ → Bool
second_ok c d =
    if c == 0xe0
    then is_between 0xa0 0xbf d
    else if c == 0xed
    then is_between 0x80 0x9f d
    else if c == 0xf0
    then is_between 0x90 0xbf d
    else if c == 0xf4
    then is_between 0x80 0x8f d
    else is_between 0x80 0xbf d

unfoldable pub rune_size : Bytes → ℕ
rune_size [] = 0
rune_size (c ∷ []) = 1
rune_size (c ∷ d ∷ []) = if is_between 0xc2 0xdf c && second_ok c d then 2 else 1
rune_size (c ∷ d ∷ e ∷ []) =
    if is_between 0xc2 0xdf c && second_ok c d
    then 2
    else if is_between 0xe0 0xef c && second_ok c d && is_between 0x80 0xbf e
    then 3
    else 1
rune_size (c ∷ d ∷ e ∷ f ∷ s) =
    if is_between 0xc2 0xdf c && second_ok c d
    then 2
    else if is_between 0xe0 0xef c && second_ok c d && is_between 0x80 0xbf e
    then 3
    else if is_between 0xf0 0xf4 c
        && second_ok c d
        && is_between 0x80 0xbf e
        && is_between 0x80 0xbf f
    then 4
    else 1

-- `strconv.ParseUint` of hex digits.
unfoldable pub hex_digit_value : ℕ → Option ℕ
hex_digit_value c =
    if is_between b'0' b'9' c
    then some (c - b'0')
    else if is_between b'a' b'f' c
    then some (c - 87)
    else if is_between b'A' b'F' c
    then some (c - 55)
    else none

unfoldable pub parse_hex : ℕ → Bytes → Option ℕ
parse_hex n [] = some n
parse_hex n (c ∷ s) = elim (hex_digit_value c) [ none ↦ none | some v ↦ parse_hex (16 * n + v) s ]

-- `utf8.RuneLen`, for a code point below 0x10000 that is no surrogate.
unfoldable pub rune_len : ℕ → ℕ
rune_len r = if ltb r 0x80 then 1 else if ltb r 0x800 then 2 else 3

-- The second half of a surrogate pair, in the bytes behind the first.
unfoldable pub low_surrogate : Bytes → Bool
low_surrogate [] = false
low_surrogate (a ∷ []) = false
low_surrogate (a ∷ b ∷ s) =
    a == backslash
    && b == b'u'
    && leb 4 (length s)
    && (elim (parse_hex 0 (take 4 s)) [ none ↦ false | some lo ↦ is_between 0xdc00 0xdfff lo ])

-- The case `u`, for the bytes behind it: the raw bytes of the unit and the decoded ones.
unfoldable pub unicode_unit : Bytes → ℕ × ℕ
unicode_unit s = if ltb (length s) 4 then (length s + 2, 3) else elim (parse_hex 0 (take 4 s)) [
  | none ↦ (6, 3)
  | some r ↦
      if is_between 0xdc00 0xdfff r
      then (6, 3)
      else if is_between 0xd800 0xdbff r
      then (if low_surrogate (drop 4 s) then (12, 4) else (6, 3))
      else (6, rune_len r)
]

unfoldable pub is_short_escape : ℕ → Bool
is_short_escape c =
    c == b'"'
    || c == backslash
    || c == b'/'
    || c == b'b'
    || c == b'f'
    || c == b'n'
    || c == b'r'
    || c == b't'

-- `nextUnit` at `raw[i:]`: the number of raw bytes and of decoded bytes.
unfoldable pub next_unit : Bytes → ℕ × ℕ
next_unit [] = (0, 0)
next_unit (c ∷ []) = (1, 1)
next_unit (c ∷ d ∷ s) =
    let size = rune_size (c ∷ d ∷ s) in
    if not (c == backslash)
    then (size, size)
    else if is_short_escape d
    then (2, 1)
    else if d == b'u'
    then unicode_unit s
    else (size, size)

-- The first loop of `mapSpan`, on fuel: the decoded length.
unfoldable pub decoded_loop : ℕ → Bytes → ℕ
decoded_loop zero raw = 0
decoded_loop (suc fuel) [] = 0
decoded_loop (suc fuel) (c ∷ s) =
    let (j, k) = next_unit (c ∷ s) in k + decoded_loop fuel (drop j (c ∷ s))

unfoldable pub decoded_len : Bytes → ℕ
decoded_len raw = decoded_loop (length raw) raw

-- The second loop, on fuel: the raw offset `i` and the decoded offset `d` of the bytes left.
unfoldable pub map_loop : ℕ → Bytes → ℕ → ℕ → ℕ → ℕ → ℕ × ℕ → ℕ × ℕ
map_loop zero raw i d start end r = r
map_loop (suc fuel) [] i d start end r = r
map_loop (suc fuel) (c ∷ s) i d start end (rs, re) =
    let (j, k) = next_unit (c ∷ s) in
    map_loop fuel (drop j (c ∷ s)) (i + j) (d + k) start end (
      if leb d start && ltb start (d + k) then i else rs,
      if leb d (end - 1) && ltb (end - 1) (d + k) then i + j else re,
    )

unfoldable pub map_span : Bytes → ℕ → ℕ → Option (ℕ × ℕ)
map_span raw start end =
    let (rs, re) = map_loop (length raw) raw 0 0 start end (0, 0) in
    if ltb end start || ltb (decoded_len raw) end
    then none
    else if start == 0 && end == 0
    then some (0, 0)
    else some (if start == decoded_len raw then length raw else rs, re)

-- The loop of `RawSpan` over the token and the wrappers around it.
unfoldable pub raw_span_loop : RawToken → ℕ → ℕ → Option (ℕ × ℕ)
raw_span_loop (root raw start) rs re = elim (map_span raw rs re) [
  | none ↦ none
  | some (a, b) ↦ some (a + (start + 1), b + (start + 1))
]
raw_span_loop (inner raw start parent) rs re = elim (map_span raw rs re) [
  | none ↦ none
  | some (a, b) ↦ raw_span_loop parent (a + (start + 1)) (b + (start + 1))
]

unfoldable pub raw_span : Leaf → ℕ → ℕ → Option (ℕ × ℕ)
raw_span leaf start end = elim leaf.tok [
  | none ↦ none
  | some tok ↦
      if ltb end start || ltb (length leaf.value) end then none else raw_span_loop tok start end
]
