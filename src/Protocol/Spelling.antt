-- ===== src/Protocol/Spelling.antt =====
-- `escapeJSONString`, `EscapeJSONString` and `Leaf.RawSpelling` of pkg/protocol/spelling.go, and the
-- token chain `rawToken` of pkg/protocol/span.go that `RawSpelling` walks.
pub mod RoundTrip
use tokenhush.Base.{
  ℕ, suc, ◌+◌, ◌/◌, ◌%◌, Bool, true, false, ◌||◌, Option, none, some, [], ◌∷◌, ◌++◌, Bytes, ltb,
  ◌==◌, if◌then◌else◌,
}

abbrev pub backslash : ℕ
backslash = b'\\'

-- The test of the first loop.
unfoldable pub needs_escape : Bytes → Bool
needs_escape [] = false
needs_escape (c ∷ s) = (c == b'"' || c == backslash || ltb c 0x20) || needs_escape s

-- `hex[n]`, for n < 16.
unfoldable pub hex_digit : ℕ → ℕ
hex_digit n = if ltb n 10 then b'0' + n else 87 + n

-- What the second loop appends for one byte.
unfoldable pub escape_byte : ℕ → Bytes
unfolding hex_digit
escape_byte c =
    if c == b'"'
    then backslash ∷ b'"' ∷ []
    else if c == backslash
    then backslash ∷ backslash ∷ []
    else if c == 8
    then backslash ∷ b'b' ∷ []
    else if c == 12
    then backslash ∷ b'f' ∷ []
    else if c == 10
    then backslash ∷ b'n' ∷ []
    else if c == 13
    then backslash ∷ b'r' ∷ []
    else if c == 9
    then backslash ∷ b't' ∷ []
    else if ltb c 0x20
    then backslash ∷ b'u' ∷ b'0' ∷ b'0' ∷ hex_digit (c / 16) ∷ hex_digit (c % 16) ∷ []
    else c ∷ []

unfoldable pub escape_loop : Bytes → Bytes
escape_loop [] = []
escape_loop (c ∷ s) = escape_byte c ++ escape_loop s

unfoldable pub escape_json_string : Bytes → Bytes
unfolding needs_escape escape_loop
escape_json_string decoded = if needs_escape decoded then escape_loop decoded else decoded

-- `rawToken`: the interior and the offset of a token, with the wrapper that it stands in, if any.
pub data RawToken : Type 0 where
  root : Bytes → ℕ → RawToken
  inner : Bytes → ℕ → RawToken → RawToken

unfoldable pub spelling_loop : RawToken → Bytes → Bytes
spelling_loop (root raw start) out = escape_json_string out
spelling_loop (inner raw start parent) out = spelling_loop parent (escape_json_string out)

-- `RawSpelling` of a leaf with this token; `none` is a hand-built leaf.
unfoldable pub raw_spelling : Option RawToken → Bytes → Bytes
unfolding spelling_loop
raw_spelling none decoded = decoded
raw_spelling (some tok) decoded = spelling_loop tok decoded
