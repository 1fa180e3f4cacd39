-- ===== src/Protocol/Spelling/RoundTrip.antt =====
-- What `EscapeJSONString` writes is read back by a reader of JSON string interiors, once for each
-- enclosing wrapper.
use tokenhush.Base.{
  ℕ, zero, suc, ◌+◌, ◌-◌, ◌*◌, ◌/◌, ◌%◌, ◌<◌, ◌≡◌, refl, sym, ap, ◌∙◌, false, ◌&&◌, ◌||◌, Option,
  none, some, [], ◌∷◌, ◌++◌, Bytes, ltb, leb, ◌==◌, if◌then◌else◌, arith, Option-cases, Bool-cases,
  inl, inr,
}
use tokenhush.Protocol.Spelling.{
  backslash, needs_escape, hex_digit, escape_byte, escape_loop, escape_json_string, RawToken, root,
  inner, spelling_loop, raw_spelling,
}

-- A reader of the interior of a JSON string (RFC 8259, section 7), byte by byte, for escapes of code
-- points below 0x80. In `hex`: the hex digits still to come, and the number read so far.
pub data Mode : Type 0 where
  plain escape : Mode
  hex : ℕ → ℕ → Mode

-- The value of a hex digit; 16 for any other byte.
unfoldable pub hex_value : ℕ → ℕ
hex_value c =
    if leb b'0' c && leb c b'9'
    then c - b'0'
    else if leb b'a' c && leb c b'f'
    then c - 87
    else if leb b'A' c && leb c b'F'
    then c - 55
    else 16

-- The byte that a one-letter escape stands for.
unfoldable pub short_escape : ℕ → Option ℕ
short_escape c =
    if c == b'"' || c == backslash || c == b'/'
    then some c
    else if c == b'b'
    then some 8
    else if c == b'f'
    then some 12
    else if c == b'n'
    then some 10
    else if c == b'r'
    then some 13
    else if c == b't'
    then some 9
    else none

unfoldable pub emit : ℕ → Option Bytes → Option Bytes
emit c none = none
emit c (some s) = some (c ∷ s)

unfoldable pub read : Mode → Bytes → Option Bytes
read plain [] = some []
read escape [] = none
read (hex n v) [] = none
read plain (c ∷ s) =
    let more = read plain s in
    let opens = read escape s in
    if c == backslash then opens else if c == b'"' || ltb c 0x20 then none else emit c more
read escape (c ∷ s) =
    let more = read plain s in
    let digits = read (hex 4 0) s in
    if c == b'u' then digits else elim (short_escape c) [ none ↦ none | some b ↦ emit b more ]
read (hex zero v) (c ∷ s) = none
read (hex (suc zero) v) (c ∷ s) =
    let more = read plain s in
    let n = v * 16 + hex_value c in if leb 16 (hex_value c) || leb 0x80 n then none else emit n more
read (hex (suc (suc n)) v) (c ∷ s) =
    let more = read (hex (suc n) (v * 16 + hex_value c)) s in
    if leb 16 (hex_value c) then none else more

unfoldable pub unescape : Bytes → Option Bytes
unescape = read plain

read_plain :
    (c : ℕ) (s : Bytes)
    → c == backslash ≡ false
    → c == b'"' ≡ false
    → ltb c 0x20 ≡ false
    → read plain (c ∷ s) ≡ emit c (read plain s)
unfolding read
read_plain c s a b d = rw (a, read) (rw (b, d, read))

read_short :
    (e b : ℕ) (s : Bytes)
    → e == b'u' ≡ false
    → short_escape e ≡ some b
    → read plain (backslash ∷ e ∷ s) ≡ emit b (read plain s)
unfolding read
read_short e b s a h = rw (a, read) (rw (h, read))

hex_value-hex_digit : (n : ℕ) → n < 16 → hex_value (hex_digit n) ≡ n
unfolding hex_value hex_digit
hex_value-hex_digit n h = ground arith

hex_value_zero : hex_value b'0' ≡ 0
unfolding hex_value
hex_value_zero = refl

read_control :
    (c : ℕ) (s : Bytes)
    → c < 0x20
    → read plain (backslash ∷ b'u' ∷ b'0' ∷ b'0' ∷ hex_digit (c / 16) ∷ hex_digit (c % 16) ∷ s)
      ≡ emit c (read plain s)
unfolding read
read_control c s h = ground (
  arith,
  hex_value_zero,
  hex_value-hex_digit (c / 16) (omega arith),
  hex_value-hex_digit (c % 16) (omega arith),
)

read-escape_byte : (c : ℕ) (s : Bytes) → read plain (escape_byte c ++ s) ≡ emit c (read plain s)
unfolding escape_byte
read-escape_byte c s = ground (
  arith,
  read_plain c s,
  read_short b'"' b'"' s refl (unfold short_escape in refl),
  read_short backslash backslash s refl (unfold short_escape in refl),
  read_short b'b' 8 s refl (unfold short_escape in refl),
  read_short b'f' 12 s refl (unfold short_escape in refl),
  read_short b'n' 10 s refl (unfold short_escape in refl),
  read_short b'r' 13 s refl (unfold short_escape in refl),
  read_short b't' 9 s refl (unfold short_escape in refl),
  read_control c s,
)

read-escape_cons :
    (c : ℕ) (s : Bytes)
    → read plain (escape_loop s) ≡ some s
    → read plain (escape_loop (c ∷ s)) ≡ some (c ∷ s)
unfolding escape_loop emit
read-escape_cons c s h = read-escape_byte c (escape_loop s) ∙ ap (emit c) h

emit-some : (c : ℕ) (s : Bytes) → emit c (some s) ≡ some (c ∷ s)
unfolding emit
emit-some c s = refl

no_escape :
    (c : ℕ) (s : Bytes)
    → needs_escape (c ∷ s) ≡ false
    → (c == backslash ≡ false)
      × (c == b'"' ≡ false)
      × (ltb c 0x20 ≡ false)
      × (needs_escape s ≡ false)
unfolding needs_escape
no_escape c s h = ground arith

read-escape_loop : (s : Bytes) → read plain (escape_loop s) ≡ some s
read-escape_loop [] = unfold read escape_loop in refl
read-escape_loop (c ∷ s) = read-escape_cons c s (read-escape_loop s)

read_unescaped : (s : Bytes) → needs_escape s ≡ false → read plain s ≡ some s
read_unescaped [] h = unfold read in refl
read_unescaped (c ∷ s) h =
    let (a, b, d, more) = no_escape c s h in
    read_plain c s a b d ∙ ap (emit c) (read_unescaped s more) ∙ emit-some c s

-- The escaped text is read back by a reader of JSON string interiors as the text it was made
-- from, for every text.
pub unescape-escape_json_string : (s : Bytes) → unescape (escape_json_string s) ≡ some s
unfolding unescape escape_json_string
unescape-escape_json_string s = elim (Bool-cases (needs_escape s)) [
  | inl yes_escape ↦ rw yes_escape (read-escape_loop s)
  | inr no_need ↦ rw no_need (read_unescaped s no_need)
]

-- Reading once for each wrapper of the token chain.
abbrev pub depth : RawToken → ℕ
depth (root raw start) = 1
depth (inner raw start parent) = suc (depth parent)

unfoldable pub unescape_times : ℕ → Bytes → Option Bytes
unescape_times zero s = some s
unescape_times (suc n) s = elim (unescape s) [ none ↦ none | some t ↦ unescape_times n t ]

unescape_times-some :
    (n : ℕ) (s u : Bytes) → unescape s ≡ some u → unescape_times (suc n) s ≡ unescape_times n u
unfolding unescape_times
unescape_times-some n s u h = rw (h, unescape_times)

unescape_times-none : (n : ℕ) (s : Bytes) → unescape s ≡ none → unescape_times (suc n) s ≡ none
unfolding unescape_times
unescape_times-none n s h = rw (h, unescape_times)

unescape_once : (s : Bytes) → unescape_times 0 s ≡ some s
unfolding unescape_times
unescape_once s = refl

-- The last round of one more.
unescape_times_last :
    (n : ℕ) (s t u : Bytes)
    → unescape_times n s ≡ some t
    → unescape t ≡ some u
    → unescape_times (suc n) s ≡ some u
unescape_times_last zero s t u h i =
    let same : s ≡ t = cc (unescape_once s) in
    unescape_times-some 0 s u (ap unescape same ∙ i) ∙ unescape_once u
unescape_times_last (suc n) s t u h i = elim (Option-cases (unescape s)) [
  | inl bad ↦ cc (unescape_times-none n s bad)
  | inr (v, good) ↦
      unescape_times-some (suc n) s v good
      ∙ unescape_times_last n v t u (sym (unescape_times-some n s v good) ∙ h) i
]

spelling_inner :
    (raw : Bytes) (start : ℕ) (parent : RawToken) (s : Bytes)
    → unescape_times (depth parent) (spelling_loop parent (escape_json_string s))
      ≡ some (escape_json_string s)
    → unescape_times (suc (depth parent)) (spelling_loop (inner raw start parent) s) ≡ some s
unfolding spelling_loop
spelling_inner raw start parent s h =
    unescape_times_last (depth parent) _ (escape_json_string s) s h (unescape-escape_json_string s)

spelling_loop-read :
    (tok : RawToken) (s : Bytes) → unescape_times (depth tok) (spelling_loop tok s) ≡ some s
spelling_loop-read (root raw start) s =
    unescape_times_last 0 (spelling_loop (root raw start) s) (escape_json_string s) s
      (unfold spelling_loop in unescape_once (escape_json_string s)) (unescape-escape_json_string s)
spelling_loop-read (inner raw start parent) s =
    spelling_inner raw start parent s (spelling_loop-read parent (escape_json_string s))

-- A secret restored at a leaf is spelled so that reading the JSON string once for each wrapper around
-- the leaf gives the secret back, however deep the leaf stands.
pub unescape-raw_spelling :
    (tok : RawToken) (s : Bytes) → unescape_times (depth tok) (raw_spelling (some tok) s) ≡ some s
unfolding raw_spelling
unescape-raw_spelling tok s = spelling_loop-read tok s
