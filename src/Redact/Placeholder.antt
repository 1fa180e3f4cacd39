-- ===== src/Redact/Placeholder.antt =====
-- `engine` and `ForwardWriter` of pkg/redact/placeholder.go and forward_writer.go: the forward map
-- (type and secret to placeholder) and the digest ladder. `digest` is the injectable `digestFunc`;
-- its default, HMAC-SHA256, is a library call. `none` is `errDigestExhausted`.
pub mod Shape
pub mod Unique
use tokenhush.Base.{
  ℕ, zero, suc, ◌+◌, ◌/◌, ◌%◌, ◌<◌, Bool, true, false, ◌&&◌, ◌||◌, Option, none, some, List, [],
  ◌∷◌, ◌++◌, Bytes, codes, ltb, leb, if◌then◌else◌, length, take, bytes_eq, lookup, insert,
}
use tokenhush.Redact.Grammar.{spell, max_type_len, min_digest_len, max_digest_len}

abbrev pub digest_ladder : List ℕ
digest_ladder = min_digest_len ∷ 16 ∷ 24 ∷ 32 ∷ 48 ∷ max_digest_len ∷ []

abbrev pub DigestFunc : Type 0
DigestFunc = Bytes → Bytes → Bytes → Bytes

pub record Engine : Type 0 where
  pub digest : DigestFunc
  pub salt : Bytes
  pub forward : List (Bytes × Bytes)

-- The engine as `newEngine` makes it, for the salt that was drawn.
abbrev pub new_engine : DigestFunc → Bytes → Engine
new_engine digest salt = record { digest = digest; salt = salt; forward = [] }

unfoldable pub sanitize_byte : ℕ → ℕ
sanitize_byte c = if (leb b'a' c && leb c b'z') || (leb b'0' c && leb c b'9') then c else b'_'

-- The loop of `sanitizeKind`; the number is the room left in the builder.
unfoldable pub sanitize_loop : ℕ → Bytes → Bytes
sanitize_loop zero kind = []
sanitize_loop (suc room) [] = []
sanitize_loop (suc room) (c ∷ kind) = sanitize_byte c ∷ sanitize_loop room kind

unfoldable pub or_unknown : Bytes → Bytes
or_unknown [] = codes "unknown"
or_unknown (c ∷ s) = c ∷ s

unfoldable pub sanitize_kind : Bytes → Bytes
unfolding or_unknown
sanitize_kind kind = or_unknown (sanitize_loop max_type_len kind)

-- `hex.EncodeToString`.
unfoldable pub hex_char : ℕ → ℕ
hex_char n = if ltb n 10 then b'0' + n else 87 + n

unfoldable pub hex_encode : Bytes → Bytes
unfolding hex_char
hex_encode [] = []
hex_encode (b ∷ s) = hex_char (b / 16) ∷ hex_char (b % 16) ∷ hex_encode s

-- The key of the forward map.
abbrev pub forward_key : Bytes → Bytes → Bytes
forward_key clean secret = clean ++ (0 ∷ secret)

unfoldable pub taken : List (Bytes × Bytes) → Bytes → Bool
taken [] candidate = false
taken ((key, existing) ∷ m) candidate = bytes_eq existing candidate || taken m candidate

-- The loop over the ladder: the first candidate that is long enough to cut and not taken.
unfoldable pub ladder_loop : List (Bytes × Bytes) → Bytes → Bytes → List ℕ → Option Bytes
ladder_loop forward clean hex [] = none
ladder_loop forward clean hex (n ∷ ns) =
    let rest = ladder_loop forward clean hex ns in
    let candidate = spell clean (take n hex) in
    if ltb (length hex) n then rest else if taken forward candidate then rest else some candidate

unfoldable pub mint_new : Engine → Bytes → Bytes → Option Bytes
mint_new e secret clean =
    ladder_loop e.forward clean (hex_encode (e.digest e.salt clean secret)) digest_ladder

unfoldable pub placeholder : Engine → Bytes → Bytes → Option Bytes × Engine
placeholder e secret kind =
    let clean = sanitize_kind kind in
    let key = forward_key clean secret in
    elim (lookup key e.forward) [
      | some p ↦ (some p, e)
      | none ↦ elim (mint_new e secret clean) [
        | some candidate ↦ (some candidate, record e { forward = insert key candidate e.forward })
        | none ↦ (none, e)
      ]
    ]
