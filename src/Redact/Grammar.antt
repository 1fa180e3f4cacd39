-- ===== src/Redact/Grammar.antt =====
-- The geometry of the frozen placeholder grammar, and its character classes: the constants of
-- pkg/redact/placeholder.go, and `isHexDigit`, `isTypeChar`, `allTypeChars` and `hexRun` of
-- pkg/redact/sse_backfill.go.
use tokenhush.Base.{
  ℕ, suc, ◌+◌, ◌≤◌, ◌≡◌, refl, Bool, true, false, ◌&&◌, ◌||◌, [], ◌∷◌, ◌++◌, arith, Bytes, codes,
  leb, ◌==◌, if◌then◌else◌, length, All,
}

abbrev pub placeholder_prefix : Bytes
placeholder_prefix = codes "__PII_"

abbrev pub placeholder_suffix : Bytes
placeholder_suffix = codes "__"

abbrev pub placeholder_sep : ℕ
placeholder_sep = b'_'

abbrev pub max_type_len : ℕ
max_type_len = 16

abbrev pub max_digest_len : ℕ
max_digest_len = 64

abbrev pub min_digest_len : ℕ
min_digest_len = 12

abbrev pub max_placeholder_len : ℕ
max_placeholder_len =
    length placeholder_prefix + max_type_len + 1 + max_digest_len + length placeholder_suffix

unfoldable pub is_hex_digit : ℕ → Bool
is_hex_digit c = (leb b'0' c && leb c b'9') || (leb b'a' c && leb c b'f')

unfoldable pub is_type_char : ℕ → Bool
is_type_char c = (leb b'a' c && leb c b'z') || (leb b'0' c && leb c b'9') || c == b'_'

unfoldable pub all_type_chars : Bytes → Bool
all_type_chars [] = true
all_type_chars (c ∷ s) = elim (is_type_char c) [ true ↦ all_type_chars s | false ↦ false ]

-- The length of the leading run of lowercase hex digits.
unfoldable pub hex_run : Bytes → ℕ
hex_run [] = 0
hex_run (c ∷ s) = if is_hex_digit c then suc (hex_run s) else 0

-- A `<type>` segment, a `<digest>` segment, and the placeholder that they spell.
pub record IsType (ty : Bytes) : Type 0 where
  pub type_chars : All (λ c. is_type_char c ≡ true) ty
  pub type_nonempty : 1 ≤ length ty
  pub type_short : length ty ≤ max_type_len

pub record IsDigest (hex : Bytes) : Type 0 where
  pub hex_digits : All (λ c. is_hex_digit c ≡ true) hex
  pub digest_long : min_digest_len ≤ length hex
  pub digest_short : length hex ≤ max_digest_len

abbrev pub spell : Bytes → Bytes → Bytes
spell ty hex = placeholder_prefix ++ (ty ++ (placeholder_sep ∷ (hex ++ placeholder_suffix)))

pub hex_run-le : (s : Bytes) → hex_run s ≤ length s
unfolding hex_run
hex_run-le [] = omega arith
hex_run-le (c ∷ s) = ground (arith, hex_run-le s)

-- A run of digits in front of a byte that is none.
pub hex_run-append :
    (hex : Bytes) (b : ℕ) (s : Bytes)
    → All (λ c. is_hex_digit c ≡ true) hex
    → is_hex_digit b ≡ false
    → hex_run (hex ++ b ∷ s) ≡ length hex
unfolding hex_run
hex_run-append [] b s h nb = ground arith
hex_run-append (c ∷ hex) b s (hc, h) nb = ground (arith, hex_run-append hex b s h nb)

pub hex_run-All : (hex : Bytes) → All (λ c. is_hex_digit c ≡ true) hex → hex_run hex ≡ length hex
unfolding hex_run
hex_run-All [] h = refl
hex_run-All (c ∷ hex) (hc, h) = ground (arith, hex_run-All hex h)

pub all_type_chars_lem : (s : Bytes) → All (λ c. is_type_char c ≡ true) s → all_type_chars s ≡ true
unfolding all_type_chars
all_type_chars_lem [] h = refl
all_type_chars_lem (c ∷ s) (hc, h) = ground (arith, all_type_chars_lem s h)
