-- ===== src/Tests/Matcher.antt =====
-- The properties of the placeholder matcher at concrete inputs.
use tokenhush.Base.{ℕ, ◌≤◌, ◌<◌, ◌≡◌, refl, false, some, [], ◌∷◌, ◌++◌, codes, arith, Bytes}
use tokenhush.Protocol.Writer.{new_backfill_writer, replacement, feed_all}
use tokenhush.Redact.Grammar.{max_placeholder_len, is_type_char, is_hex_digit, IsType, IsDigest}
use tokenhush.Redact.Matcher.{token_len, is_placeholder_prefix, placeholder_matcher}
use tokenhush.Redact.Matcher.Match.{Matches, token_end, token_len_bounds}
use tokenhush.Redact.Matcher.Spell.{token_len-spell}
use tokenhush.Redact.Matcher.Stream.{placeholder_chunks, stray_type}

abbrev digits : Bytes
digits = codes "0123456789ab"

digits-IsDigest : IsDigest digits
unfolding is_hex_digit
digits-IsDigest = record {
  hex_digits = ground arith;
  digest_long = omega arith;
  digest_short = omega arith;
}

email-IsType : IsType (codes "email")
unfolding is_type_char
email-IsType = record {
  type_chars = ground arith;
  type_nonempty = omega arith;
  type_short = omega arith;
}

abbrev sample : Bytes
sample = codes "__PII_email_0123456789ab__"

placeholder_chunks_example :
    feed_all
      (new_backfill_writer placeholder_matcher (some (λ t. some (codes "secret"))))
      (codes "__PI" ∷ codes "I_email_0123456789a" ∷ codes "b__" ∷ [])
    ≡ (
      replacement (some (λ t. some (codes "secret"))) sample,
      new_backfill_writer placeholder_matcher (some (λ t. some (codes "secret"))),
    )
placeholder_chunks_example =
    placeholder_chunks (codes "email") digits (some (λ t. some (codes "secret")))
      (codes "__PI" ∷ codes "I_email_0123456789a" ∷ codes "b__" ∷ []) email-IsType digits-IsDigest
      (omega arith) refl

token_len-spell_example : token_len (sample ++ codes "__ and more") ≡ 26
token_len-spell_example =
    token_len-spell (codes "email") digits (codes "__ and more") digits-IsDigest (omega arith)
      (omega arith)

stray_type_example :
    (token_len (codes "__PII_-_0123456789ab__") ≡ 22)
    × (is_placeholder_prefix (codes "__PII_-") ≡ false)
stray_type_example = stray_type b'-' digits [] (unfold is_type_char in refl) digits-IsDigest

sample_positive : 0 < token_len sample
sample_positive =
    omega
      (arith, token_len-spell (codes "email") digits [] digits-IsDigest (omega arith) (omega arith))

token_len_bounds_example :
    (token_len sample ≤ 26)
    × (22 ≤ token_len sample)
    × (token_len sample ≤ max_placeholder_len)
    × ((t : ℕ) × (l : ℕ) × Matches sample t l × (token_len sample ≡ token_end t l))
token_len_bounds_example = token_len_bounds sample sample_positive
