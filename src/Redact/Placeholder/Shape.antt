-- ===== src/Redact/Placeholder/Shape.antt =====
-- The shape of what the engine mints: it is spelled by the frozen grammar.
use tokenhush.Base.{
  ℕ, zero, suc, ◌/◌, ◌%◌, ◌≤◌, ◌<◌, ◌≡◌, refl, ap, ◌∙◌, true, false, some, List, [], ◌∷◌, Bytes,
  length, take, arith, All, length-take, ◌⊎◌, inl, inr,
}
use tokenhush.Redact.Grammar.{
  spell, IsType, IsDigest, is_type_char, is_hex_digit, max_type_len, max_digest_len, min_digest_len,
}
use tokenhush.Redact.Placeholder.{
  Engine, DigestFunc, digest_ladder, sanitize_byte, sanitize_loop, or_unknown, sanitize_kind,
  hex_char, hex_encode, taken, ladder_loop, mint_new,
}

sanitize_byte-type : (c : ℕ) → is_type_char (sanitize_byte c) ≡ true
unfolding sanitize_byte is_type_char
sanitize_byte-type c = ground arith

sanitize_loop-type :
    (n : ℕ) (kind : Bytes) → All (λ c. is_type_char c ≡ true) (sanitize_loop n kind)
unfolding sanitize_loop
sanitize_loop-type zero kind = tt
sanitize_loop-type (suc n) [] = tt
sanitize_loop-type (suc n) (c ∷ kind) = (sanitize_byte-type c, sanitize_loop-type n kind)

length-sanitize_loop : (n : ℕ) (kind : Bytes) → length (sanitize_loop n kind) ≤ n
unfolding sanitize_loop
length-sanitize_loop zero kind = omega arith
length-sanitize_loop (suc n) [] = omega arith
length-sanitize_loop (suc n) (c ∷ kind) = omega (arith, length-sanitize_loop n kind)

or_unknown-IsType :
    (s : Bytes)
    → All (λ c. is_type_char c ≡ true) s
    → length s ≤ max_type_len
    → IsType (or_unknown s)
unfolding or_unknown is_type_char
or_unknown-IsType [] h le = record {
  type_chars = (refl, (refl, (refl, (refl, (refl, (refl, (refl, tt)))))));
  type_nonempty = omega arith;
  type_short = omega arith;
}
or_unknown-IsType (c ∷ s) h le = record {
  type_chars = h;
  type_nonempty = omega arith;
  type_short = le;
}

-- Whatever the kind, the sanitized type has 1 to 16 bytes over the type alphabet.
pub sanitize_kind-IsType : (kind : Bytes) → IsType (sanitize_kind kind)
unfolding sanitize_kind
sanitize_kind-IsType kind =
    or_unknown-IsType (sanitize_loop max_type_len kind) (sanitize_loop-type max_type_len kind)
      (length-sanitize_loop max_type_len kind)

-- A digest function returns bytes.
abbrev pub IsByteDigest : DigestFunc → Type 0
IsByteDigest f = (salt kind secret : Bytes) → All (λ b. b < 256) (f salt kind secret)

hex_char-digit : (n : ℕ) → n < 16 → is_hex_digit (hex_char n) ≡ true
unfolding hex_char is_hex_digit
hex_char-digit n h = ground arith

hex_encode-digits :
    (s : Bytes) → All (λ b. b < 256) s → All (λ c. is_hex_digit c ≡ true) (hex_encode s)
unfolding hex_encode
hex_encode-digits [] h = tt
hex_encode-digits (b ∷ s) (hb, h) = (
  hex_char-digit (b / 16) (omega arith),
  (hex_char-digit (b % 16) (omega arith), hex_encode-digits s h),
)

All-take :
    (n : ℕ) (s : Bytes)
    → All (λ c. is_hex_digit c ≡ true) s
    → All (λ c. is_hex_digit c ≡ true) (take n s)
All-take zero s h = tt
All-take (suc n) [] h = tt
All-take (suc n) (c ∷ s) (hc, h) = (hc, All-take n s h)

-- What the ladder gives: a placeholder of this type that no entry holds.
pub record Fresh (forward : List (Bytes × Bytes)) (clean p : Bytes) : Type 0 where
  pub hex : Bytes
  pub is_digest : IsDigest hex
  pub spelled : p ≡ spell clean hex
  pub not_taken : taken forward p ≡ false

abbrev InLadder : List ℕ → Type 0
InLadder = All (λ n. (min_digest_len ≤ n) × (n ≤ max_digest_len))

ladder_round :
    (forward : List (Bytes × Bytes)) (clean hex : Bytes) (n : ℕ) (ns : List ℕ) {p : Bytes}
    → ladder_loop forward clean hex (n ∷ ns) ≡ some p
    → ((n ≤ length hex)
        × (p ≡ spell clean (take n hex))
        × (taken forward (spell clean (take n hex)) ≡ false))
      ⊎ (ladder_loop forward clean hex ns ≡ some p)
unfolding ladder_loop
ladder_round forward clean hex n ns h = ground arith

ladder_loop-Fresh :
    (forward : List (Bytes × Bytes)) (clean hex : Bytes) (ns : List ℕ) {p : Bytes}
    → All (λ c. is_hex_digit c ≡ true) hex
    → InLadder ns
    → ladder_loop forward clean hex ns ≡ some p
    → Fresh forward clean p
ladder_loop-Fresh forward clean hex [] h b e = unfold ladder_loop in cc
ladder_loop-Fresh forward clean hex (n ∷ ns) h (bn, b) e =
    elim (ladder_round forward clean hex n ns e) [
      | inl (le, same, free) ↦ record {
        hex = take n hex;
        is_digest = record {
          hex_digits = All-take n hex h;
          digest_long = omega (arith, length-take n hex, bn);
          digest_short = omega (arith, length-take n hex, bn);
        };
        spelled = same;
        not_taken = ap (taken forward) same ∙ free;
      }
      | inr more ↦ ladder_loop-Fresh forward clean hex ns h b more
    ]

pub mint_new-Fresh :
    (e : Engine) (secret clean : Bytes) {p : Bytes}
    → IsByteDigest e.digest
    → mint_new e secret clean ≡ some p
    → Fresh e.forward clean p
unfolding mint_new
mint_new-Fresh e secret clean d h =
    ladder_loop-Fresh e.forward clean _ digest_ladder (hex_encode-digits _ (d e.salt clean secret))
      (omega arith) h
