-- ===== src/Redact/Matcher/Spell.antt =====
-- `TokenLen` on a spelled placeholder: the whole of it is one token, and no shorter head of it is.
use native.Mathlib.Decide.{dec_lt, dec_le}
use tokenhush.Base.{
  ℕ, zero, suc, ◌+◌, ◌-◌, ◌≤◌, ◌<◌, ◌≡◌, refl, sym, ap, ◌∙◌, true, false, some, [], ◌∷◌, ◌++◌,
  Bytes, length, drop, get_elem?, bytes_eq, arith, inl, inr, Bool-cases, All, length-append,
  append_assoc, has_prefix-append, drop_append_length, subst, drop-add, append-nil,
}
use tokenhush.Redact.Grammar.{
  placeholder_prefix, placeholder_suffix, placeholder_sep, max_digest_len, min_digest_len, hex_run,
  is_hex_digit, spell, IsDigest, hex_run-append,
}
use tokenhush.Redact.Matcher.Match.{
  suffix_at-eq, Matches, IsHexAt, token_end, get_elem?-lt, token_len_sound, token_len-le,
}
use tokenhush.Redact.Matcher.{byte_is, suffix_at, digest_loop, try_type, token_len}

pub get_elem?-append_left :
    (xs ys : Bytes) (i : ℕ) (c : ℕ) → get_elem? xs i ≡ some c → get_elem? (xs ++ ys) i ≡ some c
get_elem?-append_left [] ys i c h = cc
get_elem?-append_left (x ∷ xs) ys zero c h = h
get_elem?-append_left (x ∷ xs) ys (suc i) c h = get_elem?-append_left xs ys i c h

pub get_elem?-append_right :
    (xs ys : Bytes) (i : ℕ) → get_elem? (xs ++ ys) (length xs + i) ≡ get_elem? ys i
get_elem?-append_right [] ys i = ap (get_elem? ys) (omega arith)
get_elem?-append_right (x ∷ xs) ys i =
    ap (get_elem? (x ∷ (xs ++ ys))) {y = suc (length xs + i)} (omega arith)
    ∙ get_elem?-append_right xs ys i

Matches-append : (x y : Bytes) (t l : ℕ) → Matches x t l → Matches (x ++ y) t l
Matches-append x y t l m = record {
  type_min = m.type_min;
  type_max = m.type_max;
  digest_min = m.digest_min;
  digest_max = m.digest_max;
  sep_at = get_elem?-append_left x y _ _ m.sep_at;
  hex_at = λ i lt. let (c, at, h) = m.hex_at i lt in (c, get_elem?-append_left x y _ c at, h);
  first_end = get_elem?-append_left x y _ _ m.first_end;
  second_end = get_elem?-append_left x y _ _ m.second_end;
}

hex_of_All :
    (hex s : Bytes) (i : ℕ)
    → All (λ c. is_hex_digit c ≡ true) hex
    → i < length hex
    → IsHexAt (hex ++ s) i
hex_of_All [] s i h lt = absurd (omega arith)
hex_of_All (c ∷ hex) s zero (hc, h) lt = (c, refl, hc)
hex_of_All (c ∷ hex) s (suc i) (hc, h) lt = hex_of_All hex s i h (omega arith)

-- A separator is no digit.
pub not_sep : (p : Bytes) (i : ℕ) → IsHexAt p i → get_elem? p i ≡ some placeholder_sep → ⊥
unfolding is_hex_digit
not_sep p i (c, at, h) e = ground arith

module _ (p : Bytes) (sep d k l : ℕ) (run : l ≤ d) (big : l ≤ max_digest_len)
    (fits : sep + 1 + l + 2 ≤ length p) where
  digest_skip :
      suffix_at p (sep + 1 + l) ≡ false
      → digest_loop p sep d (suc k) l ≡ digest_loop p sep d k (l + 1)
  unfolding digest_loop
  digest_skip h = ground arith

  digest_hit :
      suffix_at p (sep + 1 + l) ≡ true → digest_loop p sep d (suc k) l ≡ some (sep + 1 + l + 2)
  unfolding digest_loop
  digest_hit h = ground arith

-- The places of a spelled placeholder, with any text behind it.
module _ (ty hex y : Bytes) (d : IsDigest hex) where
  abbrev text : Bytes
  text = spell ty hex ++ y

  body : Bytes
  body = hex ++ (placeholder_suffix ++ y)

  text_eq : text ≡ placeholder_prefix ++ (ty ++ (placeholder_sep ∷ body))
  unfolding body
  text_eq = simp append_assoc

  at_rest : (i : ℕ) → get_elem? text (6 + length ty + i) ≡ get_elem? (placeholder_sep ∷ body) i
  at_rest i = rw text_eq (
      ap (get_elem? (placeholder_prefix ++ (ty ++ (placeholder_sep ∷ body))))
        {x = 6 + length ty + i} {y = 6 + (length ty + i)} (omega arith)
      ∙ get_elem?-append_right placeholder_prefix (ty ++ (placeholder_sep ∷ body)) (length ty + i)
      ∙ get_elem?-append_right ty (placeholder_sep ∷ body) i)

  at_sep : get_elem? text (6 + length ty) ≡ some placeholder_sep
  at_sep = ap (get_elem? text) (omega arith) ∙ at_rest 0

  at_hex : (i : ℕ) → i < length hex → IsHexAt text (7 + length ty + i)
  unfolding body
  at_hex i lt =
      let (c, at, h) = hex_of_All hex (placeholder_suffix ++ y) i d.hex_digits lt in
      (c, ap (get_elem? text) {y = 6 + length ty + suc i} (omega arith) ∙ at_rest (suc i) ∙ at, h)

  at_end : (i : ℕ) → i < 2 → get_elem? text (7 + length ty + length hex + i) ≡ some placeholder_sep
  unfolding body
  at_end i lt =
      ap (get_elem? text) {y = 6 + length ty + suc (length hex + i)} (omega arith)
      ∙ at_rest (suc (length hex + i))
      ∙ get_elem?-append_right hex (placeholder_suffix ++ y) i
      ∙ two i lt
    where
      two : (i : ℕ) → i < 2 → get_elem? (placeholder_suffix ++ y) i ≡ some placeholder_sep
      two zero lt = refl
      two (suc zero) lt = refl
      two (suc (suc i)) lt = absurd (omega arith)

  -- No match ends before the placeholder does, if the type is short enough to hold no digest.
  no_shorter :
      length ty ≤ 14
      → (t l : ℕ) → Matches text t l
      → token_end (length ty) (length hex) ≤ token_end t l
  no_shorter short t l m = elim (dec_le (token_end (length ty) (length hex)) (token_end t l)) [
    | yes h ↦ h
    | no h ↦ absurd (clash (omega arith))
  ]
    where
      digit : (i : ℕ) → 7 + length ty ≤ i → i < 7 + length ty + length hex → IsHexAt text i
      digit i lo hi =
          subst (IsHexAt text) {x = 7 + length ty + (i - (7 + length ty))} (omega arith)
            (at_hex (i - (7 + length ty)) (omega arith))

      digit' : (i : ℕ) → 7 + t ≤ i → i < 7 + t + l → IsHexAt text i
      digit' i lo hi =
          subst (IsHexAt text) {x = 7 + t + (i - (7 + t))} (omega arith)
            (m.hex_at (i - (7 + t)) (omega arith))

      clash : t + l < length ty + length hex → ⊥
      clash less = elim (dec_lt t (length ty)) [
        | no ge ↦ elim (dec_lt (length ty) t) [
          | yes gt ↦
              not_sep text (6 + t) (digit (6 + t) (omega arith) (omega (arith, m.digest_min)))
                m.sep_at
          | no le ↦
              not_sep text (7 + t + l) (digit (7 + t + l) (omega arith) (omega arith)) m.first_end
        ]
        | yes lt ↦ elim (dec_lt (6 + length ty) (7 + t + l)) [
          | yes inside ↦
              not_sep text (6 + length ty) (digit' (6 + length ty) (omega arith) inside) at_sep
          | no behind ↦
              not_sep text (8 + t + l)
                (digit (8 + t + l) (omega (arith, m.digest_min, m.type_min))
                  (omega (arith, m.digest_min, m.type_min, d.digest_long)))
                m.second_end
        ]
      ]

  length-text : length text ≡ token_end (length ty) (length hex) + length y
  length-text = omega (
    arith,
    length-append (spell ty hex) y,
    length-append ty (placeholder_sep ∷ (hex ++ placeholder_suffix)),
    length-append hex placeholder_suffix,
  )

  drop_head : (n : ℕ) → n ≡ 6 + length ty + 1 → drop n text ≡ body
  drop_head n e =
      let head = placeholder_prefix ++ (ty ++ (placeholder_sep ∷ [])) in
      ap (λ k. drop k text) {y = length head}
        (omega (arith, e, length-append ty (placeholder_sep ∷ [])))
      ∙ ap (drop (length head)) {y = head ++ body} (text_eq ∙ simp append_assoc)
      ∙ drop_append_length head body

  drop-body : drop (length hex) body ≡ placeholder_suffix ++ y
  unfolding body
  drop-body = drop_append_length hex (placeholder_suffix ++ y)

  spelled_digits : hex_run body ≡ length hex
  unfolding body is_hex_digit
  spelled_digits =
      hex_run-append hex placeholder_sep (placeholder_sep ∷ y) d.hex_digits
        (unfold is_hex_digit in refl)

  no_suffix : (l : ℕ) → l < length hex → suffix_at text (6 + length ty + 1 + l) ≡ false
  no_suffix l lt = elim (Bool-cases (suffix_at text (6 + length ty + 1 + l))) [
    | inl e ↦ absurd (
        not_sep text (7 + length ty + l) (at_hex l lt)
          (ap (get_elem? text) (omega arith) ∙ (suffix_at-eq text (6 + length ty + 1 + l) e).0))
    | inr e ↦ e
  ]

  suffix_here : (l : ℕ) → l ≡ length hex → suffix_at text (6 + length ty + 1 + l) ≡ true
  unfolding suffix_at bytes_eq
  suffix_here l e =
      let behind : drop (6 + length ty + 1 + l) text ≡ placeholder_suffix ++ y =
        drop-add (6 + length ty + 1) l text
        ∙ ap (drop l) (drop_head (6 + length ty + 1) refl)
        ∙ ap (λ n. drop n body) e
        ∙ drop-body in
      rw behind

  -- The inner loop comes to the digest: a digit stands where a shorter digest would end.
  digest_loop_spell :
      (k l : ℕ)
      → min_digest_len ≤ l
      → l ≤ length hex
      → length hex < l + k
      → digest_loop text (6 + length ty) (length hex) k l
        ≡ some (token_end (length ty) (length hex))
  digest_loop_spell zero l lo hi h = absurd (omega arith)
  digest_loop_spell (suc k) l lo hi h = elim (dec_lt l (length hex)) [
    | yes lt ↦
        digest_skip text (6 + length ty) (length hex) k l hi (omega (arith, d.digest_short))
          (omega (arith, length-text)) (no_suffix l lt)
        ∙ digest_loop_spell k (l + 1) (omega arith) (omega arith) (omega arith)
    | no ge ↦
        digest_hit text (6 + length ty) (length hex) k l hi (omega (arith, d.digest_short))
          (omega (arith, length-text)) (suffix_here l (omega arith))
        ∙ ap some (omega arith)
  ]

  try_type_spell : try_type text (length ty) ≡ some (token_end (length ty) (length hex))
  unfolding try_type byte_is
  try_type_spell =
      let run : hex_run (drop (6 + length ty + 1) text) ≡ length hex =
        ap hex_run (drop_head (6 + length ty + 1) refl) ∙ spelled_digits in
      let found =
        digest_loop_spell 53 min_digest_len (omega arith) d.digest_long
          (omega (arith, d.digest_short)) in
      ground (arith, run, found, at_sep, length-text)

-- A placeholder with a type of 1 to 14 bytes and a digest of 12 to 64 lowercase hex digits is one
-- complete token of exactly its length, whatever follows it.
pub token_len-spell :
    (ty hex y : Bytes)
    → IsDigest hex
    → 1 ≤ length ty
    → length ty ≤ 14
    → token_len (spell ty hex ++ y) ≡ length (spell ty hex)
token_len-spell ty hex y d some_type short =
    let p = spell ty hex ++ y in
    let (pos, le) =
      token_len-le p (length ty) _ (has_prefix-append placeholder_prefix _) some_type (omega arith)
        (try_type_spell ty hex y d) in
    let (t', l', m, same) = token_len_sound p pos in
    omega (
      arith,
      no_shorter ty hex y d short t' l' m,
      length-text ty hex y d,
      length-append (spell ty hex) y,
    )

-- A proper head of such a placeholder holds no complete token.
pub token_len_head :
    (ty hex x z : Bytes)
    → IsDigest hex
    → length ty ≤ 14
    → x ++ z ≡ spell ty hex
    → 0 < length z
    → token_len x ≡ 0
token_len_head ty hex x z d short e more = elim (dec_lt 0 (token_len x)) [
  | no h ↦ omega arith
  | yes pos ↦
      let (t, l, m, same) = token_len_sound x pos in
      let whole : Matches (spell ty hex ++ []) t l =
        subst (λ s. Matches s t l) (e ∙ sym (append-nil (spell ty hex)))
          (Matches-append x z t l m) in
      absurd (
        omega (
          arith,
          no_shorter ty hex [] d short t l whole,
          get_elem?-lt x _ m.second_end,
          length-append x z,
          ap length e,
          length-text ty hex [] d,
          length-append (spell ty hex) [],
        ))
]
