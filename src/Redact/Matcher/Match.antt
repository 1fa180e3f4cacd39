-- ===== src/Redact/Matcher/Match.antt =====
-- `TokenLen` against a declarative description of the matches at the head of a text.

use native.Mathlib.Decide.{dec_lt}
use tokenhush.Base.{
  ℕ, zero, suc, ◌+◌, ◌≤◌, ◌<◌, ◌≡◌, refl, sym, ap, ◌∙◌, true, Option, none, some, [], ◌∷◌, Bytes,
  length, take, drop, get_elem?, bytes_eq, has_prefix, arith, ◌⊎◌, inl, inr, Bool-cases,
}
use tokenhush.Redact.Grammar.{
  placeholder_prefix, placeholder_suffix, placeholder_sep, max_type_len, max_digest_len,
  min_digest_len, max_placeholder_len, hex_run, is_hex_digit,
}
use tokenhush.Redact.Matcher.{
  byte_is, suffix_at, digest_loop, try_type, better, type_loop, token_len,
}

abbrev pub IsHexAt : Bytes → ℕ → Type 0
IsHexAt p i = (c : ℕ) × (get_elem? p i ≡ some c) × (is_hex_digit c ≡ true)

-- A token with a type of `t` bytes and a digest of `l` bytes stands at the head of `p`.
pub record Matches (p : Bytes) (t l : ℕ) : Type 0 where
  pub type_min : 1 ≤ t
  pub type_max : t ≤ max_type_len
  pub digest_min : min_digest_len ≤ l
  pub digest_max : l ≤ max_digest_len
  pub sep_at : get_elem? p (6 + t) ≡ some placeholder_sep
  pub hex_at : (i : ℕ) → i < l → IsHexAt p (7 + t + i)
  pub first_end : get_elem? p (7 + t + l) ≡ some placeholder_sep
  pub second_end : get_elem? p (8 + t + l) ≡ some placeholder_sep

abbrev pub token_end : ℕ → ℕ → ℕ
token_end t l = 6 + t + 1 + l + 2

pub get_elem?-drop : (n i : ℕ) (s : Bytes) → get_elem? (drop n s) i ≡ get_elem? s (n + i)
get_elem?-drop zero i s = ap (get_elem? s) (omega arith)
get_elem?-drop (suc n) i [] = refl
get_elem?-drop (suc n) i (x ∷ s) =
    get_elem?-drop n i s ∙ ap (get_elem? (x ∷ s)) {x = suc (n + i)} (omega arith)

pub get_elem?-lt : (s : Bytes) (i : ℕ) {c : ℕ} → get_elem? s i ≡ some c → i < length s
get_elem?-lt [] i h = cc
get_elem?-lt (x ∷ s) zero h = omega arith
get_elem?-lt (x ∷ s) (suc i) h = omega (arith, get_elem?-lt s i h)

byte_is-eq : (p : Bytes) (i c : ℕ) → byte_is p i c ≡ true → get_elem? p i ≡ some c
unfolding byte_is
byte_is-eq p i c h = ground arith

pub hex_run-at : (s : Bytes) (i : ℕ) → i < hex_run s → IsHexAt s i
unfolding hex_run
hex_run-at [] i h = absurd (omega arith)
hex_run-at (c ∷ s) zero h = (c, refl, ground arith)
hex_run-at (c ∷ s) (suc i) h = hex_run-at s i (ground arith)

two_at :
    (s : Bytes)
    → bytes_eq (take 2 s) placeholder_suffix ≡ true
    → (get_elem? s 0 ≡ some placeholder_sep) × (get_elem? s 1 ≡ some placeholder_sep)
unfolding bytes_eq
two_at [] h = cc
two_at (x ∷ []) h = ground arith
two_at (x ∷ y ∷ s) h = ground arith

pub suffix_at-eq :
    (p : Bytes) (i : ℕ)
    → suffix_at p i ≡ true
    → (get_elem? p i ≡ some placeholder_sep) × (get_elem? p (i + 1) ≡ some placeholder_sep)
unfolding suffix_at
suffix_at-eq p i h =
    let (a, b) = two_at (drop i p) h in
    (
      ap (get_elem? p) (omega arith) ∙ sym (get_elem?-drop i 0 p) ∙ a,
      sym (get_elem?-drop i 1 p) ∙ b,
    )

-- What the inner loop found.
record Found (p : Bytes) (sep d e : ℕ) : Type 0 where
  len : ℕ
  len_min : min_digest_len ≤ len
  len_run : len ≤ d
  len_max : len ≤ max_digest_len
  suffix : suffix_at p (sep + 1 + len) ≡ true
  end_eq : e ≡ sep + 1 + len + 2
  end_le : e ≤ length p

digest_loop_round :
    (p : Bytes) (sep d k l : ℕ) {e : ℕ}
    → digest_loop p sep d (suc k) l ≡ some e
    → ((l ≤ d)
        × (l ≤ max_digest_len)
        × (e ≡ sep + 1 + l + 2)
        × (e ≤ length p)
        × (suffix_at p (sep + 1 + l) ≡ true))
      ⊎ (digest_loop p sep d k (l + 1) ≡ some e)
unfolding digest_loop
digest_loop_round p sep d k l h = ground arith

digest_loop_sound :
    (p : Bytes) (sep d k l : ℕ) {e : ℕ}
    → min_digest_len ≤ l
    → digest_loop p sep d k l ≡ some e
    → Found p sep d e
digest_loop_sound p sep d zero l h eq = unfold digest_loop in cc
digest_loop_sound p sep d (suc k) l {e} h eq = elim (digest_loop_round p sep d k l eq) [
  | inl (run, big, same, fits, suf) ↦ record {
    len = l;
    len_min = h;
    len_run = run;
    len_max = big;
    suffix = suf;
    end_eq = same;
    end_le = fits;
  }
  | inr more ↦ digest_loop_sound p sep d k (l + 1) (omega arith) more
]

try_type_round :
    (p : Bytes) (t : ℕ) {e : ℕ}
    → try_type p t ≡ some e
    → (byte_is p (6 + t) placeholder_sep ≡ true)
      × (digest_loop p (6 + t) (hex_run (drop (6 + t + 1) p)) 53 min_digest_len ≡ some e)
unfolding try_type
try_type_round p t h = ground arith

-- A token that a round of the outer loop finds is a match.
try_type_sound :
    (p : Bytes) (t : ℕ) {e : ℕ}
    → 1 ≤ t
    → t ≤ max_type_len
    → try_type p t ≡ some e
    → (l : ℕ) × Matches p t l × (e ≡ token_end t l)
try_type_sound p t {e} lo hi h =
    let (sep, eq) = try_type_round p t h in
    let found = digest_loop_sound p (6 + t) _ 53 min_digest_len (omega arith) eq in
    let l = found.len in
    let (a, b) = suffix_at-eq p (6 + t + 1 + l) found.suffix in
    let run : (i : ℕ) → i < l → IsHexAt p (7 + t + i) = λ i lt.
      let (c, at, hex) = hex_run-at (drop (6 + t + 1) p) i (omega (arith, found.len_run)) in
      (c, ap (get_elem? p) (omega arith) ∙ sym (get_elem?-drop (6 + t + 1) i p) ∙ at, hex) in
    (
      l,
      record {
        type_min = lo;
        type_max = hi;
        digest_min = found.len_min;
        digest_max = found.len_max;
        sep_at = byte_is-eq p (6 + t) placeholder_sep sep;
        hex_at = run;
        first_end = ap (get_elem? p) (omega arith) ∙ a;
        second_end = ap (get_elem? p) (omega arith) ∙ b;
      },
      found.end_eq,
    )

-- A value of `best` is 0 or the end of a match.
IsEnd : Bytes → ℕ → Type 0
IsEnd p n = (n ≡ 0) ⊎ ((t : ℕ) × (l : ℕ) × Matches p t l × (n ≡ token_end t l))

better_cases : (best : ℕ) (o : Option ℕ) → (better best o ≡ best) ⊎ (o ≡ some (better best o))
unfolding better
better_cases best none = inl refl
better_cases best (some e) = ground arith

better-IsEnd :
    (p : Bytes) (t best : ℕ)
    → 1 ≤ t
    → t ≤ max_type_len
    → IsEnd p best
    → IsEnd p (better best (try_type p t))
unfolding IsEnd
better-IsEnd p t best lo hi h = elim (better_cases best (try_type p t)) [
  | inl same ↦ rw same h
  | inr found ↦ let (l, m, e) = try_type_sound p t lo hi found in inr (t, l, m, e)
]

type_loop_step :
    (p : Bytes) (k t best : ℕ)
    → type_loop p (suc k) t best ≡ type_loop p k (t + 1) (better best (try_type p t))
unfolding type_loop
type_loop_step p k t best = refl

type_loop_sound :
    (p : Bytes) (k t best : ℕ)
    → 1 ≤ t
    → t + k ≤ max_type_len + 1
    → IsEnd p best
    → IsEnd p (type_loop p k t best)
type_loop_sound p zero t best lo hi h = unfold type_loop in h
type_loop_sound p (suc k) t best lo hi h = rw (type_loop_step p k t best) (
    type_loop_sound p k (t + 1) (better best (try_type p t)) (omega arith) (omega arith)
      (better-IsEnd p t best lo (omega arith) h))

better-le :
    (best e : ℕ) (o : Option ℕ)
    → ((x : ℕ) → o ≡ some x → 0 < x)
    → (0 < best) × (best ≤ e) ⊎ (o ≡ some e)
    → (0 < better best o) × (better best o ≤ e)
unfolding better
better-le best e none pos h = ground arith
better-le best e (some x) pos h = ground (arith, pos x refl)

try_type-pos :
    (p : Bytes) (t : ℕ) → 1 ≤ t → t ≤ max_type_len → (x : ℕ) → try_type p t ≡ some x → 0 < x
try_type-pos p t lo hi x h = let (l, m, e) = try_type_sound p t lo hi h in omega arith

-- The loop keeps the smallest end: it is no larger than one that is held or still to be found.
type_loop-le :
    (p : Bytes) (k t best e t' : ℕ)
    → 1 ≤ t
    → t + k ≤ max_type_len + 1
    → (0 < best) × (best ≤ e) ⊎ (t ≤ t') × (t' < t + k) × (try_type p t' ≡ some e)
    → (0 < type_loop p k t best) × (type_loop p k t best ≤ e)
type_loop-le p zero t best e t' lo hi (inl h) = unfold type_loop in h
type_loop-le p zero t best e t' lo hi (inr (a, b, c)) = absurd (omega arith)
type_loop-le p (suc k) t best e t' lo hi h = rw (type_loop_step p k t best) (
    type_loop-le p k (t + 1) (better best (try_type p t)) e t' (omega arith) (omega arith) (next h))
  where
    pos : (x : ℕ) → try_type p t ≡ some x → 0 < x
    pos = try_type-pos p t lo (omega arith)

    next :
        (0 < best) × (best ≤ e) ⊎ (t ≤ t') × (t' < t + suc k) × (try_type p t' ≡ some e)
        → (0 < better best (try_type p t)) × (better best (try_type p t) ≤ e)
          ⊎ (t + 1 ≤ t') × (t' < t + 1 + k) × (try_type p t' ≡ some e)
    next (inl held) = inl (better-le best e (try_type p t) pos (inl held))
    next (inr (a, b, c)) = elim (dec_lt t t') [
      | yes lt ↦ inr (omega arith, omega arith, c)
      | no ge ↦ inl (
          better-le best e (try_type p t) pos
            (inr (ap (try_type p) {x = t} {y = t'} (omega arith) ∙ c)))
    ]

pub token_len_sound :
    (p : Bytes)
    → 0 < token_len p
    → (t : ℕ) × (l : ℕ) × Matches p t l × (token_len p ≡ token_end t l)
unfolding token_len IsEnd
token_len_sound p h = elim (Bool-cases (has_prefix placeholder_prefix p)) [
  | inl e ↦ elim (type_loop_sound p 16 1 0 (omega arith) (omega arith) (inl refl)) [
    | inl none_found ↦ absurd (omega (arith, rw e at h))
    | inr (t, l, m, same) ↦ (t, l, m, rw e same)
  ]
  | inr e ↦ absurd (omega (arith, rw e at h))
]

pub token_len-le :
    (p : Bytes) (t e : ℕ)
    → has_prefix placeholder_prefix p ≡ true
    → 1 ≤ t
    → t ≤ max_type_len
    → try_type p t ≡ some e
    → (0 < token_len p) × (token_len p ≤ e)
unfolding token_len
token_len-le p t e pre lo hi h =
    rw pre (type_loop-le p 16 1 0 e t (omega arith) (omega arith) (inr (lo, omega arith, h)))

-- A token that `TokenLen` reports lies within the text, is 22 to 89 bytes long, and has a separator,
-- a run of 12 to 64 digits and the suffix where the grammar wants them.
pub token_len_bounds :
    (p : Bytes)
    → 0 < token_len p
    → (token_len p ≤ length p)
      × (22 ≤ token_len p)
      × (token_len p ≤ max_placeholder_len)
      × ((t : ℕ) × (l : ℕ) × Matches p t l × (token_len p ≡ token_end t l))
token_len_bounds p h =
    let (t, l, m, same) = token_len_sound p h in
    let inside = get_elem?-lt p (8 + t + l) m.second_end in
    (
      omega arith,
      omega (arith, m.type_min, m.digest_min),
      omega (arith, m.type_max, m.digest_max),
      (t, l, m, same),
    )
