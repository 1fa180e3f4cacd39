-- ===== src/Redact/Matcher/Head.antt =====
-- `isPlaceholderPrefix` and `PrefixLen` on the heads of a spelled placeholder.
use native.Mathlib.Decide.{dec_le}
use tokenhush.Base.{
  ℕ, suc, ◌+◌, ◌-◌, ◌≤◌, ◌<◌, ◌≡◌, refl, sym, ap, ◌∙◌, true, some, [], ◌∷◌, ◌++◌, Bytes, length,
  drop, get_elem?, arith, ◌⊎◌, inl, inr, All, length-append, append_assoc, drop_append_length,
  subst, append_split, All-append_left,
}
use tokenhush.Redact.Grammar.{
  placeholder_suffix, placeholder_sep, max_digest_len, min_digest_len, hex_run, is_hex_digit,
  is_type_char, IsType, IsDigest, all_type_chars, all_type_chars_lem,
}
use tokenhush.Redact.Matcher.Match.{hex_run-at, get_elem?-drop}
use tokenhush.Redact.Matcher.Spell.{get_elem?-append_right, not_sep}
use tokenhush.Redact.Matcher.{byte_is, prefix_loop}

module _ (rest : Bytes) (k t : ℕ) (inside : t < length rest) where
  -- A round that goes on, or accepts.
  pub prefix_round :
      (hex_run (drop (t + 1) rest) ≡ length rest - t - 1
        → hex_run (drop (t + 1) rest) ≤ max_digest_len)
      → prefix_loop rest k (t + 1) ≡ true
      → prefix_loop rest (suc k) t ≡ true
  unfolding prefix_loop
  prefix_round bound next = ground arith

  -- The round at the true length of the type: the digest so far, or all of it and one or two bytes
  -- of the suffix.
  pub prefix_digest :
      byte_is rest t placeholder_sep ≡ true
      → hex_run (drop (t + 1) rest) ≡ length rest - t - 1
      → hex_run (drop (t + 1) rest) ≤ max_digest_len
      → prefix_loop rest (suc k) t ≡ true
  unfolding prefix_loop
  prefix_digest sep d short = ground arith

  pub prefix_suffix :
      (tail : Bytes)
      → byte_is rest t placeholder_sep ≡ true
      → drop (t + 1 + hex_run (drop (t + 1) rest)) rest ≡ placeholder_sep ∷ tail
      → (tail ≡ []) ⊎ (tail ≡ placeholder_sep ∷ [])
      → min_digest_len ≤ hex_run (drop (t + 1) rest)
      → hex_run (drop (t + 1) rest) ≤ max_digest_len
      → hex_run (drop (t + 1) rest) < length rest - t - 1
      → prefix_loop rest (suc k) t ≡ true
  unfolding prefix_loop byte_is
  prefix_suffix tail sep rem two lo hi less = rw (rem, prefix_loop) (ground arith)

-- A head of a digest and its suffix.
pub tail_forms :
    (hex r z : Bytes)
    → r ++ z ≡ hex ++ placeholder_suffix
    → All (λ c. is_hex_digit c ≡ true) hex
    → (All (λ c. is_hex_digit c ≡ true) r × (length r ≤ length hex))
      ⊎ (tail : Bytes) × (r ≡ hex ++ placeholder_sep ∷ tail)
        × ((tail ≡ []) ⊎ (tail ≡ placeholder_sep ∷ []))
tail_forms hex [] z e h = inl (tt, omega arith)
tail_forms [] (x ∷ []) z e h = inr ([], cc, inl refl)
tail_forms [] (x ∷ y ∷ []) z e h = inr (placeholder_sep ∷ [], cc, inr refl)
tail_forms [] (x ∷ y ∷ w ∷ r) z e h = absurd (omega (arith, ap length e))
tail_forms (c ∷ hex) (x ∷ r) z e (hc, h) =
    let same : x ≡ c = cc in
    elim (tail_forms hex r z (cc) h) [
      | inl (all, le) ↦ inl ((ap is_hex_digit same ∙ hc, all), omega arith)
      | inr (tail, eq, two) ↦ inr (tail, cc, two)
    ]

pub prefix_types :
    (rest : Bytes) (k t : ℕ)
    → length rest ≤ t
    → all_type_chars rest ≡ true
    → prefix_loop rest (suc k) t ≡ true
unfolding prefix_loop
prefix_types rest k t h all = ground arith

module _ (ty hex : Bytes) (t : IsType ty) (d : IsDigest hex) where
  abbrev pub rest_of : Bytes
  rest_of = ty ++ (placeholder_sep ∷ (hex ++ placeholder_suffix))

  -- A head that goes past the type.
  pub past_type :
      (r z : Bytes)
      → r ++ z ≡ rest_of
      → length ty < length r
      → (m : Bytes) × (r ≡ ty ++ placeholder_sep ∷ m) × (m ++ z ≡ hex ++ placeholder_suffix)
  past_type r z e h =
      let (m, p, q) = append_split r z ty _ e (omega arith) in
      cut m p q (omega (arith, ap length p, length-append ty m))
    where
      cut :
          (m : Bytes)
          → r ≡ ty ++ m
          → m ++ z ≡ placeholder_sep ∷ (hex ++ placeholder_suffix)
          → 0 < length m
          → (m : Bytes) × (r ≡ ty ++ placeholder_sep ∷ m) × (m ++ z ≡ hex ++ placeholder_suffix)
      cut [] p q pos = absurd (omega arith)
      cut (x ∷ m) p q pos = (m, cc, cc)

  pub within_type :
      (r z : Bytes) → r ++ z ≡ rest_of → length r ≤ length ty → all_type_chars r ≡ true
  within_type r z e h =
      let (m, p, q) = append_split ty _ r z (sym e) h in
      all_type_chars_lem r
        (All-append_left _ r m (subst (All (λ c. is_type_char c ≡ true)) p t.type_chars))

  -- A run of digits to the end of a head is short, since the separator is no digit.
  pub run_short :
      (r z : Bytes) (n : ℕ)
      → r ++ z ≡ rest_of
      → n < length ty
      → n < length r
      → hex_run (drop (n + 1) r) ≡ length r - n - 1
      → hex_run (drop (n + 1) r) ≤ max_digest_len
  run_short r z n e lt inside run = elim (dec_le (length r) (length ty)) [
    | yes le ↦ omega (arith, t.type_short)
    | no gt ↦ absurd (clash (past_type r z e (omega arith)))
  ]
    where
      clash :
          (m : Bytes) × (r ≡ ty ++ placeholder_sep ∷ m) × (m ++ z ≡ hex ++ placeholder_suffix) → ⊥
      clash (m, p, q) =
          let i = length ty - n - 1 in
          let longer : length ty < length r =
            omega (arith, ap length p, length-append ty (placeholder_sep ∷ m)) in
          let (c, at, h) = hex_run-at (drop (n + 1) r) i (omega arith) in
          let place : n + 1 + i ≡ length ty = omega arith in
          not_sep r (length ty)
            (c, ap (get_elem? r) (sym place) ∙ sym (get_elem?-drop (n + 1) i r) ∙ at, h)
            (ap (get_elem? r) {y = length ty + 0} (omega arith)
              ∙ ap (λ s. get_elem? s (length ty + 0)) p
              ∙ get_elem?-append_right ty (placeholder_sep ∷ m) 0)

  pub at_type : (m : Bytes) → byte_is (ty ++ placeholder_sep ∷ m) (length ty) placeholder_sep ≡ true
  unfolding byte_is
  at_type m =
      let here : get_elem? (ty ++ placeholder_sep ∷ m) (length ty) ≡ some placeholder_sep =
        ap (get_elem? (ty ++ placeholder_sep ∷ m)) {y = length ty + 0} (omega arith)
        ∙ get_elem?-append_right ty (placeholder_sep ∷ m) 0 in
      ground (arith, here)

  pub drop_type : (m : Bytes) → drop (length ty + 1) (ty ++ placeholder_sep ∷ m) ≡ m
  drop_type m =
      let head = ty ++ placeholder_sep ∷ [] in
      ap (λ k. drop k (ty ++ placeholder_sep ∷ m)) {y = length head}
        (omega (arith, length-append ty (placeholder_sep ∷ [])))
      ∙ ap (drop (length head)) {y = head ++ m} (sym (append_assoc ty (placeholder_sep ∷ []) m))
      ∙ drop_append_length head m
