-- ===== src/Filter/Evaluate/Literals.antt =====
-- What `blocklistSpans` finds: the first occurrence of every literal, unless it stops at the limit.
use tokenhush.Base.{
  ℕ, zero, suc, ◌+◌, ◌≤◌, ◌<◌, ◌≡◌, refl, sym, ap, subst, ◌⊎◌, inl, inr, Bool, true, false, none,
  some, List, [], ◌∷◌, ◌++◌, Bytes, ltb, length, drop, get_elem?, index, arith, Bool-cases,
  Option-cases,
}
use tokenhush.Protocol.Sse.{Span}
use tokenhush.Filter.Rule.{max_matches}
use tokenhush.Filter.Evaluate.{span_at, literal_loop, literals_loop, blocklist_spans}

-- Some item of a list has a property.
module _ {A : Type 0} (P : A → Type 0) where
  abbrev pub Has : List A → Type 0
  Has [] = ⊥
  Has (x ∷ xs) = P x ⊎ Has xs

  pub Has-append_left : (xs ys : List A) → Has xs → Has (xs ++ ys)
  Has-append_left [] ys h = absurd h
  Has-append_left (x ∷ xs) ys (inl h) = inl h
  Has-append_left (x ∷ xs) ys (inr h) = inr (Has-append_left xs ys h)

  pub Has-append_right : (xs ys : List A) → Has ys → Has (xs ++ ys)
  Has-append_right [] ys h = h
  Has-append_right (x ∷ xs) ys h = inr (Has-append_right xs ys h)

module _ (fuel : ℕ) (rest literal : Bytes) (off at : ℕ) (spans : List Span)
    (e : index literal rest ≡ some at) where
  abbrev grown : List Span
  grown = spans ++ span_at (off + at) literal ∷ []

  stop_step :
      ltb max_matches (length grown) ≡ true
      → literal_loop (suc fuel) rest literal off spans ≡ (true, grown)
  unfolding literal_loop
  stop_step h = rw (e, literal_loop) (rw h)

  go_step :
      ltb max_matches (length grown) ≡ false
      → literal_loop (suc fuel) rest literal off spans
        ≡ literal_loop fuel
            (drop (at + length literal) rest)
            literal
            (off + at + length literal)
            grown
  unfolding literal_loop
  go_step h = rw (e, literal_loop) (rw h)

end_step :
    (fuel : ℕ) (rest literal : Bytes) (off : ℕ) (spans : List Span)
    → index literal rest ≡ none
    → literal_loop (suc fuel) rest literal off spans ≡ (false, spans)
unfolding literal_loop
end_step fuel rest literal off spans e = rw (e, literal_loop)

-- What one literal's loop does: it keeps what was found, and it returns early only past the limit.
abbrev Scanned : List Span → Bool × List Span → Type 1
Scanned spans r =
    ((P : Span → Type 0) → Has P spans → Has P r.1) × (r.0 ≡ true → max_matches < length r.1)

literal-Scanned :
    (fuel : ℕ) (rest literal : Bytes) (off : ℕ) (spans : List Span)
    → Scanned spans (literal_loop fuel rest literal off spans)
literal-Scanned zero rest literal off spans = unfold literal_loop in ((λ P h. h), λ h. cc)
literal-Scanned (suc fuel) rest literal off spans = elim (Option-cases (index literal rest)) [
  | inl e ↦
      subst (Scanned spans) (sym (end_step fuel rest literal off spans e)) ((λ P h. h), λ h. cc)
  | inr (at, e) ↦
      elim (Bool-cases (ltb max_matches (length (spans ++ span_at (off + at) literal ∷ [])))) [
        | inl full ↦
            subst (Scanned spans) (sym (stop_step fuel rest literal off at spans e full))
              ((λ P h. Has-append_left P spans _ h), λ h. ground arith)
        | inr more ↦
            let (kept, late) =
              literal-Scanned fuel (drop (at + length literal) rest) literal
                (off + at + length literal) (spans ++ span_at (off + at) literal ∷ []) in
            subst (Scanned spans) (sym (go_step fuel rest literal off at spans e more))
              ((λ P h. kept P (Has-append_left P spans _ h)), late)
      ]
]

-- The first occurrence is found.
literal_found :
    (fuel : ℕ) (rest literal : Bytes) (off at : ℕ) (spans : List Span)
    → index literal rest ≡ some at
    → Has (λ s. s ≡ span_at (off + at) literal) (literal_loop (suc fuel) rest literal off spans).1
literal_found fuel rest literal off at spans e =
    let here : Has (λ s. s ≡ span_at (off + at) literal)
        (spans ++ span_at (off + at) literal ∷ []) =
      Has-append_right _ spans _ (inl refl) in
    elim (Bool-cases (ltb max_matches (length (spans ++ span_at (off + at) literal ∷ [])))) [
      | inl full ↦
          subst (λ r. Has (λ s. s ≡ span_at (off + at) literal) r.1)
            (sym (stop_step fuel rest literal off at spans e full)) here
      | inr more ↦
          subst (λ r. Has (λ s. s ≡ span_at (off + at) literal) r.1)
            (sym (go_step fuel rest literal off at spans e more))
            ((literal-Scanned fuel (drop (at + length literal) rest) literal
                (off + at + length literal) (spans ++ span_at (off + at) literal ∷ [])).0
              _ here)
    ]

module _ (hay literal : Bytes) (literals : List Bytes) (spans : List Span) where
  abbrev scanned : Bool × List Span
  scanned = literal_loop (length hay + 1) hay literal 0 spans

  full_step : scanned.0 ≡ true → literals_loop hay (literal ∷ literals) spans ≡ scanned.1
  unfolding literals_loop
  full_step e = rw (e, literals_loop)

  next_step :
      scanned.0 ≡ false
      → literals_loop hay (literal ∷ literals) spans ≡ literals_loop hay literals scanned.1
  unfolding literals_loop
  next_step e = rw (e, literals_loop)

literals_keep :
    (P : Span → Type 0) (hay : Bytes) (literals : List Bytes) (spans : List Span)
    → Has P spans
    → Has P (literals_loop hay literals spans)
literals_keep P hay [] spans h = unfold literals_loop in h
literals_keep P hay (literal ∷ literals) spans h =
    let s = literal_loop (length hay + 1) hay literal 0 spans in
    let kept = (literal-Scanned (length hay + 1) hay literal 0 spans).0 P h in
    elim (Bool-cases s.0) [
      | inl e ↦ subst (Has P) (sym (full_step hay literal literals spans e)) kept
      | inr e ↦
          subst (Has P) (sym (next_step hay literal literals spans e))
            (literals_keep P hay literals s.1 kept)
    ]

first_found :
    (hay literal : Bytes) (spans : List Span) (at : ℕ)
    → index literal hay ≡ some at
    → Has (λ s. s ≡ span_at at literal) (literal_loop (length hay + 1) hay literal 0 spans).1
first_found hay literal spans at e =
    subst (λ n. Has (λ s. s ≡ span_at at literal) (literal_loop n hay literal 0 spans).1)
      {x = suc (length hay)} (omega arith)
      (subst
        (λ n.
          Has (λ s. s ≡ span_at n literal) (literal_loop (suc (length hay)) hay literal 0 spans).1)
        {x = 0 + at} (omega arith) (literal_found (length hay) hay literal 0 at spans e))

literals_found :
    (hay : Bytes) (literals : List Bytes) (spans : List Span) (j : ℕ) (literal : Bytes) (at : ℕ)
    → get_elem? literals j ≡ some literal
    → index literal hay ≡ some at
    → length (literals_loop hay literals spans) ≤ max_matches
    → Has (λ s. s ≡ span_at at literal) (literals_loop hay literals spans)
literals_found hay [] spans j literal at g e le = cc g
literals_found hay (l ∷ ls) spans j literal at g e le =
    let s = literal_loop (length hay + 1) hay l 0 spans in
    let late = (literal-Scanned (length hay + 1) hay l 0 spans).1 in
    elim (Bool-cases s.0) [
      | inl full ↦ absurd (
          omega
            (arith, late full, ap (λ (ss : List Span). length ss) (full_step hay l ls spans full)))
      | inr more ↦ subst (Has (λ s. s ≡ span_at at literal)) (sym (next_step hay l ls spans more)) (
          later (λ k h. literals_found hay ls s.1 k literal at h e) j g
            (subst (λ ss. length ss ≤ max_matches) (next_step hay l ls spans more) le))
    ]
  where
    later :
        ((k : ℕ)
          → get_elem? ls k ≡ some literal
          → length (literals_loop hay ls (literal_loop (length hay + 1) hay l 0 spans).1)
            ≤ max_matches
          → Has
              (λ s. s ≡ span_at at literal)
              (literals_loop hay ls (literal_loop (length hay + 1) hay l 0 spans).1))
        → (j : ℕ) → get_elem? (l ∷ ls) j ≡ some literal
        → length (literals_loop hay ls (literal_loop (length hay + 1) hay l 0 spans).1)
          ≤ max_matches
        → Has
            (λ s. s ≡ span_at at literal)
            (literals_loop hay ls (literal_loop (length hay + 1) hay l 0 spans).1)
    later rest zero g le =
        let same : l ≡ literal = cc g in
        literals_keep _ hay ls (literal_loop (length hay + 1) hay l 0 spans).1 (
          subst (λ k. Has (λ s. s ≡ span_at at k) (literal_loop (length hay + 1) hay l 0 spans).1)
            same (first_found hay l spans at (subst (λ k. index k hay ≡ some at) (sym same) e)))
    later rest (suc j) g le = rest j g le

-- For every value and all literals: if the spans are at most `MaxMatches`, the first occurrence of
-- each literal that stands in the value is among them.
pub blocklist_found :
    (value : Bytes) (literals : List Bytes) (j : ℕ) (literal : Bytes) (at : ℕ)
    → get_elem? literals j ≡ some literal
    → index literal value ≡ some at
    → length (blocklist_spans value literals) ≤ max_matches
    → Has (λ s. s ≡ span_at at literal) (blocklist_spans value literals)
unfolding blocklist_spans
blocklist_found value literals j literal at g e le =
    literals_found value literals [] j literal at g e le
