-- ===== src/Filter/Collect/Placed.antt =====
-- What holds of every finding of `collect`: an argument by the loops, for any property of the list of
-- findings that the rules and the gate keep.
use tokenhush.Base.{
  ℤ, pos, negsuc, ℕ, ◌+◌, ◌≤◌, ◌<◌, ◌≡◌, refl, sym, ap, ◌∙◌, subst, ◌⊎◌, inl, inr, Bool, true, ◌&&◌,
  some, List, [], ◌∷◌, ◌++◌, Bytes, ltb, length, map, arith, All, Bool-cases, Option-cases,
}
use tokenhush.Protocol.Sse.{Span}
use tokenhush.Filter.Rule.{
  Scope, RuleMeta, Rule, Answer, returns, panics, hangs, Invocation, accepted, failed, is_redact,
  covers, meta_ok, max_matches, check_span, check_spans, judge, invoke,
}
use tokenhush.Filter.Collect.{Finding, RegistryEntry, found, finding_of, take_result, entry_step}

-- A span in a leaf of `n` bytes.
abbrev pub InLeaf : ℕ → Span → Type 0
InLeaf n span = (span.start < span.end) × (span.end ≤ n)

check_span_sound : (n : ℕ) (r : ℤ × ℤ) (s : Span) → check_span n r ≡ some s → InLeaf n s
unfolding check_span
check_span_sound n (negsuc a, e) s h = cc
check_span_sound n (pos a, negsuc b) s h = cc
check_span_sound n (pos a, pos b) s h = ground arith

check_spans_sound :
    (n : ℕ) (rs : List (ℤ × ℤ)) (ss : List Span) → check_spans n rs ≡ some ss → All (InLeaf n) ss
unfolding check_spans
check_spans_sound n [] ss h = subst (All (InLeaf n)) {x = []} (cc) tt
check_spans_sound n (r ∷ rs) ss h = elim (Option-cases (check_span n r)) [
  | inl e ↦ cc (rw (e, check_spans) at h)
  | inr (s, e) ↦ elim (Option-cases (check_spans n rs)) [
    | inl e' ↦ cc (rw (e', check_spans) at (rw (e, check_spans) at h))
    | inr (ss', e') ↦
        let same : s ∷ ss' ≡ ss = cc (rw (e', check_spans) at (rw (e, check_spans) at h)) in
        subst (All (InLeaf n)) same (check_span_sound n r s e, check_spans_sound n rs ss' e')
  ]
]

judge_sound :
    (m : RuleMeta) (n : ℕ) (a : Answer) (ss : List Span) (m' : RuleMeta)
    → judge m n a ≡ accepted ss m'
    → (m ≡ m') × All (InLeaf n) ss
unfolding judge
judge_sound m n panics ss m' h = cc
judge_sound m n hangs ss m' h = cc
judge_sound m n (returns rs) ss m' h = elim (Bool-cases (ltb max_matches (length rs))) [
  | inl e ↦ cc (rw (e, judge) at h)
  | inr e ↦ elim (Option-cases (check_spans n rs)) [
    | inl e' ↦ cc (rw (e', judge) at (rw (e, judge) at h))
    | inr (ss', e') ↦
        let h' : accepted ss' m ≡ accepted ss m' = rw (e', judge) at (rw (e, judge) at h) in
        (cc h', check_spans_sound n rs ss (e' ∙ ap some (cc h')))
  ]
]

invoke_sound :
    (r : Rule) (value : Bytes) (phase : Scope) (ss : List Span) (m : RuleMeta)
    → invoke (some r) value phase ≡ accepted ss m
    → covers m phase ≡ true
    → (meta_ok m ≡ true) × All (InLeaf (length value)) ss
unfolding invoke
invoke_sound r value phase ss m h c = elim (Bool-cases (meta_ok r.meta)) [
  | inr bad ↦ cc (rw (bad, invoke) at h)
  | inl ok ↦ elim (Bool-cases (covers r.meta phase)) [
    | inr off ↦
        let h' : accepted [] r.meta ≡ accepted ss m = rw (off, invoke) at (rw (ok, invoke) at h) in
        let same : r.meta ≡ m = cc h' in cc (off, c, ap (λ m. covers m phase) same)
    | inl on ↦
        let h' : judge r.meta (length value) (r.inspect value) ≡ accepted ss m =
          rw (on, invoke) at (rw (ok, invoke) at h) in
        let (same, all) = judge_sound r.meta (length value) (r.inspect value) ss m h' in
        (ap meta_ok (sym same) ∙ ok, all)
  ]
]

-- What a rule adds for one leaf.
pub record Added (phase : Scope) (index : ℕ) (value : Bytes) (e : RegistryEntry)
    (out fs : List Finding) : Type 0 where
  pub meta : RuleMeta
  pub spans : List Span
  pub in_leaf : All (InLeaf (length value)) spans
  pub is_meta : meta_ok meta ≡ true
  pub covered : covers meta phase ≡ true
  pub fits : length out + length spans ≤ max_matches
  pub result : fs ≡ out ++ map (finding_of e meta index) spans

take_cases :
    (phase : Scope) (gated : Bool) (index : ℕ) (e : RegistryEntry) (out fs : List Finding)
    (ss : List Span) (m : RuleMeta)
    → take_result phase gated index e out (accepted ss m) ≡ found fs
    → (fs ≡ out)
      ⊎ ((covers m phase ≡ true)
          × (length out + length ss ≤ max_matches)
          × (fs ≡ out ++ map (finding_of e m index) ss))
unfolding take_result
take_cases phase gated index e out fs ss m h = ground arith

result_cases :
    (phase : Scope) (gated : Bool) (index : ℕ) (value : Bytes) (e : RegistryEntry)
    (out fs : List Finding) (i : Invocation)
    → invoke (some e.rule) value phase ≡ i
    → take_result phase gated index e out i ≡ found fs
    → (fs ≡ out) ⊎ Added phase index value e out fs
unfolding take_result
result_cases phase gated index value e out fs (failed reason) i h = cc
result_cases phase gated index value e out fs (accepted ss m) i h =
    elim (take_cases phase gated index e out fs ss m h) [
      | inl same ↦ inl same
      | inr (c, fits, result) ↦
          let (ok, all) = invoke_sound e.rule value phase ss m i c in
          inr (record {
            meta = m;
            spans = ss;
            in_leaf = all;
            is_meta = ok;
            covered = c;
            fits = fits;
            result = result;
          })
    ]

pub entry_cases :
    (phase : Scope) (gated : Bool) (index : ℕ) (value : Bytes) (e : RegistryEntry)
    (out fs : List Finding)
    → entry_step phase gated index value e out ≡ found fs
    → (fs ≡ out) ⊎ Added phase index value e out fs
unfolding entry_step
entry_cases phase gated index value e out fs h =
    elim (Bool-cases (gated && is_redact e.rule.meta.action)) [
      | inl skip ↦ inl (cc (rw (skip, entry_step) at h))
      | inr go ↦
          result_cases phase gated index value e out fs (invoke (some e.rule) value phase) refl
            (rw (go, entry_step) at h)
    ]
