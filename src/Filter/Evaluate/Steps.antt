-- ===== src/Filter/Evaluate/Steps.antt =====
-- What the steps of `Evaluate` keep: no finding is lost, and the limit holds.
use tokenhush.Base.{
  ℕ, ◌≤◌, ◌≡◌, refl, subst, inl, inr, Bool, not, ◌&&◌, ◌||◌, Option, none, some, List, [], ◌∷◌,
  ◌++◌, Bytes, ltb, leb, length, arith, Bool-cases, Option-cases, length-append,
}
use tokenhush.Protocol.Sse.{Span}
use tokenhush.Filter.Rule.{Scope, scope_eq, both, is_redact, max_matches}
use tokenhush.Filter.Sensitive.{allows}
use tokenhush.Filter.Evaluate.{
  Finding, CompiledRule, Compiled, rule_spans, allowlist_suppressed, add_finding, rule_finding,
  sensitive_finding, rule_loop, rule_step, rules_loop, gate_step,
}
use tokenhush.Filter.Evaluate.Literals.{Has, Has-append_left, Has-append_right}

-- What a step does that succeeds: it keeps what was found, and stays in the limit.
pub record IsStep (out out' : List Finding) : Type 1 where
  pub keeps : (P : Finding → Type 0) → Has P out → Has P out'
  pub limited : length out ≤ max_matches → length out' ≤ max_matches

pub stay : (out out' : List Finding) → some out ≡ some out' → IsStep out out'
stay out out' e =
    subst (IsStep out) {x = out} (cc e) (record { keeps = λ P h. h; limited = λ h. h })

pub both_steps : (a b c : List Finding) → IsStep a b → IsStep b c → IsStep a c
both_steps a b c x y = record {
  keeps = λ P h. y.keeps P (x.keeps P h);
  limited = λ h. y.limited (x.limited h);
}

-- The composition of the source: an error ends the evaluation.
module _ (o : Option (List Finding)) (f : List Finding → Option (List Finding))
    (out' : List Finding) where
  pub bind_inv :
      (elim o as (λ _. Option (List Finding)) [ none ↦ none | some x ↦ f x ]) ≡ some out'
      → (mid : List Finding) × (o ≡ some mid) × (f mid ≡ some out')
  bind_inv h = elim (Option-cases o) [ inl e ↦ cc (rw e at h) | inr (mid, e) ↦ (mid, e, rw e at h) ]

pub add-IsStep :
    (f : Finding) (out out' : List Finding)
    → add_finding f out ≡ some out'
    → IsStep out out' × Has (λ g. g ≡ f) out'
unfolding add_finding
add-IsStep f out out' h = elim (Bool-cases (leb max_matches (length out))) [
  | inl e ↦ cc (rw e at h)
  | inr e ↦
      let same : out ++ f ∷ [] ≡ out' = cc (rw e at h) in
      subst (λ o. IsStep out o × Has (λ g. g ≡ f) o) same
        (
          record {
            keeps = λ P g. Has-append_left P out (f ∷ []) g;
            limited = λ g. ground (arith, length-append out (f ∷ []));
          },
          Has-append_right _ out (f ∷ []) (inl refl),
        )
]

pub never : (out : List Finding) → none ≡ some out → ⊥
never out h = cc h

module _ (c : Compiled) (phase : Scope) (gated : Bool) (i : ℕ) (value : Bytes) where
  rule_loop-IsStep :
      (rule : CompiledRule) (spans : List Span) (out out' : List Finding)
      → rule_loop c rule i value spans out ≡ some out'
      → IsStep out out'
  unfolding rule_loop
  rule_loop-IsStep rule [] out out' h = stay out out' h
  rule_loop-IsStep rule (s ∷ ss) out out' h =
      elim (Bool-cases (allowlist_suppressed value s c.allowlist rule.allow)) [
        | inl e ↦ rule_loop-IsStep rule ss out out' (rw (e, rule_loop) at h)
        | inr e ↦
            let (mid, a, b) =
              bind_inv (add_finding (rule_finding rule i s) out) (rule_loop c rule i value ss) out'
                (rw (e, rule_loop) at h) in
            both_steps out mid out' (add-IsStep (rule_finding rule i s) out mid a).0
              (rule_loop-IsStep rule ss mid out' b)
      ]

  rule_step-IsStep :
      (rule : CompiledRule) (out out' : List Finding)
      → rule_step c rule phase gated i value out ≡ some out'
      → IsStep out out'
  unfolding rule_step
  rule_step-IsStep rule out out' h =
      elim (Bool-cases (
        not (scope_eq rule.scope phase || scope_eq rule.scope both)
        || (gated && is_redact rule.action))) [
          | inl e ↦ stay out out' (rw e at h)
          | inr e ↦ elim (Bool-cases (ltb max_matches (length (rule_spans rule value)))) [
            | inl f ↦ absurd (never out' (rw f at (rw e at h)))
            | inr f ↦ rule_loop-IsStep rule (rule_spans rule value) out out' (rw f at (rw e at h))
          ]
        ]

  pub rules_loop-IsStep :
      (rules : List CompiledRule) (out out' : List Finding)
      → rules_loop c rules phase gated i value out ≡ some out'
      → IsStep out out'
  unfolding rules_loop
  rules_loop-IsStep [] out out' h = stay out out' h
  rules_loop-IsStep (rule ∷ rules) out out' h =
      let (mid, a, b) =
        bind_inv (rule_step c rule phase gated i value out) (rules_loop c rules phase gated i value)
          out' h in
      both_steps out mid out' (rule_step-IsStep rule out mid a) (rules_loop-IsStep rules mid out' b)

  pub gate_step-IsStep :
      (out out' : List Finding) → gate_step c gated i value out ≡ some out' → IsStep out out'
  unfolding gate_step
  gate_step-IsStep out out' h = elim (Bool-cases (gated && not (allows c.sensitive value))) [
    | inl e ↦ (add-IsStep (sensitive_finding i value) out out' (rw e at h)).0
    | inr e ↦ stay out out' (rw e at h)
  ]
