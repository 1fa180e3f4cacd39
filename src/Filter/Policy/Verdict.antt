-- ===== src/Filter/Policy/Verdict.antt =====
-- What `Decide` of pkg/filter/policy.go decides, in terms of the findings that were collected.
use tokenhush.Base.{
  ◌≤◌, ◌≡◌, refl, sym, ap, ◌∙◌, subst, inl, inr, true, false, ◌&&◌, none, some, List, [], ◌∷◌, ◌++◌,
  append-nil, append_assoc, Bytes, ltb, if◌then◌else◌, bytes_eq_iff, map, arith, All, Bool-cases,
}
use tokenhush.Filter.Rule.{
  Scope, request, response, Action, allow, warn, redact, block, other_action, scope_eq, is_redact,
}
use tokenhush.Protocol.Leaf.{Leaf}
use tokenhush.Filter.Collect.{Finding, Collected, found, refused, collect}
use tokenhush.Filter.Collect.Findings.{collect_response}
use tokenhush.Filter.Policy.{
  SubstitutionRequest, Decision, Policy, decided, action_rank, aggregate_loop, aggregate_action,
  action_eq, add_finding, add_findings, empty_decision, verdict, decide,
}

-- The findings of one action, in order.
abbrev pub chosen : Action → List Finding → List Finding
chosen a [] = []
chosen a (f ∷ fs) = if action_eq f.action a then f ∷ chosen a fs else chosen a fs

-- The substitution that a finding asks for.
abbrev pub substitution_of : Finding → SubstitutionRequest
substitution_of f = record {
  rule_id = f.rule_id;
  origin = f.origin;
  leaf_index = f.leaf_index;
  start = f.start;
  end = f.end;
  category = f.category;
}

pub action_eq_sound : (a b : Action) → action_eq a b ≡ true → a ≡ b
unfolding action_eq
action_eq_sound allow allow h = refl
action_eq_sound allow warn h = cc
action_eq_sound allow redact h = cc
action_eq_sound allow block h = cc
action_eq_sound allow (other_action t) h = cc
action_eq_sound warn allow h = cc
action_eq_sound warn warn h = refl
action_eq_sound warn redact h = cc
action_eq_sound warn block h = cc
action_eq_sound warn (other_action t) h = cc
action_eq_sound redact allow h = cc
action_eq_sound redact warn h = cc
action_eq_sound redact redact h = refl
action_eq_sound redact block h = cc
action_eq_sound redact (other_action t) h = cc
action_eq_sound block allow h = cc
action_eq_sound block warn h = cc
action_eq_sound block redact h = cc
action_eq_sound block block h = refl
action_eq_sound block (other_action t) h = cc
action_eq_sound (other_action s) allow h = cc
action_eq_sound (other_action s) warn h = cc
action_eq_sound (other_action s) redact h = cc
action_eq_sound (other_action s) block h = cc
action_eq_sound (other_action s) (other_action t) h = ap other_action ((bytes_eq_iff s t).0 h)

aggregate_step :
    (best next : Action) (f : Finding) (fs : List Finding)
    → (if ltb (action_rank best) (action_rank f.action) then f.action else best) ≡ next
    → aggregate_loop best (f ∷ fs) ≡ aggregate_loop next fs
unfolding aggregate_loop
aggregate_step best next f fs h = ap (λ b. aggregate_loop b fs) h

-- The rank of an action bounds these.
abbrev Bounds : Action → Action → List Finding → Type 0
Bounds a best fs =
    (action_rank best ≤ action_rank a)
    × All (λ (f : Finding). action_rank f.action ≤ action_rank a) fs

-- The loop of `aggregateAction` ends at the largest rank.
aggregate_max : (best : Action) (fs : List Finding) → Bounds (aggregate_loop best fs) best fs
aggregate_max best [] = unfold aggregate_loop in (omega arith, tt)
aggregate_max best (f ∷ fs) = elim (Bool-cases (ltb (action_rank best) (action_rank f.action))) [
  | inl e ↦
      let (le, all) = aggregate_max f.action fs in
      subst (λ a. Bounds a best (f ∷ fs)) (sym (aggregate_step best f.action f fs (rw e)))
        (ground (arith, le), (le, all))
  | inr e ↦
      let (le, all) = aggregate_max best fs in
      subst (λ a. Bounds a best (f ∷ fs)) (sym (aggregate_step best best f fs (rw e)))
        (le, (ground (arith, le), all))
]

add_finding-kept :
    (d : Decision) (f : Finding)
    → ((add_finding d f).action ≡ d.action)
      × ((add_finding d f).phase ≡ d.phase)
      × ((add_finding d f).refusal ≡ d.refusal)
unfolding add_finding
add_finding-kept d f = ground arith

add_finding-findings :
    (d : Decision) (f : Finding)
    → (add_finding d f).findings ≡ d.findings ++ chosen d.action (f ∷ [])
unfolding add_finding
add_finding-findings d f = ground (arith, append-nil d.findings)

-- The substitutions of the findings of one action in one phase.
abbrev pub substitutions_of : Scope → Action → List Finding → List SubstitutionRequest
substitutions_of phase a fs =
    if scope_eq phase request && action_eq a redact then map substitution_of (chosen a fs) else []

add_finding-substitutions :
    (d : Decision) (f : Finding)
    → (add_finding d f).substitutions
      ≡ d.substitutions ++ substitutions_of d.phase d.action (f ∷ [])
unfolding add_finding
add_finding-substitutions d f = elim (Bool-cases (action_eq f.action d.action)) [
  | inr e ↦ ground (arith, append-nil d.substitutions)
  | inl e ↦
      let same = ap (λ a. action_eq a redact) (action_eq_sound f.action d.action e) in
      ground (arith, append-nil d.substitutions, same)
]

chosen-append :
    (a : Action) (xs ys : List Finding) → chosen a (xs ++ ys) ≡ chosen a xs ++ chosen a ys
chosen-append a [] ys = refl
chosen-append a (x ∷ xs) ys = ground (arith, chosen-append a xs ys)

map-append :
    (xs ys : List Finding)
    → map substitution_of (xs ++ ys) ≡ map substitution_of xs ++ map substitution_of ys
map-append [] ys = refl
map-append (x ∷ xs) ys = ap (◌∷◌ (substitution_of x)) (map-append xs ys)

substitutions-cons :
    (phase : Scope) (a : Action) (f : Finding) (fs : List Finding)
    → substitutions_of phase a (f ∷ fs)
      ≡ substitutions_of phase a (f ∷ []) ++ substitutions_of phase a fs
substitutions-cons phase a f fs =
    ground (arith, chosen-append a (f ∷ []) fs, map-append (chosen a (f ∷ [])) (chosen a fs))

-- The loop of `Decide` in closed form.
add_findings_lem :
    (d : Decision) (fs : List Finding)
    → ((add_findings d fs).action ≡ d.action)
      × ((add_findings d fs).refusal ≡ d.refusal)
      × ((add_findings d fs).findings ≡ d.findings ++ chosen d.action fs)
      × ((add_findings d fs).substitutions
          ≡ d.substitutions ++ substitutions_of d.phase d.action fs)
unfolding add_findings
add_findings_lem d [] =
    (refl, refl, sym (append-nil d.findings), ground (arith, append-nil d.substitutions))
add_findings_lem d (f ∷ fs) =
    let (a, b, c, e) = add_findings_lem (add_finding d f) fs in
    let (x, y, z) = add_finding-kept d f in
    (
      a ∙ x,
      b ∙ z,
      c
          ∙ ap (λ a. (add_finding d f).findings ++ chosen a fs) x
          ∙ ap (λ s. s ++ chosen d.action fs) (add_finding-findings d f)
          ∙ append_assoc d.findings (chosen d.action (f ∷ [])) (chosen d.action fs)
          ∙ ap (◌++◌ d.findings) (sym (chosen-append d.action (f ∷ []) fs)),
      e
          ∙ ap
              (λ a.
                (add_finding d f).substitutions ++ substitutions_of (add_finding d f).phase a fs)
              x
          ∙ ap (λ p. (add_finding d f).substitutions ++ substitutions_of p d.action fs) y
          ∙ ap (λ s. s ++ substitutions_of d.phase d.action fs) (add_finding-substitutions d f)
          ∙ append_assoc d.substitutions (substitutions_of d.phase d.action (f ∷ [])) _
          ∙ ap (◌++◌ d.substitutions) (sym (substitutions-cons d.phase d.action f fs)),
    )

decide_cases :
    (lower : Bytes → Bytes) (p : Policy) (leaves : List Leaf) (phase : Scope) (d : Decision)
    → decide lower (some p) leaves phase ≡ decided d
    → verdict phase (collect lower p.entries p.sensitive leaves phase) ≡ d
unfolding decide
decide_cases lower p leaves phase d h = ground arith

-- When the rules give findings, the decision is no refusal, no finding has a higher precedence than
-- its action, its findings are exactly those of its action, in order, and its substitutions are those
-- that these ask for when the phase is the request and the action is redact, and none otherwise.
pub decide_verdict :
    (lower : Bytes → Bytes) (p : Policy) (leaves : List Leaf) (phase : Scope) (d : Decision)
    (fs : List Finding)
    → decide lower (some p) leaves phase ≡ decided d
    → collect lower p.entries p.sensitive leaves phase ≡ found fs
    → (d.refusal ≡ none)
      × All (λ (f : Finding). action_rank f.action ≤ action_rank d.action) fs
      × (d.findings ≡ chosen d.action fs)
      × (d.substitutions ≡ substitutions_of phase d.action fs)
unfolding verdict aggregate_action
decide_verdict lower p leaves phase d fs h k =
    let best = aggregate_loop allow fs in
    let (a, b, c, e) = add_findings_lem (empty_decision phase best) fs in
    let same : add_findings (empty_decision phase best) fs ≡ d =
      ap (verdict phase) (sym k) ∙ decide_cases lower p leaves phase d h in
    let act : d.action ≡ best = ap (λ (d : Decision). d.action) (sym same) ∙ a in
    (
      ap (λ (d : Decision). d.refusal) (sym same) ∙ b,
      subst (λ a. All (λ (f : Finding). action_rank f.action ≤ action_rank a) fs) (sym act)
          (aggregate_max allow fs).1,
      ap (λ (d : Decision). d.findings) (sym same) ∙ c ∙ ap (λ a. chosen a fs) (sym act),
      ap (λ (d : Decision). d.substitutions) (sym same)
          ∙ e
          ∙ ap (λ a. substitutions_of phase a fs) (sym act),
    )

aggregate_response :
    (best : Action) (fs : List Finding)
    → is_redact best ≡ false
    → All (λ (f : Finding). is_redact f.action ≡ false) fs
    → is_redact (aggregate_loop best fs) ≡ false
unfolding aggregate_loop
aggregate_response best [] h k = h
aggregate_response best (f ∷ fs) h (kf, k) =
    elim (Bool-cases (ltb (action_rank best) (action_rank f.action))) [
      | inl e ↦ rw (e, aggregate_loop) (aggregate_response f.action fs kf k)
      | inr e ↦ rw (e, aggregate_loop) (aggregate_response best fs h k)
    ]

response_verdict :
    (c : Collected) (d : Decision)
    → verdict response c ≡ d
    → ((fs : List Finding) → c ≡ found fs → All (λ (f : Finding). is_redact f.action ≡ false) fs)
    → (d.substitutions ≡ []) × (is_redact d.action ≡ false)
unfolding verdict aggregate_action scope_eq is_redact
response_verdict (refused f) d h k = (
  ap (λ (d : Decision). d.substitutions) (sym h),
  ap (λ (d : Decision). is_redact d.action) (sym h),
)
response_verdict (found fs) d h k =
    let best = aggregate_loop allow fs in
    let (a, b, c, e) = add_findings_lem (empty_decision response best) fs in
    (
      ap (λ (d : Decision). d.substitutions) (sym h) ∙ e,
      ap (λ (d : Decision). is_redact d.action) (sym h)
          ∙ ap is_redact a
          ∙ aggregate_response allow fs refl (k fs refl),
    )

-- In the response phase a decision carries no substitution request, and its action is not redact,
-- whatever the rules declare and answer.
pub decide_response :
    (lower : Bytes → Bytes) (p : Policy) (leaves : List Leaf) (d : Decision)
    → decide lower (some p) leaves response ≡ decided d
    → (d.substitutions ≡ []) × (is_redact d.action ≡ false)
decide_response lower p leaves d h =
    response_verdict (collect lower p.entries p.sensitive leaves response) d
      (decide_cases lower p leaves response d h)
      (λ fs k. collect_response lower p.entries p.sensitive leaves fs k)
