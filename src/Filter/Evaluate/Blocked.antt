-- ===== src/Filter/Evaluate/Blocked.antt =====
-- A blocklist literal in a leaf blocks, whatever the allowlists say; and the limit on findings.
use tokenhush.Base.{
  ℕ, zero, suc, ◌+◌, ◌≤◌, ◌≡◌, refl, sym, subst, ◌⊎◌, inl, inr, not, ◌&&◌, Option, none, some, List,
  [], ◌∷◌, codes, Bytes, ltb, ◌==◌, length, get_elem?, index, arith, Bool-cases, Option-cases,
}
use tokenhush.Protocol.Sse.{Span}
use tokenhush.Protocol.Leaf.{Leaf}
use tokenhush.Filter.Rule.{block, Scope, request, response, scope_eq, max_matches}
use tokenhush.Filter.Sensitive.{matches}
use tokenhush.Filter.Evaluate.{
  Finding, Compiled, span_at, blocklist_spans, add_finding, block_finding, rules_loop, gate_step,
  block_loop, block_step, leaf_step, leaves_loop, before, insert_finding, sort_findings, evaluated,
  evaluate,
}
use tokenhush.Filter.Evaluate.Literals.{Has, blocklist_found}
use tokenhush.Filter.Evaluate.Steps.{
  IsStep, stay, both_steps, bind_inv, add-IsStep, never, rules_loop-IsStep, gate_step-IsStep,
}

-- The loop over the spans of the blocklist turns each into a finding.
block_loop-IsStep :
    (i : ℕ) (spans : List Span) (out out' : List Finding)
    → block_loop i spans out ≡ some out'
    → IsStep out out'
      × ((s : Span) → Has (λ t. t ≡ s) spans → Has (λ g. g ≡ block_finding i s) out')
unfolding block_loop
block_loop-IsStep i [] out out' h = (stay out out' h, λ s g. absurd g)
block_loop-IsStep i (span ∷ spans) out out' h =
    let (mid, a, b) =
      bind_inv (add_finding (block_finding i span) out) (block_loop i spans) out' h in
    let (first, new) = add-IsStep (block_finding i span) out mid a in
    let (more, found) = block_loop-IsStep i spans mid out' b in
    (
      both_steps out mid out' first more,
      λ s g. elim g [
        | inl same ↦ subst (λ t. Has (λ f. f ≡ block_finding i t) out') same (more.keeps _ new)
        | inr later ↦ found s later
      ],
    )

block_step-IsStep :
    (c : Compiled) (i : ℕ) (value : Bytes) (out out' : List Finding)
    → block_step c i value out ≡ some out'
    → IsStep out out'
      × ((j : ℕ) (literal : Bytes) (at : ℕ)
          → get_elem? c.blocklist j ≡ some literal
          → index literal value ≡ some at
          → Has (λ g. g ≡ block_finding i (span_at at literal)) out')
unfolding block_step
block_step-IsStep c i value out out' h =
    elim (Bool-cases (ltb max_matches (length (blocklist_spans value c.blocklist)))) [
      | inl many ↦ absurd (never out' (rw many at h))
      | inr few ↦
          let (step, found) =
            block_loop-IsStep i (blocklist_spans value c.blocklist) out out' (rw few at h) in
          (
            step,
            λ j literal at g k.
                found (span_at at literal)
                  (blocklist_found value c.blocklist j literal at g k (ground arith)),
          )
    ]

-- The step of one leaf, with a finding for each blocklist literal in it.
leaf_step-IsStep :
    (lower : Bytes → Bytes) (c : Compiled) (phase : Scope) (i : ℕ) (leaf : Leaf)
    (out out' : List Finding)
    → leaf_step lower c phase i leaf out ≡ some out'
    → IsStep out out'
      × ((j : ℕ) (literal : Bytes) (at : ℕ)
          → get_elem? c.blocklist j ≡ some literal
          → 1 ≤ length leaf.value
          → index literal leaf.value ≡ some at
          → Has (λ g. g ≡ block_finding i (span_at at literal)) out')
unfolding leaf_step
leaf_step-IsStep lower c phase i leaf out out' h = elim (Bool-cases (length leaf.value == 0)) [
  | inl e ↦ (stay out out' (rw e at h), λ j literal at g le k. absurd (ground arith))
  | inr e ↦
      let gated = scope_eq phase request && matches lower c.sensitive leaf in
      let (a, ra, rb) =
        bind_inv (rules_loop c c.rules phase gated i leaf.value out)
          (λ x. elim (gate_step c gated i leaf.value x) as (λ _. Option (List Finding)) [
            | none ↦ none
            | some y ↦ block_step c i leaf.value y
          ])
          out' (rw e at h) in
      let (b, ga, gb) =
        bind_inv (gate_step c gated i leaf.value a) (block_step c i leaf.value) out' rb in
      let (last, found) = block_step-IsStep c i leaf.value b out' gb in
      (
        both_steps out a out' (rules_loop-IsStep c phase gated i leaf.value c.rules out a ra)
            (both_steps a b out' (gate_step-IsStep c phase gated i leaf.value a b ga) last),
        λ j literal at g le k. found j literal at g k,
      )
]

-- What is said of the leaves from the index `i` on.
abbrev IsBlocked : Compiled → ℕ → List Leaf → List Finding → Type 0
IsBlocked c i leaves out =
    (k : ℕ) (leaf : Leaf) (j : ℕ) (literal : Bytes) (at : ℕ)
    → get_elem? leaves k ≡ some leaf
    → get_elem? c.blocklist j ≡ some literal
    → 1 ≤ length leaf.value
    → index literal leaf.value ≡ some at
    → Has (λ g. g ≡ block_finding (i + k) (span_at at literal)) out

IsBlocked-cons :
    (c : Compiled) (i : ℕ) (l : Leaf) (ls : List Leaf) (out : List Finding)
    → IsBlocked c i (l ∷ []) out
    → IsBlocked c (i + 1) ls out
    → IsBlocked c i (l ∷ ls) out
IsBlocked-cons c i l ls out here later zero leaf j literal at e g le x =
    here zero leaf j literal at (cc e) g le x
IsBlocked-cons c i l ls out here later (suc k) leaf j literal at e g le x =
    subst (λ n. Has (λ f. f ≡ block_finding n (span_at at literal)) out) {x = i + 1 + k}
      (omega arith) (later k leaf j literal at e g le x)

IsBlocked-one :
    (c : Compiled) (i : ℕ) (l : Leaf) (mid out : List Finding)
    → IsStep mid out
    → ((j : ℕ) (literal : Bytes) (at : ℕ)
        → get_elem? c.blocklist j ≡ some literal
        → 1 ≤ length l.value
        → index literal l.value ≡ some at
        → Has (λ g. g ≡ block_finding i (span_at at literal)) mid)
    → IsBlocked c i (l ∷ []) out
IsBlocked-one c i l mid out more here zero leaf j literal at e g le x =
    let same : l ≡ leaf = cc e in
    subst (λ n. Has (λ f. f ≡ block_finding n (span_at at literal)) out) {x = i} (omega arith)
      (more.keeps _ (
        here j literal at g (subst (λ (y : Leaf). 1 ≤ length y.value) (sym same) le)
          (subst (λ (y : Leaf). index literal y.value ≡ some at) (sym same) x)))
IsBlocked-one c i l mid out more here (suc k) leaf j literal at e g le x = cc e

leaves_loop-IsStep :
    (lower : Bytes → Bytes) (c : Compiled) (phase : Scope) (i : ℕ) (leaves : List Leaf)
    (out out' : List Finding)
    → leaves_loop lower c phase i leaves out ≡ some out'
    → IsStep out out' × IsBlocked c i leaves out'
unfolding leaves_loop
leaves_loop-IsStep lower c phase i [] out out' h = (stay out out' h, λ k leaf j literal at e. cc e)
leaves_loop-IsStep lower c phase i (l ∷ ls) out out' h =
    let (mid, a, b) =
      bind_inv (leaf_step lower c phase i l out) (leaves_loop lower c phase (i + 1) ls) out' h in
    let (first, here) = leaf_step-IsStep lower c phase i l out mid a in
    let (more, later) = leaves_loop-IsStep lower c phase (i + 1) ls mid out' b in
    (
      both_steps out mid out' first more,
      IsBlocked-cons c i l ls out' (IsBlocked-one c i l mid out' more here) later,
    )

insert-Has :
    (P : Finding → Type 0) (f : Finding) (fs : List Finding)
    → P f ⊎ Has P fs
    → Has P (insert_finding f fs)
unfolding insert_finding
insert-Has P f [] (inl h) = inl h
insert-Has P f [] (inr h) = absurd h
insert-Has P f (g ∷ gs) h = elim (Bool-cases (before g f)) [
  | inr e ↦ rw (e, insert_finding) h
  | inl e ↦
      rw (e, insert_finding)
        (elim h [
          | inl pf ↦ inr (insert-Has P f gs (inl pf))
          | inr old ↦ elim old [ inl pg ↦ inl pg | inr more ↦ inr (insert-Has P f gs (inr more)) ]
        ])
]

sort-Has : (P : Finding → Type 0) (fs : List Finding) → Has P fs → Has P (sort_findings fs)
unfolding sort_findings
sort-Has P [] h = h
sort-Has P (f ∷ fs) (inl h) = insert-Has P f (sort_findings fs) (inl h)
sort-Has P (f ∷ fs) (inr h) = insert-Has P f (sort_findings fs) (inr (sort-Has P fs h))

length-insert_finding :
    (f : Finding) (fs : List Finding) → length (insert_finding f fs) ≡ suc (length fs)
unfolding insert_finding
length-insert_finding f [] = refl
length-insert_finding f (g ∷ gs) = ground (arith, length-insert_finding f gs)

length-sort_findings : (fs : List Finding) → length (sort_findings fs) ≡ length fs
unfolding sort_findings
length-sort_findings [] = refl
length-sort_findings (f ∷ fs) =
    omega (arith, length-insert_finding f (sort_findings fs), length-sort_findings fs)

evaluate_inv :
    (lower : Bytes → Bytes) (c : Compiled) (leaves : List Leaf) (phase : Scope) (fs : List Finding)
    → evaluate lower (some c) leaves phase ≡ evaluated fs
    → (out : List Finding) × (leaves_loop lower c phase 0 leaves [] ≡ some out)
      × (sort_findings out ≡ fs)
unfolding evaluate
evaluate_inv lower c leaves phase fs h =
    elim (Bool-cases (not (scope_eq phase request) && not (scope_eq phase response))) [
      | inl e ↦ cc (rw (e, evaluate) at h)
      | inr e ↦ elim (Option-cases (leaves_loop lower c phase 0 leaves [])) [
        | inl f ↦ cc (rw f at (rw (e, evaluate) at h))
        | inr (out, f) ↦
            let h' : evaluated (sort_findings out) ≡ evaluated fs =
              rw f at (rw (e, evaluate) at h) in
            (out, f, cc h')
      ]
    ]

-- A blocking finding of the blocklist for a literal at an offset of a leaf.
pub record IsBlock (leaf at : ℕ) (literal : Bytes) (f : Finding) : Type 0 where
  pub blocks : f.action ≡ block
  pub by_blocklist : f.rule_id ≡ codes "blocklist"
  pub in_leaf : f.leaf_index ≡ leaf
  pub from : f.start ≡ at
  pub to : f.end ≡ at + length literal

IsBlock-found :
    (k at : ℕ) (literal : Bytes) (fs : List Finding)
    → Has (λ f. f ≡ block_finding k (span_at at literal)) fs
    → Has (IsBlock k at literal) fs
IsBlock-found k at literal [] h = absurd h
IsBlock-found k at literal (f ∷ fs) (inl e) = inl (
    subst (IsBlock k at literal) (sym e)
      (record { blocks = refl; by_blocklist = refl; in_leaf = refl; from = refl; to = refl }))
IsBlock-found k at literal (f ∷ fs) (inr h) = inr (IsBlock-found k at literal fs h)

-- For every compiled set and all leaves, in either phase: if the evaluation gives findings, they are
-- at most 4096.
pub evaluate_limit :
    (lower : Bytes → Bytes) (c : Compiled) (leaves : List Leaf) (phase : Scope) (fs : List Finding)
    → evaluate lower (some c) leaves phase ≡ evaluated fs
    → length fs ≤ 4096
unfolding max_matches
evaluate_limit lower c leaves phase fs h =
    let (out, e, sorted) = evaluate_inv lower c leaves phase fs h in
    let (step, blocked) = leaves_loop-IsStep lower c phase 0 leaves [] out e in
    subst (λ (gs : List Finding). length gs ≤ 4096) sorted
      (omega (arith, length-sort_findings out, step.limited (ground arith)))

-- For every compiled set and all leaves, in either phase: if the evaluation gives findings, then where
-- a literal of the blocklist stands in the value of a leaf that is not
-- empty, there is a finding of the blocklist that blocks, at the first occurrence, whatever the allowlists and the
-- sensitive-key gate say.
pub blocklist_blocks :
    (lower : Bytes → Bytes) (c : Compiled) (leaves : List Leaf) (phase : Scope) (fs : List Finding)
    (k : ℕ) (leaf : Leaf) (j : ℕ) (literal : Bytes) (at : ℕ)
    → evaluate lower (some c) leaves phase ≡ evaluated fs
    → get_elem? leaves k ≡ some leaf
    → get_elem? c.blocklist j ≡ some literal
    → 1 ≤ length leaf.value
    → index literal leaf.value ≡ some at
    → Has (IsBlock k at literal) fs
blocklist_blocks lower c leaves phase fs k leaf j literal at h x g le y =
    let (out, e, sorted) = evaluate_inv lower c leaves phase fs h in
    let (step, blocked) = leaves_loop-IsStep lower c phase 0 leaves [] out e in
    IsBlock-found k at literal fs (
      subst (Has (λ f. f ≡ block_finding k (span_at at literal))) sorted (
        sort-Has _ out (
          subst (λ n. Has (λ f. f ≡ block_finding n (span_at at literal)) out) {x = 0 + k}
            (omega arith) (blocked k leaf j literal at x g le y))))
