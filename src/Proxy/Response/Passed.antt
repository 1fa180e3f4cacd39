-- ===== src/Proxy/Response/Passed.antt =====
-- The judgements of the response path: what the evaluator lets through, in a body and in the events of
-- a stream.
use tokenhush.Base.{
  ◌≡◌, refl, sym, ap, ◌∙◌, subst, inl, inr, Bool, true, false, not, ◌||◌, Option, none, some, List,
  [], ◌∷◌, ◌++◌, Bytes, All, Bool-cases, Option-cases,
}
use tokenhush.Protocol.Sse.{Event}
use tokenhush.Proxy.Response.{
  ResponseAction, response_allow, response_warn, response_block, other_action, ResponseDecision,
  Gateway, Monitor, count_block, Refusal, rule_blocked, primary_rule, warn, judge_body, decode_sse,
  SseVerdict, event_verdict, events_loop, no_verdict, conclude, judge_sse,
}

-- The actions that let a body through.
abbrev pub Passes : ResponseAction → Type 0
Passes response_allow = Unit
Passes response_warn = Unit
Passes response_block = ⊥
Passes (other_action name) = ⊥

-- The evaluator has no objection to a text.
abbrev pub IsPassed : Gateway → Bytes → Type 0
IsPassed g text =
    (evaluate : Bytes → Option ResponseDecision) (d : ResponseDecision)
    → g.evaluator ≡ some evaluate
    → evaluate text ≡ some d
    → Passes d.action

pub judge_body-IsPassed :
    (g : Gateway) (body : Bytes) (m : Monitor) → (judge_body g body m).0 ≡ none → IsPassed g body
unfolding judge_body
judge_body-IsPassed g body m h evaluate d e f = go d.action refl (rw f at (rw (e, judge_body) at h))
  where
    go :
        (a : ResponseAction)
        → d.action ≡ a
        → (elim d.action as (λ _. Option Refusal × Monitor) [
          | response_warn ↦ (none, warn g d.rule_ids m)
          | response_allow ↦ (none, m)
          | response_block ↦ (some (rule_blocked (primary_rule d.rule_ids)), count_block m)
          | other_action _ ↦ (some (rule_blocked (primary_rule d.rule_ids)), count_block m)
        ]).0
          ≡ none
        → Passes d.action
    go response_allow x h = subst Passes (sym x) tt
    go response_warn x h = subst Passes (sym x) tt
    go response_block x h = cc (rw x at h)
    go (other_action name) x h = cc (rw x at h)

-- The evaluator has no objection to the data of an event, or it is no JSON.
abbrev pub IsPassedEvent : Gateway → Event → Type 0
IsPassedEvent g ev = g.stream.json_valid ev.payload ≡ true → IsPassed g ev.payload

module _ (g : Gateway) (evaluate : Bytes → Option ResponseDecision)
    (known : g.evaluator ≡ some evaluate) where
  abbrev Kept : Event → SseVerdict → SseVerdict × Monitor → Type 0
  Kept ev v r = r.0.blocked ≡ false → (v.blocked ≡ false) × IsPassedEvent g ev

  same_evaluator :
      (text : Bytes) (d : ResponseDecision)
      → evaluate text ≡ some d
      → Passes d.action
      → IsPassed g text
  same_evaluator text d e p evaluate' d' k f =
      let q : evaluate ≡ evaluate' = cc (sym known ∙ k) in
      let r : some d ≡ some d' =
        sym e ∙ ap (λ (h : Bytes → Option ResponseDecision). h text) q ∙ f in
      let same : d ≡ d' = cc r in subst (λ (x : ResponseDecision). Passes x.action) same p

  no_decision : (text : Bytes) → evaluate text ≡ none → IsPassed g text
  no_decision text e evaluate' d' k f =
      let q : evaluate ≡ evaluate' = cc (sym known ∙ k) in
      let r : none ≡ some d' = sym e ∙ ap (λ (h : Bytes → Option ResponseDecision). h text) q ∙ f in
      cc r

  event-Kept :
      (ev : Event) (v : SseVerdict) (m : Monitor)
      → Kept ev v (event_verdict evaluate g.stream ev (v, m))
  unfolding event_verdict
  event-Kept ev v m h = elim (Bool-cases (g.stream.json_valid ev.payload)) [
    | inr e ↦ (rw (e, event_verdict) at h, λ f. cc (sym e ∙ f))
    | inl e ↦ elim (Option-cases (evaluate ev.payload)) [
      | inl f ↦ (rw f at (rw (e, event_verdict) at h), λ _. no_decision ev.payload f)
      | inr (d, f) ↦ go d f d.action refl (rw f at (rw (e, event_verdict) at h))
    ]
  ]
    where
      go :
          (d : ResponseDecision)
          → evaluate ev.payload ≡ some d
          → (a : ResponseAction) → d.action ≡ a
          → (elim d.action as (λ _. SseVerdict × Monitor) [
            | response_warn ↦ (record v { warn_ids = v.warn_ids ++ d.rule_ids }, m)
            | response_allow ↦ (v, m)
            | response_block ↦
                (record v { blocked = true; block_ids = v.block_ids ++ d.rule_ids }, m)
            | other_action _ ↦
                (record v { blocked = true; block_ids = v.block_ids ++ d.rule_ids }, m)
          ]).0.blocked
            ≡ false
          → (v.blocked ≡ false) × IsPassedEvent g ev
      go d f response_allow x h =
          (rw x at h, λ _. same_evaluator ev.payload d f (subst Passes (sym x) tt))
      go d f response_warn x h =
          (rw x at h, λ _. same_evaluator ev.payload d f (subst Passes (sym x) tt))
      go d f response_block x h = cc (rw x at h)
      go d f (other_action name) x h = cc (rw x at h)

  events_kept :
      (evs : List Event) (r : SseVerdict × Monitor)
      → (events_loop evaluate g.stream evs r).0.blocked ≡ false
      → (r.0.blocked ≡ false) × All (IsPassedEvent g) evs
  unfolding events_loop
  events_kept [] r h = (h, tt)
  events_kept (ev ∷ evs) (v, m) h =
      let (first, rest) = events_kept evs (event_verdict evaluate g.stream ev (v, m)) h in
      let (before, passed) = event-Kept ev v m first in (before, (passed, rest))

conclude-none :
    (g : Gateway) (v : SseVerdict) (m : Monitor) → (conclude g v m).0 ≡ none → v.blocked ≡ false
unfolding conclude
conclude-none g v m h = elim (Bool-cases v.blocked) [
  | inl e ↦ cc (rw (e, conclude) at h)
  | inr e ↦ e
]

no_evaluator : (g : Gateway) (evs : List Event) → g.evaluator ≡ none → All (IsPassedEvent g) evs
no_evaluator g [] e = tt
no_evaluator g (ev ∷ evs) e = ((λ _ evaluate d k f. cc (sym e ∙ k)), no_evaluator g evs e)

pub judge_sse-All :
    (g : Gateway) (body : Bytes) (m : Monitor)
    → (judge_sse g body m).0 ≡ none
    → All (IsPassedEvent g) (decode_sse body)
unfolding judge_sse
judge_sse-All g body m h = elim (Option-cases g.evaluator) [
  | inl e ↦ no_evaluator g (decode_sse body) e
  | inr (evaluate, e) ↦
      let r = events_loop evaluate g.stream (decode_sse body) (no_verdict, m) in
      (events_kept g evaluate e (decode_sse body) (no_verdict, m)
        (conclude-none g r.0 r.1 (rw (e, judge_sse) at h))).1
]

-- The same as tests.
unfoldable pub passes : ResponseAction → Bool
passes response_allow = true
passes response_warn = true
passes response_block = false
passes (other_action name) = false

unfoldable pub passes_text : Gateway → Bytes → Bool
passes_text g text = elim g.evaluator [
  | none ↦ true
  | some evaluate ↦ elim (evaluate text) [ none ↦ true | some d ↦ passes d.action ]
]

unfoldable pub passes_event : Gateway → Event → Bool
passes_event g ev = not (g.stream.json_valid ev.payload) || passes_text g ev.payload

Passes-passes : (a : ResponseAction) → Passes a → passes a ≡ true
unfolding passes
Passes-passes response_allow h = refl
Passes-passes response_warn h = refl
Passes-passes response_block h = absurd h
Passes-passes (other_action name) h = absurd h

pub IsPassed-passes_text :
    (g : Gateway) (text : Bytes) → IsPassed g text → passes_text g text ≡ true
unfolding passes_text
IsPassed-passes_text g text h = elim (Option-cases g.evaluator) [
  | inl e ↦ rw (e, passes_text) refl
  | inr (evaluate, e) ↦ elim (Option-cases (evaluate text)) [
    | inl f ↦ rw (e, passes_text) (rw f refl)
    | inr (d, f) ↦ rw (e, passes_text) (rw f (Passes-passes d.action (h evaluate d e f)))
  ]
]

IsPassedEvent-passes_event :
    (g : Gateway) (ev : Event) → IsPassedEvent g ev → passes_event g ev ≡ true
unfolding passes_event
IsPassedEvent-passes_event g ev h = elim (Bool-cases (g.stream.json_valid ev.payload)) [
  | inr e ↦ rw (e, passes_event) refl
  | inl e ↦ rw (e, passes_event) (IsPassed-passes_text g ev.payload (h e))
]

pub All-passes_event :
    (g : Gateway) (evs : List Event)
    → All (IsPassedEvent g) evs
    → All (λ (ev : Event). passes_event g ev ≡ true) evs
All-passes_event g [] h = tt
All-passes_event g (ev ∷ evs) (h, hs) =
    (IsPassedEvent-passes_event g ev h, All-passes_event g evs hs)
