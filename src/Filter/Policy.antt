-- ===== src/Filter/Policy.antt =====
-- `Policy` of pkg/filter/policy.go: the verdict of one content phase. The audit record that is written
-- for a refusal is output and not modelled.
pub mod Verdict
use tokenhush.Base.{
  ℕ, zero, suc, ◌+◌, ◌≤◌, ◌<◌, Bool, true, false, not, ◌&&◌, ◌||◌, Option, none, some, List, [],
  ◌∷◌, ◌++◌, Bytes, codes, ltb, leb, ◌==◌, if◌then◌else◌, bytes_eq,
}
use tokenhush.Filter.Rule.{
  Scope, request, response, both, other_scope, Action, allow, warn, redact, block, other_action,
  Reason, Origin, scope_eq,
}
use tokenhush.Protocol.Leaf.{Leaf, plain_leaf}
use tokenhush.Filter.Sensitive.{SensitiveMatcher}
use tokenhush.Filter.Collect.{
  Finding, RegistryEntry, RuleFailure, Collected, found, refused, collect,
}

pub record SubstitutionRequest : Type 0 where
  pub rule_id : Bytes
  pub origin : Origin
  pub leaf_index : ℕ
  pub start : ℕ
  pub end : ℕ
  pub category : Bytes

pub record Warning : Type 0 where
  pub rule_id : Bytes
  pub origin : Origin

pub record Decision : Type 0 where
  pub phase : Scope
  pub action : Action
  pub findings : List Finding
  pub substitutions : List SubstitutionRequest
  pub warnings : List Warning
  pub refusal : Option RuleFailure

pub record Policy : Type 0 where
  pub entries : List RegistryEntry
  pub sensitive : Option SensitiveMatcher

pub data DecideError : Type 0 where
  nil_policy unknown_phase : DecideError

pub data Decided : Type 0 where
  decided : Decision → Decided
  rejected : DecideError → Decided

-- `actionRank`, one higher: Go's -1 for an unknown action is 0.
unfoldable pub action_rank : Action → ℕ
action_rank allow = 1
action_rank warn = 2
action_rank redact = 3
action_rank block = 4
action_rank (other_action s) = 0

-- The loop of `aggregateAction`.
unfoldable pub aggregate_loop : Action → List Finding → Action
aggregate_loop best [] = best
aggregate_loop best (f ∷ fs) =
    aggregate_loop (if ltb (action_rank best) (action_rank f.action) then f.action else best) fs

unfoldable pub aggregate_action : List Finding → Action
aggregate_action fs = aggregate_loop allow fs

-- `a == b` on actions.
unfoldable pub action_eq : Action → Action → Bool
action_eq allow allow = true
action_eq warn warn = true
action_eq redact redact = true
action_eq block block = true
action_eq (other_action s) (other_action t) = bytes_eq s t
action_eq _ _ = false

-- The body of the loop of `Decide`.
unfoldable pub add_finding : Decision → Finding → Decision
add_finding d f =
    if not (action_eq f.action d.action)
    then d
    else if scope_eq d.phase request && action_eq f.action redact
    then record d {
      findings = d.findings ++ f ∷ [];
      substitutions =
          d.substitutions
          ++ (record {
            rule_id = f.rule_id;
            origin = f.origin;
            leaf_index = f.leaf_index;
            start = f.start;
            end = f.end;
            category = f.category;
          })
            ∷ [];
    }
    else if scope_eq d.phase response && action_eq f.action warn
    then record d {
      findings = d.findings ++ f ∷ [];
      warnings = d.warnings ++ (record { rule_id = f.rule_id; origin = f.origin }) ∷ [];
    }
    else record d { findings = d.findings ++ f ∷ [] }

unfoldable pub add_findings : Decision → List Finding → Decision
add_findings d [] = d
add_findings d (f ∷ fs) = add_findings (add_finding d f) fs

abbrev pub empty_decision : Scope → Action → Decision
empty_decision phase action = record {
  phase = phase;
  action = action;
  findings = [];
  substitutions = [];
  warnings = [];
  refusal = none;
}

-- The verdict on what was collected.
unfoldable pub verdict : Scope → Collected → Decision
verdict phase (refused failure) = record (empty_decision phase block) { refusal = some failure }
verdict phase (found fs) = add_findings (empty_decision phase (aggregate_action fs)) fs

-- `Decide`; `none` is a nil policy.
unfoldable pub decide : (Bytes → Bytes) → Option Policy → List Leaf → Scope → Decided
decide lower none leaves phase = rejected nil_policy
decide lower (some p) leaves phase =
    if not (scope_eq phase request) && not (scope_eq phase response)
    then rejected unknown_phase
    else decided (verdict phase (collect lower p.entries p.sensitive leaves phase))
