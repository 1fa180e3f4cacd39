-- ===== src/Filter/Collect.antt =====
-- `collect` of pkg/filter/collect.go: every rule over every leaf, with the sensitive-key gate, the
-- match budget and the stable sort.
pub mod Placed
pub mod Loops
pub mod Findings
use tokenhush.Base.{
  ℕ, zero, suc, ◌+◌, ◌≤◌, ◌<◌, Bool, true, false, not, ◌&&◌, ◌||◌, Option, none, some, List, [],
  ◌∷◌, ◌++◌, Bytes, codes, ltb, leb, ◌==◌, if◌then◌else◌, length, map,
}
use tokenhush.Protocol.Sse.{Span}
use tokenhush.Filter.Rule.{
  Scope, request, response, both, other_scope, Action, allow, warn, redact, block, other_action,
  Reason, budget, Invocation, Origin, builtin, remote_pack, plugin, RuleMeta, Rule, accepted,
  failed, scope_eq, is_redact, covers, max_matches, invoke,
}
use tokenhush.Protocol.Leaf.{Leaf, plain_leaf}
use tokenhush.Filter.Sensitive.{SensitiveMatcher, matches, allows}

-- `AttributedFinding`, with the `Finding` in it.
pub record Finding : Type 0 where
  pub rule_id : Bytes
  pub category : Bytes
  pub action : Action
  pub leaf_index : ℕ
  pub start : ℕ
  pub end : ℕ
  pub confidence : ℕ
  pub origin : Origin

pub record RegistryEntry : Type 0 where
  pub rule : Rule
  pub origin : Origin
  pub id : Bytes
  pub rank : ℕ

pub record RuleFailure : Type 0 where
  pub rule_id : Bytes
  pub origin : Origin
  pub reason : Reason

pub data Collected : Type 0 where
  found : List Finding → Collected
  refused : RuleFailure → Collected

abbrev pub sensitive_key_rule_id : Bytes
sensitive_key_rule_id = codes "sensitive_key"

-- The finding of one accepted span.
abbrev pub finding_of : RegistryEntry → RuleMeta → ℕ → Span → Finding
finding_of e m index span = record {
  rule_id = e.id;
  category = m.category;
  action = m.action;
  leaf_index = index;
  start = span.start;
  end = span.end;
  confidence = m.confidence;
  origin = e.origin;
}

abbrev pub sensitive_key_finding : ℕ → Bytes → Finding
sensitive_key_finding index value = record {
  rule_id = sensitive_key_rule_id;
  category = codes "custom";
  action = redact;
  leaf_index = index;
  start = 0;
  end = length value;
  confidence = 0x3ff0000000000000;
  origin = remote_pack;
}

-- What an invocation adds to the findings.
unfoldable pub take_result :
    Scope → Bool → ℕ → RegistryEntry → List Finding → Invocation → Collected
take_result phase gated index e out (failed reason) =
    refused (record { rule_id = e.id; origin = e.origin; reason = reason })
take_result phase gated index e out (accepted spans m) =
    if not (covers m phase) || (gated && is_redact m.action)
    then found out
    else if ltb max_matches (length out + length spans)
    then refused (record { rule_id = e.id; origin = e.origin; reason = budget })
    else found (out ++ map (finding_of e m index) spans)

-- The body of the inner loop.
unfoldable pub entry_step : Scope → Bool → ℕ → Bytes → RegistryEntry → List Finding → Collected
entry_step phase gated index value e out =
    if gated && is_redact e.rule.meta.action
    then found out
    else take_result phase gated index e out (invoke (some e.rule) value phase)

unfoldable pub entries_loop :
    Scope → Bool → ℕ → Bytes → List RegistryEntry → List Finding → Collected
entries_loop phase gated index value [] out = found out
entries_loop phase gated index value (e ∷ es) out =
    elim (entry_step phase gated index value e out) [
      | refused f ↦ refused f
      | found out' ↦ entries_loop phase gated index value es out'
    ]

-- The finding of the gate, behind the rules of a leaf.
unfoldable pub gate_step : Bool → Option SensitiveMatcher → ℕ → Bytes → List Finding → Collected
gate_step gated sensitive index value out =
    if gated && not (allows sensitive value)
    then (if leb max_matches (length out)
        then refused
            (record { rule_id = sensitive_key_rule_id; origin = remote_pack; reason = budget })
        else found (out ++ sensitive_key_finding index value ∷ []))
    else found out

-- The body of the outer loop.
unfoldable pub leaf_step :
    (Bytes → Bytes)
    → List RegistryEntry
    → Option SensitiveMatcher
    → Scope
    → ℕ
    → Leaf
    → List Finding
    → Collected
leaf_step lower entries sensitive phase index leaf out =
    let gated = scope_eq phase request && matches lower sensitive leaf in
    if length leaf.value == 0
    then found out
    else elim (entries_loop phase gated index leaf.value entries out) [
      | refused f ↦ refused f
      | found out' ↦ gate_step gated sensitive index leaf.value out'
    ]

unfoldable pub leaves_loop :
    (Bytes → Bytes)
    → List RegistryEntry
    → Option SensitiveMatcher
    → Scope
    → ℕ
    → List Leaf
    → List Finding
    → Collected
leaves_loop lower entries sensitive phase index [] out = found out
leaves_loop lower entries sensitive phase index (leaf ∷ leaves) out =
    elim (leaf_step lower entries sensitive phase index leaf out) [
      | refused f ↦ refused f
      | found out' ↦ leaves_loop lower entries sensitive phase (index + 1) leaves out'
    ]

-- The order of the sort: by leaf, start and end.
unfoldable pub before : Finding → Finding → Bool
before a b =
    if not (a.leaf_index == b.leaf_index)
    then ltb a.leaf_index b.leaf_index
    else if not (a.start == b.start)
    then ltb a.start b.start
    else ltb a.end b.end

-- `sort.SliceStable`, as insertion from the right: a finding goes in front of all that are not
-- before it.
unfoldable pub insert_finding : Finding → List Finding → List Finding
insert_finding f [] = f ∷ []
insert_finding f (g ∷ gs) = if before g f then g ∷ insert_finding f gs else f ∷ g ∷ gs

unfoldable pub sort_findings : List Finding → List Finding
sort_findings [] = []
sort_findings (f ∷ fs) = insert_finding f (sort_findings fs)

unfoldable pub collect :
    (Bytes → Bytes) → List RegistryEntry → Option SensitiveMatcher → List Leaf → Scope → Collected
collect lower entries sensitive leaves phase =
    elim (leaves_loop lower entries sensitive phase 0 leaves []) [
      | refused f ↦ refused f
      | found out ↦ found (sort_findings out)
    ]
