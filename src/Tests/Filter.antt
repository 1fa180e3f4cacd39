-- ===== src/Tests/Filter.antt =====
-- The properties of the rule evaluation and the policy at concrete inputs: a rule that redacts in the
-- request phase, and one that warns in both phases.
use tokenhush.Base.{
  pos, ℕ, ◌≤◌, ◌≡◌, refl, false, some, none, List, [], ◌∷◌, Bytes, codes, length, All,
}
use tokenhush.Filter.Rule.{
  Scope, request, response, both, Action, redact, warn, returns, builtin, scope_eq, is_redact,
  known_scope, known_action, confidence_ok, meta_ok, covers, max_matches, check_span, check_spans,
  judge, invoke,
}
use tokenhush.Protocol.Leaf.{Leaf, plain_leaf}
use tokenhush.Filter.Sensitive.{matches, allows}
use tokenhush.Filter.Collect.{
  Finding, RegistryEntry, found, take_result, entry_step, entries_loop, gate_step, leaf_step,
  leaves_loop, before, insert_finding, sort_findings, collect,
}
use tokenhush.Filter.Collect.Findings.{IsPlaced, IsSorted, collect-IsPlaced, collect_response}
use tokenhush.Filter.Policy.{Decision, Policy, decided, action_rank, verdict, decide}
use tokenhush.Filter.Policy.Verdict.{chosen, substitutions_of, decide_verdict, decide_response}

abbrev same_case : Bytes → Bytes
same_case s = s

abbrev redacting : RegistryEntry
redacting = record {
  rule = record {
    meta = record {
      category = codes "custom";
      scope = request;
      action = redact;
      confidence = 0x3ff0000000000000;
    };
    inspect = λ leaf. returns ((pos 1, pos 3) ∷ (pos 0, pos 1) ∷ []);
  };
  origin = builtin;
  id = codes "one";
  rank = 0;
}

abbrev warning : RegistryEntry
warning = record {
  rule = record {
    meta = record {
      category = codes "email";
      scope = both;
      action = warn;
      confidence = 0x3ff0000000000000;
    };
    inspect = λ leaf. returns ((pos 0, pos 2) ∷ []);
  };
  origin = builtin;
  id = codes "two";
  rank = 1;
}

abbrev policy : Policy
policy = record { entries = redacting ∷ warning ∷ []; sensitive = none }

abbrev leaves : List Leaf
leaves = plain_leaf (codes "abc") ∷ []

abbrev finding : Bytes → Bytes → Action → ℕ → ℕ → Finding
finding id category action start end = record {
  rule_id = id;
  category = category;
  action = action;
  leaf_index = 0;
  start = start;
  end = end;
  confidence = 0x3ff0000000000000;
  origin = builtin;
}

abbrev request_findings : List Finding
request_findings =
    finding (codes "one") (codes "custom") redact 0 1
    ∷ finding (codes "two") (codes "email") warn 0 2
    ∷ finding (codes "one") (codes "custom") redact 1 3
    ∷ []

abbrev response_findings : List Finding
response_findings = finding (codes "two") (codes "email") warn 0 2 ∷ []

collected_request : collect same_case policy.entries none leaves request ≡ found request_findings
unfolding collect leaves_loop leaf_step entries_loop entry_step take_result gate_step sort_findings
    insert_finding before invoke judge check_spans check_span meta_ok covers known_scope
    known_action confidence_ok scope_eq is_redact matches allows max_matches
collected_request = refl

collected_response : collect same_case policy.entries none leaves response ≡ found response_findings
unfolding collect leaves_loop leaf_step entries_loop entry_step take_result gate_step sort_findings
    insert_finding before invoke judge check_spans check_span meta_ok covers known_scope
    known_action confidence_ok scope_eq is_redact matches allows max_matches
collected_response = refl

abbrev decision : Scope → Decision
decision phase = verdict phase (collect same_case policy.entries none leaves phase)

decided_request : decide same_case (some policy) leaves request ≡ decided (decision request)
unfolding decide scope_eq
decided_request = refl

decided_response : decide same_case (some policy) leaves response ≡ decided (decision response)
unfolding decide scope_eq
decided_response = refl

collect-IsPlaced_example :
    All (IsPlaced leaves) request_findings
    × (length request_findings ≤ max_matches)
    × IsSorted request_findings
collect-IsPlaced_example =
    collect-IsPlaced same_case policy.entries none leaves request request_findings collected_request

collect_response_example : All (λ (f : Finding). is_redact f.action ≡ false) response_findings
collect_response_example =
    collect_response same_case policy.entries none leaves response_findings collected_response

decide_verdict_example :
    ((decision request).refusal ≡ none)
    × All
        (λ (f : Finding). action_rank f.action ≤ action_rank (decision request).action)
        request_findings
    × ((decision request).findings ≡ chosen (decision request).action request_findings)
    × ((decision request).substitutions
        ≡ substitutions_of request (decision request).action request_findings)
decide_verdict_example =
    decide_verdict same_case policy leaves request (decision request) request_findings
      decided_request collected_request

decide_response_example :
    ((decision response).substitutions ≡ []) × (is_redact (decision response).action ≡ false)
decide_response_example =
    decide_response same_case policy leaves (decision response) decided_response
