-- ===== src/Tests/Evaluate.antt =====
-- The properties of the evaluation of a compiled set at concrete inputs.
use tokenhush.Base.{
  ◌≡◌, refl, ◌≤◌, none, some, List, [], ◌∷◌, codes, length, has_prefix, index, arith,
}
use tokenhush.Protocol.Leaf.{Leaf, plain_leaf}
use tokenhush.Filter.Rule.{request, scope_eq, max_matches}
use tokenhush.Filter.Sensitive.{matches}
use tokenhush.Filter.Evaluate.{
  Finding, Compiled, span_at, literal_loop, literals_loop, blocklist_spans, add_finding,
  block_finding, rules_loop, gate_step, block_loop, block_step, leaf_step, leaves_loop,
  insert_finding, sort_findings, evaluated, evaluate,
}
use tokenhush.Filter.Evaluate.Blocked.{IsBlock, evaluate_limit, blocklist_blocks}
use tokenhush.Filter.Evaluate.Literals.{Has}

-- A literal that is on both lists.
abbrev both_lists : Compiled
both_lists = record {
  rules = [];
  allowlist = codes "bad" ∷ [];
  blocklist = codes "bad" ∷ [];
  sensitive = none;
}

abbrev bad_leaves : List Leaf
bad_leaves = plain_leaf (codes "a bad one") ∷ []

abbrev bad_findings : List Finding
bad_findings = block_finding 0 (span_at 2 (codes "bad")) ∷ []

bad_evaluated : evaluate (λ s. s) (some both_lists) bad_leaves request ≡ evaluated bad_findings
unfolding evaluate leaves_loop leaf_step rules_loop gate_step block_step block_loop blocklist_spans
    literals_loop literal_loop add_finding sort_findings insert_finding index has_prefix scope_eq
    matches max_matches
bad_evaluated = refl

bad_index : index (codes "bad") (codes "a bad one") ≡ some 2
unfolding index has_prefix
bad_index = refl

evaluate_limit_example : length bad_findings ≤ 4096
evaluate_limit_example =
    evaluate_limit (λ s. s) both_lists bad_leaves request bad_findings bad_evaluated

blocklist_blocks_example : Has (IsBlock 0 2 (codes "bad")) bad_findings
blocklist_blocks_example =
    blocklist_blocks (λ s. s) both_lists bad_leaves request bad_findings 0
      (plain_leaf (codes "a bad one")) 0 (codes "bad") 2 bad_evaluated refl refl (omega arith)
      bad_index
