-- ===== src/Filter/Evaluate.antt =====
-- `Compiled.Evaluate` of pkg/filter/evaluate.go on a compiled set of pkg/filter/compile.go. A regular
-- expression is its `FindAllIndex`, which is given the limit; the matcher of a primitive is a function,
-- as in the source. `none` is a nil set. `lower` stands for `strings.ToLower`.
pub mod Literals
pub mod Steps
pub mod Blocked
use tokenhush.Base.{
  ℕ, zero, suc, ◌+◌, ◌≤◌, ◌<◌, Bool, true, false, not, ◌&&◌, ◌||◌, Option, none, some, List, [],
  ◌∷◌, ◌++◌, Bytes, codes, ltb, leb, ◌==◌, if◌then◌else◌, length, drop, index, map,
}
use tokenhush.Protocol.Sse.{Span}
use tokenhush.Protocol.Leaf.{Leaf}
use tokenhush.Filter.Rule.{
  Scope, request, response, both, Action, redact, block, scope_eq, is_redact, max_matches,
}
use tokenhush.Filter.Sensitive.{SensitiveMatcher, matches, allows, inside_occurrence}

pub record Finding : Type 0 where
  pub rule_id : Bytes
  pub category : Bytes
  pub action : Action
  pub leaf_index : ℕ
  pub start : ℕ
  pub end : ℕ
  pub confidence : ℕ

-- How a compiled rule matches: the fields `re`, `keywords` with `fold`, and `inspect`.
pub data Matching : Type 0 where
  by_regex : (ℕ → Bytes → List Span) → Matching
  by_keywords : List Bytes → Bool → Matching
  by_inspect : (Bytes → List Span) → Matching

-- `compiledRule`, without the type and the priority, which the evaluation does not read.
pub record CompiledRule : Type 0 where
  pub id : Bytes
  pub category : Bytes
  pub scope : Scope
  pub action : Action
  pub confidence : ℕ
  pub allow : List Bytes
  pub matching : Matching

-- `Compiled`, without the command ids and the byte budget.
pub record Compiled : Type 0 where
  pub rules : List CompiledRule
  pub allowlist : List Bytes
  pub blocklist : List Bytes
  pub sensitive : Option SensitiveMatcher

-- `foldASCII`.
unfoldable pub fold_byte : ℕ → ℕ
fold_byte c = if leb b'A' c && leb c b'Z' then c + 32 else c

abbrev pub fold_ascii : Bytes → Bytes
fold_ascii value = map fold_byte value

abbrev pub span_at : ℕ → Bytes → Span
span_at start literal = record { start = start; end = start + length literal }

-- The inner loop of `keywordSpans` and `blocklistSpans` over `hay[off:]`, for a literal that is not
-- empty; the Boolean says that the limit is passed and the function returns.
unfoldable pub literal_loop : ℕ → Bytes → Bytes → ℕ → List Span → Bool × List Span
literal_loop zero rest literal off spans = (false, spans)
literal_loop (suc fuel) rest literal off spans = elim (index literal rest) [
  | none ↦ (false, spans)
  | some at ↦
      let spans' = spans ++ span_at (off + at) literal ∷ [] in
      elim (ltb max_matches (length spans')) [
        | true ↦ (true, spans')
        | false ↦
            literal_loop fuel (drop (at + length literal) rest) literal (off + at + length literal)
              spans'
      ]
]

unfoldable pub literals_loop : Bytes → List Bytes → List Span → List Span
literals_loop hay [] spans = spans
literals_loop hay (literal ∷ literals) spans =
    let (full, spans') = literal_loop (length hay + 1) hay literal 0 spans in
    elim full [ true ↦ spans' | false ↦ literals_loop hay literals spans' ]

unfoldable pub keyword_spans : Bytes → List Bytes → Bool → List Span
keyword_spans value keywords fold =
    literals_loop (if fold then fold_ascii value else value) keywords []

unfoldable pub blocklist_spans : Bytes → List Bytes → List Span
blocklist_spans value literals = literals_loop value literals []

-- `regexSpans`: the matches that are not empty.
unfoldable pub nonempty_spans : List Span → List Span
nonempty_spans [] = []
nonempty_spans (s ∷ ss) =
    let rest = nonempty_spans ss in if ltb s.start s.end then s ∷ rest else rest

unfoldable pub rule_spans : CompiledRule → Bytes → List Span
rule_spans rule value = elim rule.matching [
  | by_regex find_all ↦ nonempty_spans (find_all (max_matches + 1) value)
  | by_keywords keywords fold ↦ keyword_spans value keywords fold
  | by_inspect inspect ↦ inspect value
]

unfoldable pub list_suppresses : Bytes → Span → List Bytes → Bool
list_suppresses value span [] = false
list_suppresses value span (literal ∷ literals) =
    inside_occurrence value literal span.start span.end || list_suppresses value span literals

-- `allowlistSuppressed`.
unfoldable pub allowlist_suppressed : Bytes → Span → List Bytes → List Bytes → Bool
allowlist_suppressed value span global own =
    list_suppresses value span global || list_suppresses value span own

-- One more finding, unless the limit is reached; `none` is `ErrMatchLimit`.
unfoldable pub add_finding : Finding → List Finding → Option (List Finding)
add_finding f out = if leb max_matches (length out) then none else some (out ++ f ∷ [])

abbrev pub rule_finding : CompiledRule → ℕ → Span → Finding
rule_finding rule i span = record {
  rule_id = rule.id;
  category = rule.category;
  action = rule.action;
  leaf_index = i;
  start = span.start;
  end = span.end;
  confidence = rule.confidence;
}

abbrev pub block_finding : ℕ → Span → Finding
block_finding i span = record {
  rule_id = codes "blocklist";
  category = codes "custom";
  action = block;
  leaf_index = i;
  start = span.start;
  end = span.end;
  confidence = 0x3ff0000000000000;
}

abbrev pub sensitive_finding : ℕ → Bytes → Finding
sensitive_finding i value = record {
  rule_id = codes "sensitive_key";
  category = codes "custom";
  action = redact;
  leaf_index = i;
  start = 0;
  end = length value;
  confidence = 0x3ff0000000000000;
}

-- The loop over the spans of one rule.
unfoldable pub rule_loop :
    Compiled → CompiledRule → ℕ → Bytes → List Span → List Finding → Option (List Finding)
rule_loop c rule i value [] out = some out
rule_loop c rule i value (span ∷ spans) out =
    elim (allowlist_suppressed value span c.allowlist rule.allow) [
      | true ↦ rule_loop c rule i value spans out
      | false ↦ elim (add_finding (rule_finding rule i span) out) [
        | none ↦ none
        | some out' ↦ rule_loop c rule i value spans out'
      ]
    ]

-- The body of the loop over the rules.
unfoldable pub rule_step :
    Compiled → CompiledRule → Scope → Bool → ℕ → Bytes → List Finding → Option (List Finding)
rule_step c rule phase gated i value out =
    if not (scope_eq rule.scope phase || scope_eq rule.scope both)
      || (gated && is_redact rule.action)
    then some out
    else if ltb max_matches (length (rule_spans rule value))
    then none
    else rule_loop c rule i value (rule_spans rule value) out

unfoldable pub rules_loop :
    Compiled → List CompiledRule → Scope → Bool → ℕ → Bytes → List Finding → Option (List Finding)
rules_loop c [] phase gated i value out = some out
rules_loop c (rule ∷ rules) phase gated i value out =
    elim (rule_step c rule phase gated i value out) [
      | none ↦ none
      | some out' ↦ rules_loop c rules phase gated i value out'
    ]

unfoldable pub gate_step : Compiled → Bool → ℕ → Bytes → List Finding → Option (List Finding)
gate_step c gated i value out =
    if gated && not (allows c.sensitive value)
    then add_finding (sensitive_finding i value) out
    else some out

unfoldable pub block_loop : ℕ → List Span → List Finding → Option (List Finding)
block_loop i [] out = some out
block_loop i (span ∷ spans) out = elim (add_finding (block_finding i span) out) [
  | none ↦ none
  | some out' ↦ block_loop i spans out'
]

unfoldable pub block_step : Compiled → ℕ → Bytes → List Finding → Option (List Finding)
block_step c i value out =
    let spans = blocklist_spans value c.blocklist in
    if ltb max_matches (length spans) then none else block_loop i spans out

-- The body of the loop over the leaves.
unfoldable pub leaf_step :
    (Bytes → Bytes) → Compiled → Scope → ℕ → Leaf → List Finding → Option (List Finding)
leaf_step lower c phase i leaf out =
    let gated = scope_eq phase request && matches lower c.sensitive leaf in
    if length leaf.value == 0
    then some out
    else elim (rules_loop c c.rules phase gated i leaf.value out) [
      | none ↦ none
      | some out1 ↦ elim (gate_step c gated i leaf.value out1) [
        | none ↦ none
        | some out2 ↦ block_step c i leaf.value out2
      ]
    ]

unfoldable pub leaves_loop :
    (Bytes → Bytes) → Compiled → Scope → ℕ → List Leaf → List Finding → Option (List Finding)
leaves_loop lower c phase i [] out = some out
leaves_loop lower c phase i (leaf ∷ leaves) out = elim (leaf_step lower c phase i leaf out) [
  | none ↦ none
  | some out' ↦ leaves_loop lower c phase (i + 1) leaves out'
]

-- `sortFindings`.
unfoldable pub before : Finding → Finding → Bool
before a b =
    if not (a.leaf_index == b.leaf_index)
    then ltb a.leaf_index b.leaf_index
    else if not (a.start == b.start)
    then ltb a.start b.start
    else ltb a.end b.end

unfoldable pub insert_finding : Finding → List Finding → List Finding
insert_finding f [] = f ∷ []
insert_finding f (g ∷ gs) = if before g f then g ∷ insert_finding f gs else f ∷ g ∷ gs

unfoldable pub sort_findings : List Finding → List Finding
sort_findings [] = []
sort_findings (f ∷ fs) = insert_finding f (sort_findings fs)

pub data Evaluated : Type 0 where
  evaluated : List Finding → Evaluated
  match_limit invalid_value : Evaluated

unfoldable pub evaluate : (Bytes → Bytes) → Option Compiled → List Leaf → Scope → Evaluated
evaluate lower none leaves phase = invalid_value
evaluate lower (some c) leaves phase =
    if not (scope_eq phase request) && not (scope_eq phase response)
    then invalid_value
    else elim (leaves_loop lower c phase 0 leaves []) [
      | none ↦ match_limit
      | some out ↦ evaluated (sort_findings out)
    ]
