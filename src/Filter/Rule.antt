-- ===== src/Filter/Rule.antt =====
-- The types of pkg/filter that a rule is seen through, and `invoke` of pkg/filter/registry.go. A rule
-- is third-party code: its `Inspect` returns, panics or outlasts the timeout; its metadata methods
-- return the same value at each call. A `float64` is its bit pattern, and an `int` of a rule may be
-- negative.
use tokenhush.Base.{
  ℤ, pos, negsuc, ℕ, Bool, true, false, not, ◌&&◌, ◌||◌, Option, none, some, List, [], ◌∷◌, Bytes,
  ltb, leb, if◌then◌else◌, length,
}
use tokenhush.Protocol.Sse.{Span}

pub data Scope : Type 0 where
  request response both : Scope
  other_scope : Bytes → Scope

pub data Action : Type 0 where
  allow warn redact block : Action
  other_action : Bytes → Action

pub data Reason : Type 0 where
  budget timeout error panic malformed : Reason

pub data Origin : Type 0 where
  builtin remote_pack plugin : Origin

pub data Answer : Type 0 where
  returns : List (ℤ × ℤ) → Answer
  panics hangs : Answer

pub record RuleMeta : Type 0 where
  pub category : Bytes
  pub scope : Scope
  pub action : Action
  pub confidence : ℕ

pub record Rule : Type 0 where
  pub meta : RuleMeta
  pub inspect : Bytes → Answer

pub data Invocation : Type 0 where
  accepted : List Span → RuleMeta → Invocation
  failed : Reason → Invocation

unfoldable pub scope_eq : Scope → Scope → Bool
scope_eq request request = true
scope_eq response response = true
scope_eq both both = true
scope_eq _ _ = false

unfoldable pub is_redact : Action → Bool
is_redact redact = true
is_redact _ = false

-- `scopeValues` and `actionValues`.
unfoldable pub known_scope : Scope → Bool
known_scope (other_scope s) = false
known_scope _ = true

unfoldable pub known_action : Action → Bool
known_action (other_action s) = false
known_action _ = true

-- `confidence > 0 && confidence <= 1`: the bit patterns of positive floats are in their order.
unfoldable pub confidence_ok : ℕ → Bool
confidence_ok c = ltb 0 c && leb c 0x3ff0000000000000

unfoldable pub meta_ok : RuleMeta → Bool
meta_ok m =
    known_scope m.scope
    && known_action m.action
    && confidence_ok m.confidence
    && not ((scope_eq m.scope response || scope_eq m.scope both) && is_redact m.action)

-- `meta.scope == phase || meta.scope == ScopeBoth`.
unfoldable pub covers : RuleMeta → Scope → Bool
covers m phase = scope_eq m.scope phase || scope_eq m.scope both

unfoldable pub max_matches : ℕ
max_matches = 4096

-- A span that lies in a leaf of `n` bytes.
unfoldable pub check_span : ℕ → ℤ × ℤ → Option Span
check_span n (negsuc s, e) = none
check_span n (pos s, negsuc e) = none
check_span n (pos s, pos e) =
    if ltb s e && leb e n then some (record { start = s; end = e }) else none

unfoldable pub check_spans : ℕ → List (ℤ × ℤ) → Option (List Span)
check_spans n [] = some []
check_spans n (r ∷ rs) = elim (check_span n r) [
  | none ↦ none
  | some s ↦ elim (check_spans n rs) [ none ↦ none | some ss ↦ some (s ∷ ss) ]
]

-- What becomes of the answer of `Inspect`.
unfoldable pub judge : RuleMeta → ℕ → Answer → Invocation
judge m n panics = failed panic
judge m n hangs = failed timeout
judge m n (returns rs) =
    if ltb max_matches (length rs)
    then failed budget
    else elim (check_spans n rs) [ none ↦ failed malformed | some ss ↦ accepted ss m ]

-- `invoke`; `none` is a nil rule.
unfoldable pub invoke : Option Rule → Bytes → Scope → Invocation
invoke none leaf phase = failed error
invoke (some rule) leaf phase =
    if not (meta_ok rule.meta)
    then failed malformed
    else if not (covers rule.meta phase)
    then accepted [] rule.meta
    else judge rule.meta (length leaf) (rule.inspect leaf)
