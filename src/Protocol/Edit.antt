-- ===== src/Protocol/Edit.antt =====
-- `Edit` and `Apply` of pkg/protocol/span.go.
pub mod Splice
pub mod Complete
pub mod Chosen
use tokenhush.Base.{
  ℕ, zero, suc, ◌+◌, ◌-◌, ◌≤◌, ◌<◌, Bool, true, false, not, ◌&&◌, ◌||◌, Option, none, some, List,
  [], ◌∷◌, ◌++◌, Bytes, ltb, leb, ◌==◌, if◌then◌else◌, length, take, drop, bytes_eq, map,
}
use tokenhush.Protocol.Leaf.{Leaf}
use tokenhush.Protocol.Span.{raw_span}

pub record Edit : Type 0 where
  pub leaf : Leaf
  pub start : ℕ
  pub end : ℕ
  pub replacement : Bytes

-- `cand`: an edit with its index and the raw bytes it replaces.
pub record Candidate : Type 0 where
  pub idx : ℕ
  pub rs : ℕ
  pub re : ℕ
  pub repl : Bytes

-- `body[rs:re]`.
abbrev pub slice : Bytes → ℕ → ℕ → Bytes
slice body rs re = take (re - rs) (drop rs body)

-- The body of the first loop.
unfoldable pub candidate : Bytes → ℕ → Edit → Option Candidate
candidate body i e = elim (raw_span e.leaf e.start e.end) [
  | none ↦ none
  | some (rs, re) ↦
      if leb re rs || ltb (length body) re
      then none
      else if bytes_eq (slice body rs re) e.replacement
      then none
      else some (record { idx = i; rs = rs; re = re; repl = e.replacement })
]

unfoldable pub candidates : Bytes → ℕ → List Edit → List Candidate
candidates body i [] = []
candidates body i (e ∷ es) =
    let rest = candidates body (i + 1) es in
    elim (candidate body i e) [ none ↦ rest | some c ↦ c ∷ rest ]

-- `sort.SliceStable` by `rs`, as insertion from the right.
unfoldable pub insert_candidate : Candidate → List Candidate → List Candidate
insert_candidate c [] = c ∷ []
insert_candidate c (x ∷ xs) = if ltb x.rs c.rs then x ∷ insert_candidate c xs else c ∷ x ∷ xs

unfoldable pub sort_candidates : List Candidate → List Candidate
sort_candidates [] = []
sort_candidates (c ∷ cs) = insert_candidate c (sort_candidates cs)

-- The second loop: a candidate that begins before the last one kept ends is dropped.
unfoldable pub keep_apart : ℕ → List Candidate → List Candidate
keep_apart last_end [] = []
keep_apart last_end (c ∷ cs) = elim (ltb c.rs last_end) [
  | true ↦ keep_apart last_end cs
  | false ↦ c ∷ keep_apart c.re cs
]

-- One round of the last loop.
unfoldable pub splice : Bytes → Candidate → Bytes
splice out c = take c.rs out ++ (c.repl ++ drop c.re out)

-- The last loop runs from the last candidate to the first.
unfoldable pub splice_all : Bytes → List Candidate → Bytes
splice_all body [] = body
splice_all body (c ∷ cs) = splice (splice_all body cs) c

unfoldable pub kept : Bytes → List Edit → List Candidate
kept body edits = keep_apart 0 (sort_candidates (candidates body 0 edits))

unfoldable pub apply_edits : Bytes → List Edit → Bytes × List ℕ
apply_edits body edits =
    (splice_all body (kept body edits), map (λ (c : Candidate). c.idx) (kept body edits))
