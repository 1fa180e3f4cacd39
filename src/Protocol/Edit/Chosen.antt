-- ===== src/Protocol/Edit/Chosen.antt =====
-- Which edits `Apply` keeps, and what it makes of the body.
use tokenhush.Base.{
  ℕ, suc, ◌+◌, ◌≤◌, ◌<◌, ◌≡◌, sym, ap, ◌∙◌, inl, inr, false, some, List, [], ◌∷◌, Bytes, length,
  get_elem?, map, bytes_eq, arith, All, Option-cases,
}
use tokenhush.Protocol.Span.{raw_span}
use tokenhush.Protocol.Edit.{
  Edit, Candidate, slice, candidate, candidates, sort_candidates, keep_apart, kept, apply_edits,
}
use tokenhush.Protocol.Edit.Splice.{render, IsApart, splice_all-render}
use tokenhush.Protocol.Edit.Complete.{
  candidate_cases, sort-All, All-sort, keep-All, keep-IsApart, keep_covers, none_below,
  sort-IsSorted, Covered, Served, candidates-Served,
}

-- A candidate is an edit of the list that is located in the body and changes it.
pub record IsCandidate (body : Bytes) (edits : List Edit) (c : Candidate) : Type 0 where
  pub edit : Edit
  pub named : get_elem? edits c.idx ≡ some edit
  pub located : raw_span edit.leaf edit.start edit.end ≡ some (c.rs, c.re)
  pub nonempty : c.rs < c.re
  pub inside : c.re ≤ length body
  pub replaces : c.repl ≡ edit.replacement
  pub changes : bytes_eq (slice body c.rs c.re) c.repl ≡ false

module _ (body : Bytes) (edits : List Edit) where
  candidates_found :
      (i : ℕ) (es : List Edit)
      → ((k : ℕ) → get_elem? es k ≡ get_elem? edits (i + k))
      → All (IsCandidate body edits) (candidates body i es)
  unfolding candidates
  candidates_found i [] h = tt
  candidates_found i (e ∷ es) h =
      let rest =
        candidates_found (i + 1) es
          (λ k. h (suc k) ∙ ap (get_elem? edits) {y = i + 1 + k} (omega arith)) in
      elim (Option-cases (candidate body i e)) [
        | inl off ↦ rw (off, candidates) rest
        | inr (c, on) ↦
            let (a, b, d, f, g, k) = candidate_cases body i e c on in
            rw (on, candidates)
              (
                record {
                  edit = e;
                  named = ap (get_elem? edits) {y = i + 0} (omega (arith, a)) ∙ sym (h 0);
                  located = b;
                  nonempty = d;
                  inside = f;
                  replaces = g;
                  changes = k;
                },
                rest,
              )
      ]

spans_of :
    (body : Bytes) (edits : List Edit) (xs : List Candidate)
    → All (IsCandidate body edits) xs
    → All (λ (c : Candidate). (c.rs < c.re) × (c.re ≤ length body)) xs
      × All (λ (c : Candidate). c.rs < c.re) xs
spans_of body edits [] h = (tt, tt)
spans_of body edits (x ∷ xs) (hx, h) =
    let (a, b) = spans_of body edits xs h in (((hx.nonempty, hx.inside), a), (hx.nonempty, b))

-- For every body and every list of edits: each edit that `Apply` keeps is one of the list that is
-- located in the body and changes its bytes there; the kept edits lie in the body one behind the
-- other; the new body is the old one with exactly their raw ranges replaced, in one pass from the
-- left; the indices are theirs, in that order. And every edit of the list has no raw range, or an empty
-- one, or one that ends behind the body, or its raw bytes are its replacement already, or its raw range
-- begins in that of a kept edit.
pub apply_refines :
    (body : Bytes) (edits : List Edit)
    → All (IsCandidate body edits) (kept body edits)
      × IsApart (length body) 0 (kept body edits)
      × (apply_edits body edits
          ≡ (render body 0 (kept body edits), map (λ (c : Candidate). c.idx) (kept body edits)))
      × All (Served body (kept body edits)) edits
unfolding apply_edits kept
apply_refines body edits =
    let cs = candidates body 0 edits in
    let found =
      candidates_found body edits 0 edits (λ k. ap (get_elem? edits) {y = 0 + k} (omega arith)) in
    let sorted = sort-All (IsCandidate body edits) cs found in
    let (a, b) = spans_of body edits (sort_candidates cs) sorted in
    let apart = keep-IsApart (length body) 0 (sort_candidates cs) a in
    (
      keep-All (IsCandidate body edits) 0 (sort_candidates cs) sorted,
      apart,
      ap (λ t. (t, map (λ (c : Candidate). c.idx) (keep_apart 0 (sort_candidates cs))))
          (splice_all-render body 0 (keep_apart 0 (sort_candidates cs)) (omega arith) apart),
      candidates-Served body (keep_apart 0 (sort_candidates cs)) 0 edits (
          All-sort (Covered (keep_apart 0 (sort_candidates cs))) cs (
            none_below (keep_apart 0 (sort_candidates cs)) (sort_candidates cs)
              (keep_covers 0 (sort_candidates cs) (sort-IsSorted cs) b))),
    )
