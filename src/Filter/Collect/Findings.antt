-- ===== src/Filter/Collect/Findings.antt =====
-- The findings that `collect` returns: where their spans lie, how many they are, in what order they
-- stand, and what the response phase cannot hold.
use tokenhush.Base.{
  ℕ, suc, ◌+◌, ◌≤◌, ◌<◌, ◌≡◌, refl, sym, ap, subst, inl, inr, true, false, Option, some, List, [],
  ◌∷◌, Bytes, length, length-append, get_elem?, map, arith, All, All-append, Bool-cases,
}
use tokenhush.Protocol.Sse.{Span}
use tokenhush.Filter.Rule.{
  Scope, request, response, is_redact, RuleMeta, scope_eq, covers, meta_ok, max_matches,
}
use tokenhush.Protocol.Leaf.{Leaf}
use tokenhush.Filter.Sensitive.{SensitiveMatcher}
use tokenhush.Filter.Collect.{
  Finding, RegistryEntry, found, finding_of, sensitive_key_finding, leaves_loop, before,
  insert_finding, sort_findings, collect,
}
use tokenhush.Filter.Collect.Placed.{InLeaf}
use tokenhush.Filter.Collect.Loops.{collected_cases, leaves_keep}

module _ (P : Finding → Type 0) where
  insert-All : (f : Finding) (gs : List Finding) → P f → All P gs → All P (insert_finding f gs)
  unfolding insert_finding
  insert-All f [] pf h = (pf, tt)
  insert-All f (g ∷ gs) pf (pg, h) = elim (Bool-cases (before g f)) [
    | inl e ↦ rw (e, insert_finding) (pg, insert-All f gs pf h)
    | inr e ↦ rw (e, insert_finding) (pf, (pg, h))
  ]

  sort-All : (fs : List Finding) → All P fs → All P (sort_findings fs)
  unfolding sort_findings
  sort-All [] h = tt
  sort-All (f ∷ fs) (pf, h) = insert-All f (sort_findings fs) pf (sort-All fs h)

length-insert_finding :
    (f : Finding) (gs : List Finding) → length (insert_finding f gs) ≡ suc (length gs)
unfolding insert_finding
length-insert_finding f [] = refl
length-insert_finding f (g ∷ gs) = ground (arith, length-insert_finding f gs)

length-sort_findings : (fs : List Finding) → length (sort_findings fs) ≡ length fs
unfolding sort_findings
length-sort_findings [] = refl
length-sort_findings (f ∷ fs) =
    omega (arith, length-insert_finding f (sort_findings fs), length-sort_findings fs)

length-map :
    (e : RegistryEntry) (m : RuleMeta) (i : ℕ) (ss : List Span)
    → length (map (finding_of e m i) ss) ≡ length ss
length-map e m i [] = refl
length-map e m i (s ∷ ss) = omega (arith, length-map e m i ss)

collect_cases :
    (lower : Bytes → Bytes) (entries : List RegistryEntry) (sensitive : Option SensitiveMatcher)
    (leaves : List Leaf) (phase : Scope) (fs : List Finding)
    → collect lower entries sensitive leaves phase ≡ found fs
    → (out : List Finding) × (leaves_loop lower entries sensitive phase 0 leaves [] ≡ found out)
      × (sort_findings out ≡ fs)
unfolding collect
collect_cases lower entries sensitive leaves phase fs h =
    elim (collected_cases (leaves_loop lower entries sensitive phase 0 leaves [])) [
      | inl (f, stop) ↦ cc (rw (stop, collect) at h)
      | inr (out, go) ↦
          let h' : found (sort_findings out) ≡ found fs = rw (go, collect) at h in (out, go, cc h')
    ]

-- A finding with its span in the leaf that it names.
pub record IsPlaced (leaves : List Leaf) (f : Finding) : Type 0 where
  pub leaf : Leaf
  pub named : get_elem? leaves f.leaf_index ≡ some leaf
  pub nonempty : f.start < f.end
  pub inside : f.end ≤ length leaf.value

-- The order by leaf, start and end: no finding is before the one in front of it.
abbrev pub IsSorted : List Finding → Type 0
IsSorted [] = Unit
IsSorted (f ∷ fs) = All (λ g. before g f ≡ false) fs × IsSorted fs

before_trans : (a b c : Finding) → before a b ≡ false → before b c ≡ false → before a c ≡ false
unfolding before
before_trans a b c h k = ground arith

before_asym : (a b : Finding) → before a b ≡ true → before b a ≡ false
unfolding before
before_asym a b h = ground arith

All-before :
    (f g : Finding) (gs : List Finding)
    → before g f ≡ false
    → All (λ x. before x g ≡ false) gs
    → All (λ x. before x f ≡ false) gs
All-before f g [] h k = tt
All-before f g (x ∷ gs) h (kx, k) = (before_trans x g f kx h, All-before f g gs h k)

insert-IsSorted : (f : Finding) (gs : List Finding) → IsSorted gs → IsSorted (insert_finding f gs)
unfolding insert_finding
insert-IsSorted f [] h = (tt, tt)
insert-IsSorted f (g ∷ gs) (hg, h) = elim (Bool-cases (before g f)) [
  | inl e ↦
      rw (e, insert_finding)
        (insert-All (λ x. before x g ≡ false) f gs (before_asym g f e) hg, insert-IsSorted f gs h)
  | inr e ↦ rw (e, insert_finding) ((e, All-before f g gs e hg), (hg, h))
]

sort-IsSorted : (fs : List Finding) → IsSorted (sort_findings fs)
unfolding sort_findings
sort-IsSorted [] = tt
sort-IsSorted (f ∷ fs) = insert-IsSorted f (sort_findings fs) (sort-IsSorted fs)

module _ (leaves : List Leaf) where
  spans-IsPlaced :
      (index : ℕ) (leaf : Leaf) (e : RegistryEntry) (m : RuleMeta) (ss : List Span)
      → get_elem? leaves index ≡ some leaf
      → All (InLeaf (length leaf.value)) ss
      → All (IsPlaced leaves) (map (finding_of e m index) ss)
  spans-IsPlaced index leaf e m [] h k = tt
  spans-IsPlaced index leaf e m (s ∷ ss) h ((lt, le), k) = (
    record { leaf = leaf; named = h; nonempty = lt; inside = le },
    spans-IsPlaced index leaf e m ss h k,
  )

-- Whatever the rules answer: when `collect` returns findings, each has a span that is not empty and
-- lies in the leaf that it names, they are at most `max_matches`, and they stand in the order of leaf,
-- start and end.
pub collect-IsPlaced :
    (lower : Bytes → Bytes) (entries : List RegistryEntry) (sensitive : Option SensitiveMatcher)
    (leaves : List Leaf) (phase : Scope) (fs : List Finding)
    → collect lower entries sensitive leaves phase ≡ found fs
    → All (IsPlaced leaves) fs × (length fs ≤ max_matches) × IsSorted fs
collect-IsPlaced lower entries sensitive leaves phase fs h =
    let (out, loop, sorted) = collect_cases lower entries sensitive leaves phase fs h in
    let placed =
      leaves_keep lower entries sensitive phase leaves (All (IsPlaced leaves))
        (λ index leaf e out fs at_index a k. subst (All (IsPlaced leaves)) (sym a.result) (
          All-append (IsPlaced leaves) out _ k
            (spans-IsPlaced leaves index leaf e a.meta a.spans at_index a.in_leaf)))
        (λ index leaf out fs at_index pos_len g k. subst (All (IsPlaced leaves)) (sym g.result) (
          All-append (IsPlaced leaves) out _ k (
            record { leaf = leaf; named = at_index; nonempty = pos_len; inside = omega arith },
            tt,
          )))
        0 leaves [] out (λ i. ap (get_elem? leaves) {y = 0 + i} (omega arith)) loop tt in
    let few =
      leaves_keep lower entries sensitive phase leaves (λ fs. length fs ≤ max_matches)
        (λ index leaf e out fs at_index a k. omega (
          arith,
          ap length a.result,
          length-append out (map (finding_of e a.meta index) a.spans),
          length-map e a.meta index a.spans,
          a.fits,
        ))
        (λ index leaf out fs at_index pos_len g k. omega (
          arith,
          ap length g.result,
          length-append out (sensitive_key_finding index leaf.value ∷ []),
          g.room,
        ))
        0 leaves [] out (λ i. ap (get_elem? leaves) {y = 0 + i} (omega arith)) loop (omega arith) in
    (
      subst (All (IsPlaced leaves)) sorted (sort-All (IsPlaced leaves) out placed),
      omega (arith, ap length sorted, length-sort_findings out, few),
      subst IsSorted sorted (sort-IsSorted out),
    )

no_redact :
    (m : RuleMeta) → meta_ok m ≡ true → covers m response ≡ true → is_redact m.action ≡ false
unfolding meta_ok covers
no_redact m h k = ground arith

spans_forward :
    (index : ℕ) (e : RegistryEntry) (m : RuleMeta) (ss : List Span)
    → is_redact m.action ≡ false
    → All (λ (f : Finding). is_redact f.action ≡ false) (map (finding_of e m index) ss)
spans_forward index e m [] h = tt
spans_forward index e m (s ∷ ss) h = (h, spans_forward index e m ss h)

response_no_request : scope_eq response request ≡ false
unfolding scope_eq
response_no_request = refl

-- In the response phase no finding asks for a substitution, whatever the rules declare and answer.
pub collect_response :
    (lower : Bytes → Bytes) (entries : List RegistryEntry) (sensitive : Option SensitiveMatcher)
    (leaves : List Leaf) (fs : List Finding)
    → collect lower entries sensitive leaves response ≡ found fs
    → All (λ (f : Finding). is_redact f.action ≡ false) fs
collect_response lower entries sensitive leaves fs h =
    let P : Finding → Type 0 = λ f. is_redact f.action ≡ false in
    let (out, loop, sorted) = collect_cases lower entries sensitive leaves response fs h in
    subst (All P) sorted (
      sort-All P out (
        leaves_keep lower entries sensitive response leaves (All P)
          (λ index leaf e out fs at_index a k. subst (All P) (sym a.result) (
            All-append P out _ k
              (spans_forward index e a.meta a.spans (no_redact a.meta a.is_meta a.covered))))
          (λ index leaf out fs at_index pos_len g k. cc (g.is_request, response_no_request)) 0
          leaves [] out (λ i. ap (get_elem? leaves) {y = 0 + i} (omega arith)) loop tt))
