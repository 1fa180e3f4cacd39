-- ===== src/Protocol/Edit/Complete.antt =====
-- The candidates of `Apply`, and that each edit is served: kept, without effect, or in a kept range.
use tokenhush.Base.{
  ℕ, ◌+◌, ◌≤◌, ◌<◌, ◌≡◌, refl, sym, subst, ◌⊎◌, inl, inr, true, false, none, some, List, [], ◌∷◌,
  Bytes, ltb, leb, length, bytes_eq, arith, All, Bool-cases, Option-cases,
}
use tokenhush.Protocol.Span.{raw_span}
use tokenhush.Protocol.Edit.{
  Edit, Candidate, slice, candidate, candidates, insert_candidate, sort_candidates, keep_apart,
}
use tokenhush.Protocol.Edit.Splice.{IsApart}

pub candidate_cases :
    (body : Bytes) (i : ℕ) (e : Edit) (c : Candidate)
    → candidate body i e ≡ some c
    → (c.idx ≡ i)
      × (raw_span e.leaf e.start e.end ≡ some (c.rs, c.re))
      × (c.rs < c.re)
      × (c.re ≤ length body)
      × (c.repl ≡ e.replacement)
      × (bytes_eq (slice body c.rs c.re) c.repl ≡ false)
unfolding candidate
candidate_cases body i e c h = elim (Option-cases (raw_span e.leaf e.start e.end)) [
  | inl off ↦ cc (rw (off, candidate) at h)
  | inr ((rs, re), on) ↦ elim (Bool-cases (leb re rs)) [
    | inl bad ↦ cc (rw bad at (rw (on, candidate) at h))
    | inr a ↦ elim (Bool-cases (ltb (length body) re)) [
      | inl bad ↦ cc (rw bad at (rw a at (rw (on, candidate) at h)))
      | inr b ↦ elim (Bool-cases (bytes_eq (slice body rs re) e.replacement)) [
        | inl bad ↦ cc (rw bad at (rw b at (rw a at (rw (on, candidate) at h))))
        | inr d ↦
            let h' : some (record { idx = i; rs = rs; re = re; repl = e.replacement }) ≡ some c =
              rw d at (rw b at (rw a at (rw (on, candidate) at h))) in
            let same : record { idx = i; rs = rs; re = re; repl = e.replacement } ≡ c = cc h' in
            subst
              (λ (c : Candidate).
                (c.idx ≡ i)
                × (raw_span e.leaf e.start e.end ≡ some (c.rs, c.re))
                × (c.rs < c.re)
                × (c.re ≤ length body)
                × (c.repl ≡ e.replacement)
                × (bytes_eq (slice body c.rs c.re) c.repl ≡ false))
              same (refl, on, ground arith, ground arith, refl, d)
      ]
    ]
  ]
]

module _ (P : Candidate → Type 0) where
  pub insert-All :
      (c : Candidate) (xs : List Candidate) → P c → All P xs → All P (insert_candidate c xs)
  unfolding insert_candidate
  insert-All c [] pc h = (pc, tt)
  insert-All c (x ∷ xs) pc (px, h) = elim (Bool-cases (ltb x.rs c.rs)) [
    | inl e ↦ rw (e, insert_candidate) (px, insert-All c xs pc h)
    | inr e ↦ rw (e, insert_candidate) (pc, (px, h))
  ]

  pub sort-All : (xs : List Candidate) → All P xs → All P (sort_candidates xs)
  unfolding sort_candidates
  sort-All [] h = tt
  sort-All (c ∷ xs) (pc, h) = insert-All c (sort_candidates xs) pc (sort-All xs h)

  All-insert :
      (c : Candidate) (xs : List Candidate) → All P (insert_candidate c xs) → P c × All P xs
  unfolding insert_candidate
  All-insert c [] h = h
  All-insert c (x ∷ xs) h = elim (Bool-cases (ltb x.rs c.rs)) [
    | inl e ↦
        let (px, more) = rw (e, insert_candidate) at h in
        let (pc, rest) = All-insert c xs more in (pc, (px, rest))
    | inr e ↦ rw (e, insert_candidate) at h
  ]

  pub All-sort : (xs : List Candidate) → All P (sort_candidates xs) → All P xs
  unfolding sort_candidates
  All-sort [] h = tt
  All-sort (c ∷ xs) h =
      let (pc, rest) = All-insert c (sort_candidates xs) h in (pc, All-sort xs rest)

  pub keep-All : (last : ℕ) (xs : List Candidate) → All P xs → All P (keep_apart last xs)
  unfolding keep_apart
  keep-All last [] h = tt
  keep-All last (c ∷ xs) (pc, h) = elim (Bool-cases (ltb c.rs last)) [
    | inl e ↦ rw (e, keep_apart) (keep-All last xs h)
    | inr e ↦ rw (e, keep_apart) (pc, keep-All c.re xs h)
  ]

keep_skip :
    (last : ℕ) (c : Candidate) (xs : List Candidate)
    → ltb c.rs last ≡ true
    → keep_apart last (c ∷ xs) ≡ keep_apart last xs
unfolding keep_apart
keep_skip last c xs h = rw (h, keep_apart)

keep_take :
    (last : ℕ) (c : Candidate) (xs : List Candidate)
    → ltb c.rs last ≡ false
    → keep_apart last (c ∷ xs) ≡ c ∷ keep_apart c.re xs
unfolding keep_apart
keep_take last c xs h = rw (h, keep_apart)

pub keep-IsApart :
    (n last : ℕ) (xs : List Candidate)
    → All (λ (c : Candidate). (c.rs < c.re) × (c.re ≤ n)) xs
    → IsApart n last (keep_apart last xs)
keep-IsApart n last [] h = unfold keep_apart in tt
keep-IsApart n last (c ∷ xs) ((lt, le), h) = elim (Bool-cases (ltb c.rs last)) [
  | inl e ↦ rw (keep_skip last c xs e) (keep-IsApart n last xs h)
  | inr e ↦ rw (keep_take last c xs e) (ground arith, lt, le, keep-IsApart n c.re xs h)
]

-- The sorted order.
abbrev pub IsSorted : List Candidate → Type 0
IsSorted [] = Unit
IsSorted (c ∷ cs) = All (λ (x : Candidate). c.rs ≤ x.rs) cs × IsSorted cs

All-le :
    (a b : ℕ) (xs : List Candidate)
    → a ≤ b
    → All (λ (x : Candidate). b ≤ x.rs) xs
    → All (λ (x : Candidate). a ≤ x.rs) xs
All-le a b [] h k = tt
All-le a b (x ∷ xs) h (kx, k) = (omega arith, All-le a b xs h k)

insert-IsSorted :
    (c : Candidate) (xs : List Candidate) → IsSorted xs → IsSorted (insert_candidate c xs)
unfolding insert_candidate
insert-IsSorted c [] h = (tt, tt)
insert-IsSorted c (x ∷ xs) (hx, h) = elim (Bool-cases (ltb x.rs c.rs)) [
  | inl e ↦
      rw (e, insert_candidate)
        (insert-All (λ (y : Candidate). x.rs ≤ y.rs) c xs (ground arith) hx, insert-IsSorted c xs h)
  | inr e ↦
      rw (e, insert_candidate) ((ground arith, All-le c.rs x.rs xs (ground arith) hx), (hx, h))
]

pub sort-IsSorted : (xs : List Candidate) → IsSorted (sort_candidates xs)
unfolding sort_candidates
sort-IsSorted [] = tt
sort-IsSorted (c ∷ xs) = insert-IsSorted c (sort_candidates xs) (sort-IsSorted xs)

-- The offset lies in the raw range of one of these.
abbrev pub LiesIn : List Candidate → ℕ → Type 0
LiesIn [] rs = ⊥
LiesIn (k ∷ ks) rs = ((k.rs ≤ rs) × (rs < k.re)) ⊎ LiesIn ks rs

abbrev pub Covered : List Candidate → Candidate → Type 0
Covered ks c = LiesIn ks c.rs

cover_later :
    (k : Candidate) (ks xs : List Candidate) → All (Covered ks) xs → All (Covered (k ∷ ks)) xs
cover_later k ks [] h = tt
cover_later k ks (x ∷ xs) (hx, h) = (inr hx, cover_later k ks xs h)

-- Each of these begins before an offset or in one of the kept.
abbrev pub Reached : ℕ → List Candidate → List Candidate → Type 0
Reached last ks xs = All (λ (c : Candidate). (c.rs < last) ⊎ Covered ks c) xs

-- Each candidate begins in one that is kept, or before `last` and behind what was kept before.
pub keep_covers :
    (last : ℕ) (xs : List Candidate)
    → IsSorted xs
    → All (λ (c : Candidate). c.rs < c.re) xs
    → Reached last (keep_apart last xs) xs
keep_covers last [] s h = tt
keep_covers last (c ∷ xs) (sc, s) (hc, h) = elim (Bool-cases (ltb c.rs last)) [
  | inl e ↦
      subst (λ ks. Reached last ks (c ∷ xs)) (sym (keep_skip last c xs e))
        (inl (ground arith), keep_covers last xs s h)
  | inr e ↦
      subst (λ ks. Reached last ks (c ∷ xs)) (sym (keep_take last c xs e))
        (
          inr (inl (omega arith, hc)),
          reached_or_in last c (keep_apart c.re xs) xs sc (keep_covers c.re xs s h),
        )
]
  where
    reached_or_in :
        (last : ℕ) (c : Candidate) (ks xs : List Candidate)
        → All (λ (x : Candidate). c.rs ≤ x.rs) xs
        → All (λ (x : Candidate). (x.rs < c.re) ⊎ Covered ks x) xs
        → All (λ (x : Candidate). (x.rs < last) ⊎ Covered (c ∷ ks) x) xs
    reached_or_in last c ks [] a b = tt
    reached_or_in last c ks (x ∷ xs) (ax, a) (inl lt, b) =
        (inr (inl (ax, lt)), reached_or_in last c ks xs a b)
    reached_or_in last c ks (x ∷ xs) (ax, a) (inr cov, b) =
        (inr (inr cov), reached_or_in last c ks xs a b)

pub none_below :
    (ks xs : List Candidate)
    → All (λ (c : Candidate). (c.rs < 0) ⊎ Covered ks c) xs
    → All (Covered ks) xs
none_below ks [] h = tt
none_below ks (x ∷ xs) (inl lt, h) = absurd (omega arith)
none_below ks (x ∷ xs) (inr cov, h) = (cov, none_below ks xs h)

-- An edit that is not found in the body or changes nothing there, or that begins in a kept range.
abbrev pub Served : Bytes → List Candidate → Edit → Type 0
Served body ks e =
    (raw_span e.leaf e.start e.end ≡ none)
    ⊎ ((rs : ℕ) × (re : ℕ) × (raw_span e.leaf e.start e.end ≡ some (rs, re))
        × ((re ≤ rs)
            ⊎ (length body < re)
            ⊎ (bytes_eq (slice body rs re) e.replacement ≡ true)
            ⊎ LiesIn ks rs))

no_candidate :
    (body : Bytes) (ks : List Candidate) (i : ℕ) (e : Edit)
    → candidate body i e ≡ none
    → Served body ks e
unfolding candidate
no_candidate body ks i e h = elim (Option-cases (raw_span e.leaf e.start e.end)) [
  | inl off ↦ inl off
  | inr ((rs, re), on) ↦ elim (Bool-cases (leb re rs)) [
    | inl a ↦ inr (rs, re, on, inl (ground arith))
    | inr a ↦ elim (Bool-cases (ltb (length body) re)) [
      | inl b ↦ inr (rs, re, on, inr (inl (ground arith)))
      | inr b ↦ elim (Bool-cases (bytes_eq (slice body rs re) e.replacement)) [
        | inl d ↦ inr (rs, re, on, inr (inr (inl d)))
        | inr d ↦ cc (rw d at (rw b at (rw a at (rw (on, candidate) at h))))
      ]
    ]
  ]
]

-- If every candidate begins in a kept range, every edit is served.
pub candidates-Served :
    (body : Bytes) (ks : List Candidate) (i : ℕ) (es : List Edit)
    → All (Covered ks) (candidates body i es)
    → All (Served body ks) es
unfolding candidates
candidates-Served body ks i [] h = tt
candidates-Served body ks i (e ∷ es) h = elim (Option-cases (candidate body i e)) [
  | inl off ↦
      let hs : All (Covered ks) (candidates body (i + 1) es) = rw (off, candidates) at h in
      (no_candidate body ks i e off, candidates-Served body ks (i + 1) es hs)
  | inr (c, on) ↦
      let both : All (Covered ks) (c ∷ candidates body (i + 1) es) = rw (on, candidates) at h in
      let (hc, hs) = both in
      let (a, b, d, f, g, k) = candidate_cases body i e c on in
      (inr (c.rs, c.re, b, inr (inr (inr hc))), candidates-Served body ks (i + 1) es hs)
]
