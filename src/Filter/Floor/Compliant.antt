-- ===== src/Filter/Floor/Compliant.antt =====
-- A remote pack passes the floor exactly if it weakens nothing.
use tokenhush.Base.{
  ◌≡◌, refl, Bool, true, false, Option, none, some, List, [], ◌∷◌, Bytes, arith, All, ◌↔◌,
}
use tokenhush.Filter.Floor.{
  DocumentRule, Document, FloorBaseline, FloorError, is_allow, is_disabled, contains,
  first_disabled, first_removed, first_allow, first_narrowing, or_else, check,
}

-- What a compliant document does not do.
pub record IsCompliant (b : FloorBaseline) (doc : Document) : Type 0 where
  pub keeps_detectors : All (λ id. is_disabled doc.detectors id ≡ false) b.detectors
  pub keeps_categories : All (λ c. contains b.categories c ≡ false) doc.disabled_categories
  pub allows_nothing : All (λ (r : DocumentRule). is_allow r.action ≡ false) doc.rules
  pub keeps_email : All (λ (r : DocumentRule). r.replaces_email ≡ false) doc.rules

disabled_iff :
    (ds : List (Bytes × Bool)) (ids : List Bytes)
    → first_disabled ds ids ≡ none ↔ All (λ id. is_disabled ds id ≡ false) ids
unfolding first_disabled
disabled_iff ds [] = ((λ h. tt), (λ h. refl))
disabled_iff ds (id ∷ ids) =
    let (to, from) = disabled_iff ds ids in
    ((λ h. (ground arith, to (ground arith))), (λ (a, k). ground (arith, from k)))

removed_iff :
    (cats cs : List Bytes) → first_removed cats cs ≡ none ↔ All (λ c. contains cats c ≡ false) cs
unfolding first_removed
removed_iff cats [] = ((λ h. tt), (λ h. refl))
removed_iff cats (c ∷ cs) =
    let (to, from) = removed_iff cats cs in
    ((λ h. (ground arith, to (ground arith))), (λ (a, k). ground (arith, from k)))

allow_iff :
    (rs : List DocumentRule)
    → first_allow rs ≡ none ↔ All (λ (r : DocumentRule). is_allow r.action ≡ false) rs
unfolding first_allow
allow_iff [] = ((λ h. tt), (λ h. refl))
allow_iff (r ∷ rs) =
    let (to, from) = allow_iff rs in
    ((λ h. (ground arith, to (ground arith))), (λ (a, k). ground (arith, from k)))

narrowing_iff :
    (rs : List DocumentRule)
    → first_narrowing rs ≡ none ↔ All (λ (r : DocumentRule). r.replaces_email ≡ false) rs
unfolding first_narrowing
narrowing_iff [] = ((λ h. tt), (λ h. refl))
narrowing_iff (r ∷ rs) =
    let (to, from) = narrowing_iff rs in
    ((λ h. (ground arith, to (ground arith))), (λ (a, k). ground (arith, from k)))

or_else-none : (a b : Option FloorError) → or_else a b ≡ none → (a ≡ none) × (b ≡ none)
unfolding or_else
or_else-none none b h = (refl, h)
or_else-none (some e) b h = cc

-- A remote pack passes the floor check if and only if it disables no detector of the baseline,
-- removes no category of it, has no rule that allows, and none that replaces the email suffixes.
pub floor_check_lem :
    (b : FloorBaseline) (doc : Document)
    → doc.remote_pack ≡ true
    → check b (some doc) ≡ none ↔ IsCompliant b doc
unfolding check or_else
floor_check_lem b doc remote = (
  (λ h.
      let (p, rest) = or_else-none _ _ (rw (remote, check) at h) in
      let (q, rest') = or_else-none _ _ rest in
      let (r, s) = or_else-none _ _ rest' in
      record {
        keeps_detectors = (disabled_iff doc.detectors b.detectors).0 p;
        keeps_categories = (removed_iff b.categories doc.disabled_categories).0 q;
        allows_nothing = (allow_iff doc.rules).0 r;
        keeps_email = (narrowing_iff doc.rules).0 s;
      }),
  (λ c.
      rw (remote, check)
        (rw ((disabled_iff doc.detectors b.detectors).1 c.keeps_detectors) (
          rw ((removed_iff b.categories doc.disabled_categories).1 c.keeps_categories) (
            rw ((allow_iff doc.rules).1 c.allows_nothing)
              ((narrowing_iff doc.rules).1 c.keeps_email))))),
)
