-- ===== src/Filter/Floor.antt =====
-- `FloorBaseline.Check` of pkg/filter/floor.go: the bounds that a remote pack may not go below. Each
-- loop is a function that returns the first offending item.
pub mod Compliant
use tokenhush.Base.{
  ℕ, Bool, true, false, not, ◌&&◌, ◌||◌, Option, none, some, List, [], ◌∷◌, Bytes, if◌then◌else◌,
  bytes_eq, lookup,
}
use tokenhush.Filter.Rule.{Action, allow}

-- The parts of a rule of a document that the check reads: the last says that its email options
-- replace the built-in suffixes.
pub record DocumentRule : Type 0 where
  pub id : Bytes
  pub action : Action
  pub replaces_email : Bool

pub record Document : Type 0 where
  pub remote_pack : Bool
  pub detectors : List (Bytes × Bool)
  pub disabled_categories : List Bytes
  pub rules : List DocumentRule

pub record FloorBaseline : Type 0 where
  pub detectors : List Bytes
  pub categories : List Bytes

pub data FloorError : Type 0 where
  disables_detector removes_category auto_allow narrows_email : Bytes → FloorError

unfoldable pub is_allow : Action → Bool
is_allow allow = true
is_allow _ = false

-- `present && !enabled`.
unfoldable pub is_disabled : List (Bytes × Bool) → Bytes → Bool
is_disabled detectors id = elim (lookup id detectors) [ none ↦ false | some enabled ↦ not enabled ]

-- `slices.Contains`.
unfoldable pub contains : List Bytes → Bytes → Bool
contains [] c = false
contains (x ∷ xs) c = bytes_eq x c || contains xs c

unfoldable pub first_disabled : List (Bytes × Bool) → List Bytes → Option FloorError
first_disabled detectors [] = none
first_disabled detectors (id ∷ ids) =
    let rest = first_disabled detectors ids in
    if is_disabled detectors id then some (disables_detector id) else rest

unfoldable pub first_removed : List Bytes → List Bytes → Option FloorError
first_removed categories [] = none
first_removed categories (c ∷ cs) =
    let rest = first_removed categories cs in
    if contains categories c then some (removes_category c) else rest

unfoldable pub first_allow : List DocumentRule → Option FloorError
first_allow [] = none
first_allow (r ∷ rs) =
    let rest = first_allow rs in if is_allow r.action then some (auto_allow r.id) else rest

unfoldable pub first_narrowing : List DocumentRule → Option FloorError
first_narrowing [] = none
first_narrowing (r ∷ rs) =
    let rest = first_narrowing rs in if r.replaces_email then some (narrows_email r.id) else rest

-- The first error of two checks in order.
unfoldable pub or_else : Option FloorError → Option FloorError → Option FloorError
or_else (some e) later = some e
or_else none later = later

-- `Check`; a nil document is `none`, and so is no error.
unfoldable pub check : FloorBaseline → Option Document → Option FloorError
check b none = none
check b (some doc) =
    if not doc.remote_pack
    then none
    else or_else (first_disabled doc.detectors b.detectors) (
        or_else (first_removed b.categories doc.disabled_categories)
          (or_else (first_allow doc.rules) (first_narrowing doc.rules)))
