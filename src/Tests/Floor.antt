-- ===== src/Tests/Floor.antt =====
-- The floor check at a concrete remote pack.
use tokenhush.Base.{◌≡◌, ◌↔◌, refl, true, false, some, none, [], ◌∷◌, codes}
use tokenhush.Filter.Rule.{redact}
use tokenhush.Filter.Floor.{Document, FloorBaseline, check}
use tokenhush.Filter.Floor.Compliant.{IsCompliant, floor_check_lem}

abbrev baseline : FloorBaseline
baseline = record { detectors = codes "luhn" ∷ []; categories = codes "credit_card" ∷ [] }

abbrev pack : Document
pack = record {
  remote_pack = true;
  detectors = (codes "luhn", true) ∷ [];
  disabled_categories = codes "custom" ∷ [];
  rules = record { id = codes "one"; action = redact; replaces_email = false } ∷ [];
}

floor_check_lem_example : check baseline (some pack) ≡ none ↔ IsCompliant baseline pack
floor_check_lem_example = floor_check_lem baseline pack refl
