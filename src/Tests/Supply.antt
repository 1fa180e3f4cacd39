-- ===== src/Tests/Supply.antt =====
-- The properties of the replay mark and of the revocation store at concrete inputs.
use tokenhush.Base.{
  ℕ, ◌==◌, bytes_eq, ◌≤◌, ◌≡◌, refl, true, false, some, List, [], ◌∷◌, codes, pos, arith,
}
use tokenhush.Supply.HighWater.{
  holds, FileHighWater, accepted, replayed, read_high_water, new_file_high_water, advance,
  MarkEvent, advances, restarts, mark_step, marks,
}
use tokenhush.Supply.HighWater.Replay.{IsSaved, marks_kept, replay_rejected}
use tokenhush.Supply.Revocation.{
  RevocationDoc, RevocationStore, applied, Search, apply_update, is_serial_revoked,
  is_version_revoked, revoked_serial, check,
}
use tokenhush.Supply.Revocation.Kept.{listed, IsSearch, revocation_kept, revocation_installed}

abbrev at : ℕ → FileHighWater
at n = record { serial = n; file = holds (pos n) }

at-IsSaved : (n : ℕ) → IsSaved (at n)
unfolding read_high_water
at-IsSaved n = refl

abbrev history : List MarkEvent
history = advances (pos 9) false ∷ restarts ∷ advances (pos 8) true ∷ []

marks_kept_example :
    (f' : FileHighWater) × (marks (at 3) history ≡ some f') × IsSaved f' × (3 ≤ f'.serial)
marks_kept_example = marks_kept (at 3) history (at-IsSaved 3)

five_accepted : (advance (at 3) (pos 5) true).0 ≡ accepted
unfolding advance
five_accepted = refl

history_end : marks (advance (at 3) (pos 5) true).1 history ≡ some (at 8)
unfolding marks mark_step advance new_file_high_water read_high_water
history_end = refl

replay_rejected_example : advance (at 8) (pos 4) true ≡ (replayed, at 8)
replay_rejected_example =
    replay_rejected (at 3) (at 8) 5 4 true true history (at-IsSaved 3) five_accepted history_end
      (omega arith)

abbrev store : RevocationStore
store = record { serial = 5; serials = 2 ∷ 7 ∷ []; versions = [] }

abbrev doc : ℕ → RevocationDoc
doc n = record {
  serial = n;
  revoked_serials = 9 ∷ 1 ∷ [];
  revoked_versions = codes "1.2.0" ∷ [];
  key_id = codes "upd";
  signature = codes "x";
}

-- A search that meets the documentation.
abbrev linear : Search
linear = record { serials = listed ◌==◌; versions = listed bytes_eq }

linear-IsSearch : IsSearch linear
linear-IsSearch = record { serials = λ xs x h. refl; versions = λ xs x h. refl }

seven_revoked : check linear store 7 (codes "1.0") ≡ some revoked_serial
unfolding check is_serial_revoked listed
seven_revoked = refl

revocation_kept_example :
    check linear (apply_update (λ d. true) store (doc 4)).1 7 (codes "1.0") ≡ some revoked_serial
revocation_kept_example =
    revocation_kept linear (λ d. true) store (doc 4) 7 (codes "1.0") revoked_serial linear-IsSearch
      (omega arith) seven_revoked

revocation_installed_example :
    ((apply_update (λ d. true) store (doc 6)).0 ≡ applied)
    × ((apply_update (λ d. true) store (doc 6)).1.serial ≡ 6)
    × (is_serial_revoked linear (apply_update (λ d. true) store (doc 6)).1 9
        ≡ listed ◌==◌ (9 ∷ 1 ∷ []) 9)
    × (is_version_revoked linear (apply_update (λ d. true) store (doc 6)).1 (codes "1.2.0")
        ≡ listed bytes_eq (codes "1.2.0" ∷ []) (codes "1.2.0"))
revocation_installed_example =
    revocation_installed linear (λ d. true) store (doc 6) 9 (codes "1.2.0") linear-IsSearch refl
      (omega arith)
