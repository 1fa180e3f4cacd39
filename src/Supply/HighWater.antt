-- ===== src/Supply/HighWater.antt =====
-- `FileHighWater` of pkg/supply/highwater.go: the highest serial that was accepted, in memory and on
-- disk. The file is what a reader finds; a write is atomic, and whether it succeeds is the system's.
pub mod Replay
use tokenhush.Base.{
  ℕ, zero, suc, ◌+◌, ◌≤◌, ◌<◌, Bool, true, false, not, Option, none, some, List, [], ◌∷◌, ltb, leb,
  ◌==◌, if◌then◌else◌, ℤ, pos, negsuc,
}

-- The file at the path: none, one that cannot be read or decoded, or a document with its serial.
pub data MarkFile : Type 0 where
  missing unusable : MarkFile
  holds : ℤ → MarkFile

pub record FileHighWater : Type 0 where
  pub serial : ℕ
  pub file : MarkFile

pub data Advanced : Type 0 where
  accepted replayed write_failed : Advanced

-- `readHighWater`; `none` is `ErrHighWaterCorrupt`.
unfoldable pub read_high_water : MarkFile → Option ℕ
read_high_water missing = some 0
read_high_water unusable = none
read_high_water (holds (pos n)) = some n
read_high_water (holds (negsuc n)) = none

-- `NewFileHighWater`.
unfoldable pub new_file_high_water : MarkFile → Option FileHighWater
new_file_high_water file = elim (read_high_water file) [
  | none ↦ none
  | some n ↦ some (record { serial = n; file = file })
]

-- `Advance`; the Boolean says whether the write succeeds. A negative serial is below every mark.
unfoldable pub advance : FileHighWater → ℤ → Bool → Advanced × FileHighWater
advance f (negsuc n) written = (replayed, f)
advance f (pos n) written =
    if ltb n f.serial
    then (replayed, f)
    else if n == f.serial
    then (accepted, f)
    else if not written
    then (write_failed, f)
    else (accepted, record { serial = n; file = holds (pos n) })

-- What happens to a mark: an attempt to advance it, or a restart that opens the file again.
pub data MarkEvent : Type 0 where
  advances : ℤ → Bool → MarkEvent
  restarts : MarkEvent

unfoldable pub mark_step : FileHighWater → MarkEvent → Option FileHighWater
mark_step f (advances n written) = some (advance f n written).1
mark_step f restarts = new_file_high_water f.file

unfoldable pub marks : FileHighWater → List MarkEvent → Option FileHighWater
marks f [] = some f
marks f (e ∷ es) = elim (mark_step f e) [ none ↦ none | some f' ↦ marks f' es ]
