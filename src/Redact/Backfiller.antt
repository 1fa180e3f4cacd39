-- ===== src/Redact/Backfiller.antt =====
-- `Backfiller` of pkg/redact/backfill.go and exclusion.go: the reverse map and the exclusion set. A
-- call under the lock is one step on the state. The `ForwardWriter` is its engine.
use tokenhush.Base.{
  ℕ, Bool, true, false, Option, none, some, List, [], ◌∷◌, Bytes, length, lookup, insert,
}
use tokenhush.Redact.Placeholder.{Engine, placeholder}

pub record Backfiller : Type 0 where
  pub reverse : List (Bytes × Bytes)
  pub excluded : List (Bytes × Unit {0})

abbrev pub new_backfiller : Backfiller
new_backfiller = record { reverse = []; excluded = [] }

-- `Map`: an empty placeholder is ignored.
unfoldable pub map_secret : Backfiller → Bytes → Bytes → Backfiller
map_secret b [] secret = b
map_secret b (c ∷ p) secret = record b { reverse = insert (c ∷ p) secret b.reverse }

-- `Mint`: the placeholder of the writer, recorded in the reverse map unless the writer fails.
unfoldable pub mint : Backfiller → Engine → Bytes → Bytes → Option Bytes × Backfiller × Engine
unfolding map_secret
mint b w secret kind =
    let (r, w') = placeholder w secret kind in
    elim r [ none ↦ (none, b, w') | some p ↦ (some p, map_secret b p secret, w') ]

unfoldable pub exclude_from_backfill : Backfiller → List Bytes → Backfiller
exclude_from_backfill b [] = b
exclude_from_backfill b (v ∷ vs) =
    exclude_from_backfill (record b { excluded = insert v tt b.excluded }) vs

unfoldable pub excludes : Backfiller → Bytes → Bool
excludes b v = elim (lookup v b.excluded) [ none ↦ false | some _ ↦ true ]

unfoldable pub excluded_count : Backfiller → ℕ
excluded_count b = length b.excluded
