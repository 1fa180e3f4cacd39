-- ===== src/Tests/Restore.antt =====
-- The properties of whole bodies at concrete inputs.
use tokenhush.Base.{List, [], ◌∷◌, codes, some}
use tokenhush.Protocol.Spelling.{root}
use tokenhush.Protocol.Leaf.{Leaf, plain_leaf}
use tokenhush.Redact.Placeholder.{Engine, new_engine}
use tokenhush.Redact.Backfiller.{new_backfiller}
use tokenhush.Redact.Restore.{Substitution, substitute}
use tokenhush.Redact.Restore.Minted.{located_calls, IsPartSession, substitute_mints}

abbrev secret_leaf : Leaf
secret_leaf = record (plain_leaf (codes "my key")) { tok = some (root (codes "my key") 0) }

abbrev engine : Engine
engine = new_engine (λ salt kind secret. codes "0123456789abcdef0123456789abcdef") (codes "salt")

-- The second leaf has no token, so its span is not located.
abbrev two_subs : List Substitution
two_subs =
    record { leaf = secret_leaf; start = 3; end = 6; category = codes "key" }
    ∷ record { leaf = plain_leaf (codes "other"); start = 0; end = 5; category = codes "key" }
    ∷ []

substitute_mints_example :
    IsPartSession new_backfiller engine
      (located_calls two_subs)
      (substitute new_backfiller engine (codes "\"my key\"") two_subs)
substitute_mints_example = substitute_mints new_backfiller engine (codes "\"my key\"") two_subs
