-- ===== src/Base/Prefixes.antt =====
-- `bytes.Equal`, `bytes.HasPrefix` and `bytes.Index` over byte lists.
use Prim.Native.Nat.{ℕ, suc}
use mathlib.Core.Path.{◌≡◌, refl}
use mathlib.Core.Logic.{◌↔◌}
use mathlib.Core.Bool.{Bool, true, false, ◌&&◌}
use mathlib.Core.List.{[], ◌∷◌, ◌++◌}
use mathlib.Core.Option.{Option, none, some}
use native.Mathlib.Omega.{arith}
use tokenhush.Base.Lists.{Bytes}
use tokenhush.Base.Tests.{◌==◌}

unfoldable pub bytes_eq : Bytes → Bytes → Bool
bytes_eq [] [] = true
bytes_eq (x ∷ xs) (y ∷ ys) = x == y && bytes_eq xs ys
bytes_eq _ _ = false

pub bytes_eq_iff : (a b : Bytes) → (bytes_eq a b ≡ true) ↔ (a ≡ b)
unfolding bytes_eq
bytes_eq_iff (x ∷ a) (y ∷ b) = ground (arith, bytes_eq_iff a b)
bytes_eq_iff _ _ = ground arith

-- The second argument begins with the first.
unfoldable pub has_prefix : Bytes → Bytes → Bool
has_prefix [] s = true
has_prefix (x ∷ p) [] = false
has_prefix (x ∷ p) (y ∷ s) = x == y && has_prefix p s

pub has_prefix-append : (p s : Bytes) → has_prefix p (p ++ s) ≡ true
unfolding has_prefix
has_prefix-append [] s = refl
has_prefix-append (x ∷ p) s = ground (arith, has_prefix-append p s)

-- `bytes.Index`: the first place where the needle stands.
unfoldable pub index : Bytes → Bytes → Option ℕ
unfolding has_prefix
index needle [] = elim needle [ [] ↦ some 0 | _ ∷ _ ↦ none ]
index needle (c ∷ s) = elim (has_prefix needle (c ∷ s)) [
  | true ↦ some 0
  | false ↦ elim (index needle s) [ none ↦ none | some i ↦ some (suc i) ]
]
