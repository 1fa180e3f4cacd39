-- ===== src/Supply/Revocation.antt =====
-- `RevocationStore` of pkg/supply/revocation.go. `verify` stands for `verifyFrozen` on a document: the
-- signature check, done before any state changes. A nil slice is the empty list, which is what
-- `sortedSerials` makes of no values. `slices.BinarySearch` is a parameter, `Search`.
pub mod Kept
use tokenhush.Base.{
  ℕ, zero, suc, ◌+◌, ◌≤◌, ◌<◌, Bool, true, false, not, ◌&&◌, ◌||◌, Option, none, some, List, [],
  ◌∷◌, Bytes, ltb, leb, ◌==◌, if◌then◌else◌, bytes_eq,
}

pub record RevocationDoc : Type 0 where
  pub serial : ℕ
  pub revoked_serials : List ℕ
  pub revoked_versions : List Bytes
  pub key_id : Bytes
  pub signature : Bytes

pub record RevocationStore : Type 0 where
  pub serial : ℕ
  pub serials : List ℕ
  pub versions : List Bytes

abbrev pub new_revocation_store : RevocationStore
new_revocation_store = record { serial = 0; serials = []; versions = [] }

pub data Applied : Type 0 where
  applied unverified rolled_back : Applied

-- `slices.Sort`, by an order.
unfoldable pub insert_by {ℓ} : {A : Type ℓ} → (A → A → Bool) → A → List A → List A
insert_by less x [] = x ∷ []
insert_by less x (y ∷ ys) = if less y x then y ∷ insert_by less x ys else x ∷ y ∷ ys

unfoldable pub sort_by {ℓ} : {A : Type ℓ} → (A → A → Bool) → List A → List A
sort_by less [] = []
sort_by less (x ∷ xs) = insert_by less x (sort_by less xs)

-- The order of strings, byte by byte.
unfoldable pub bytes_less : Bytes → Bytes → Bool
bytes_less [] [] = false
bytes_less [] (y ∷ ys) = true
bytes_less (x ∷ xs) [] = false
bytes_less (x ∷ xs) (y ∷ ys) =
    let rest = bytes_less xs ys in if ltb x y then true else if ltb y x then false else rest

unfoldable pub sorted_serials : List ℕ → List ℕ
sorted_serials serials = sort_by ltb serials

unfoldable pub sorted_versions : List Bytes → List Bytes
sorted_versions versions = sort_by bytes_less versions

-- `s.serials != nil || s.versions != nil`.
unfoldable pub has_list : RevocationStore → Bool
has_list s = elim s.serials [ _ ∷ _ ↦ true | [] ↦ elim s.versions [ _ ∷ _ ↦ true | [] ↦ false ] ]

unfoldable pub apply : RevocationStore → ℕ → List ℕ → List Bytes → Applied × RevocationStore
apply s serial serials versions =
    if ltb serial s.serial
    then (rolled_back, s)
    else if serial == s.serial && has_list s
    then (applied, s)
    else (
      applied,
      record {
        serial = serial;
        serials = sorted_serials serials;
        versions = sorted_versions versions;
      },
    )

unfoldable pub apply_update :
    (RevocationDoc → Bool) → RevocationStore → RevocationDoc → Applied × RevocationStore
apply_update verify s doc =
    if not (verify doc)
    then (unverified, s)
    else apply s doc.serial doc.revoked_serials doc.revoked_versions

-- The rules stream revokes serials only.
unfoldable pub apply_rules :
    (RevocationDoc → Bool) → RevocationStore → RevocationDoc → Applied × RevocationStore
apply_rules verify s doc =
    if not (verify doc) then (unverified, s) else apply s doc.serial doc.revoked_serials []

-- `slices.BinarySearch` on serials and on versions: whether the value was found.
pub record Search : Type 0 where
  pub serials : List ℕ → ℕ → Bool
  pub versions : List Bytes → Bytes → Bool

unfoldable pub is_serial_revoked : Search → RevocationStore → ℕ → Bool
is_serial_revoked search s serial = search.serials s.serials serial

unfoldable pub is_version_revoked : Search → RevocationStore → Bytes → Bool
is_version_revoked search s version = search.versions s.versions version

pub data Revoked : Type 0 where
  revoked_serial revoked_version : Revoked

-- `Check`; `none` is no error.
unfoldable pub check : Search → RevocationStore → ℕ → Bytes → Option Revoked
check search s serial version =
    if is_serial_revoked search s serial
    then some revoked_serial
    else if not (bytes_eq version []) && is_version_revoked search s version
    then some revoked_version
    else none
