-- ===== src/Supply/Revocation/Kept.antt =====
-- What a revocation store keeps: a document that is not newer never takes a revocation back, and a
-- newer one that verifies revokes exactly what it lists.
use tokenhush.Base.{
  ℕ, ◌≤◌, ◌<◌, ◌≡◌, refl, ltb, false, ap, ◌∙◌, Bool, true, ◌||◌, some, List, [], ◌∷◌, Bytes, ◌==◌,
  bytes_eq, arith, Bool-cases, inl, inr,
}
use tokenhush.Supply.Revocation.{
  RevocationDoc, RevocationStore, applied, insert_by, sort_by, bytes_less, Search, sorted_serials,
  sorted_versions, has_list, apply, apply_update, is_serial_revoked, is_version_revoked, Revoked,
  check,
}

-- Each element is not below the one in front of it.
abbrev pub Leads {ℓ} : {A : Type ℓ} → (A → A → Bool) → A → List A → Type 0
Leads less x [] = Unit
Leads less x (y ∷ ys) = less y x ≡ false

abbrev pub IsOrdered {ℓ} : {A : Type ℓ} → (A → A → Bool) → List A → Type 0
IsOrdered less [] = Unit
IsOrdered less (x ∷ xs) = Leads less x xs × IsOrdered less xs

-- Whether a value is in a list.
unfoldable pub listed {ℓ} : {A : Type ℓ} → (A → A → Bool) → List A → A → Bool
listed same [] x = false
listed same (y ∷ ys) x = same y x || listed same ys x

-- What the documentation of `slices.BinarySearch` says: on a slice in order, it finds exactly the
-- values that are in the slice.
pub record IsSearch (search : Search) : Type 0 where
  pub serials : (xs : List ℕ) (x : ℕ) → IsOrdered ltb xs → search.serials xs x ≡ listed ◌==◌ xs x
  pub versions :
      (xs : List Bytes) (x : Bytes)
      → IsOrdered bytes_less xs
      → search.versions xs x ≡ listed bytes_eq xs x

module _ {ℓ} {A : Type ℓ} (less : A → A → Bool) where
  Leads-insert :
      (x y : A) (ys : List A)
      → less x y ≡ false
      → Leads less y ys
      → Leads less y (insert_by less x ys)
  unfolding insert_by
  Leads-insert x y [] h l = h
  Leads-insert x y (z ∷ ys) h l = elim (Bool-cases (less z x)) [
    | inl e ↦ rw (e, insert_by) l
    | inr e ↦ rw (e, insert_by) h
  ]

  insert-IsOrdered :
      ((x y : A) → less x y ≡ true → less y x ≡ false)
      → (x : A) (ys : List A) → IsOrdered less ys
      → IsOrdered less (insert_by less x ys)
  unfolding insert_by
  insert-IsOrdered asym x [] h = (tt, tt)
  insert-IsOrdered asym x (y ∷ ys) (l, h) = elim (Bool-cases (less y x)) [
    | inl e ↦ rw (e, insert_by) (Leads-insert x y ys (asym y x e) l, insert-IsOrdered asym x ys h)
    | inr e ↦ rw (e, insert_by) (e, (l, h))
  ]

  sort-IsOrdered :
      ((x y : A) → less x y ≡ true → less y x ≡ false)
      → (xs : List A) → IsOrdered less (sort_by less xs)
  unfolding sort_by
  sort-IsOrdered asym [] = tt
  sort-IsOrdered asym (x ∷ xs) = insert-IsOrdered asym x (sort_by less xs) (sort-IsOrdered asym xs)

  listed-insert :
      (same : A → A → Bool) (x y : A) (ys : List A)
      → listed same (insert_by less x ys) y ≡ (same x y || listed same ys y)
  unfolding listed insert_by
  listed-insert same x y [] = refl
  listed-insert same x y (z ∷ ys) = ground (arith, listed-insert same x y ys)

  listed-sort :
      (same : A → A → Bool) (x : A) (xs : List A)
      → listed same (sort_by less xs) x ≡ listed same xs x
  unfolding listed sort_by
  listed-sort same x [] = refl
  listed-sort same x (y ∷ ys) =
      listed-insert same y x (sort_by less ys) ∙ ap (λ b. same y x || b) (listed-sort same x ys)

ltb_asym : (x y : ℕ) → ltb x y ≡ true → ltb y x ≡ false
ltb_asym x y h = ground arith

bytes_less_asym : (x y : Bytes) → bytes_less x y ≡ true → bytes_less y x ≡ false
unfolding bytes_less
bytes_less_asym [] [] h = refl
bytes_less_asym [] (y ∷ ys) h = refl
bytes_less_asym (x ∷ xs) [] h = ground arith
bytes_less_asym (x ∷ xs) (y ∷ ys) h = ground (arith, bytes_less_asym xs ys)

search-sorted_serials :
    (search : Search) (xs : List ℕ) (x : ℕ)
    → IsSearch search
    → search.serials (sorted_serials xs) x ≡ listed ◌==◌ xs x
unfolding sorted_serials
search-sorted_serials search xs x ok =
    ok.serials (sort_by ltb xs) x (sort-IsOrdered ltb ltb_asym xs) ∙ listed-sort ltb ◌==◌ x xs

search-sorted_versions :
    (search : Search) (xs : List Bytes) (x : Bytes)
    → IsSearch search
    → search.versions (sorted_versions xs) x ≡ listed bytes_eq xs x
unfolding sorted_versions
search-sorted_versions search xs x ok =
    ok.versions (sort_by bytes_less xs) x (sort-IsOrdered bytes_less bytes_less_asym xs)
    ∙ listed-sort bytes_less bytes_eq x xs

has_list_by :
    (search : Search) (n : ℕ) (xs : List ℕ) (vs : List Bytes) (serial : ℕ) (version : Bytes)
    (why : Revoked)
    → IsSearch search
    → check search (record { serial = n; serials = xs; versions = vs }) serial version ≡ some why
    → has_list (record { serial = n; serials = xs; versions = vs }) ≡ true
unfolding check has_list listed is_serial_revoked is_version_revoked
has_list_by search n [] [] serial version why ok h =
    ground (arith, ok.serials [] serial tt, ok.versions [] version tt)
has_list_by search n [] (v ∷ vs) serial version why ok h = refl
has_list_by search n (x ∷ xs) vs serial version why ok h = refl

-- A store in which something is revoked has a list.
has_list_lem :
    (search : Search) (s : RevocationStore) (serial : ℕ) (version : Bytes) (why : Revoked)
    → IsSearch search
    → check search s serial version ≡ some why
    → has_list s ≡ true
has_list_lem search s = has_list_by search s.serial s.serials s.versions

apply_old :
    (s : RevocationStore) (n : ℕ) (xs : List ℕ) (vs : List Bytes)
    → has_list s ≡ true
    → n ≤ s.serial
    → (apply s n xs vs).1 ≡ s
unfolding apply
apply_old s n xs vs h le = ground arith

-- With a binary search that finds what is in an ordered slice: a serial or version that the store refuses, it refuses with the same error after any update
-- document with a serial that is not above the active one, whether that verifies or not.
pub revocation_kept :
    (search : Search) (verify : RevocationDoc → Bool) (s : RevocationStore) (doc : RevocationDoc)
    (serial : ℕ) (version : Bytes) (why : Revoked)
    → IsSearch search
    → doc.serial ≤ s.serial
    → check search s serial version ≡ some why
    → check search (apply_update verify s doc).1 serial version ≡ some why
unfolding apply_update
revocation_kept search verify s doc serial version why ok le h =
    let old =
      apply_old s doc.serial doc.revoked_serials doc.revoked_versions
        (has_list_lem search s serial version why ok h) le in
    elim (Bool-cases (verify doc)) [
      | inl good ↦ rw (good, apply_update) (ap (λ s. check search s serial version) old ∙ h)
      | inr bad ↦ rw (bad, apply_update) h
    ]

apply_new :
    (s : RevocationStore) (n : ℕ) (xs : List ℕ) (vs : List Bytes)
    → s.serial < n
    → apply s n xs vs
      ≡ (applied, record { serial = n; serials = sorted_serials xs; versions = sorted_versions vs })
unfolding apply
apply_new s n xs vs lt = ground arith

-- With a binary search that finds what is in an ordered slice: an update document that verifies and
-- is newer than the active one is applied. The store then has its serial and its searches revoke exactly the serials and the versions that it lists.
pub revocation_installed :
    (search : Search) (verify : RevocationDoc → Bool) (s : RevocationStore) (doc : RevocationDoc)
    (serial : ℕ) (version : Bytes)
    → IsSearch search
    → verify doc ≡ true
    → s.serial < doc.serial
    → ((apply_update verify s doc).0 ≡ applied)
      × ((apply_update verify s doc).1.serial ≡ doc.serial)
      × (is_serial_revoked search (apply_update verify s doc).1 serial
          ≡ listed ◌==◌ doc.revoked_serials serial)
      × (is_version_revoked search (apply_update verify s doc).1 version
          ≡ listed bytes_eq doc.revoked_versions version)
unfolding apply_update is_serial_revoked is_version_revoked
revocation_installed search verify s doc serial version found ok lt =
    rw (ok, apply_update)
      (rw (apply_new s doc.serial doc.revoked_serials doc.revoked_versions lt) (
        refl,
        refl,
        search-sorted_serials search doc.revoked_serials serial found,
        search-sorted_versions search doc.revoked_versions version found,
      ))
