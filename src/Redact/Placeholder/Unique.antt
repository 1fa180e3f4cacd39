-- ===== src/Redact/Placeholder/Unique.antt =====
-- The forward map: what stays the same in a session, and that no two secrets share a placeholder.
use tokenhush.Base.{
  ◌≡◌, refl, sym, ap, ◌∙◌, true, Option, none, some, List, [], ◌∷◌, Bytes, arith, ◌⊎◌, inl, inr,
  Bool-cases, Option-cases, lookup, insert, lookup-insert, bytes_eq, bytes_eq_iff, bytes_eq_refl,
}
use tokenhush.Redact.Grammar.{spell, IsType, IsDigest}
use tokenhush.Redact.Placeholder.{
  Engine, sanitize_kind, forward_key, taken, mint_new, placeholder, new_engine, DigestFunc,
}
use tokenhush.Redact.Placeholder.Shape.{IsByteDigest, Fresh, mint_new-Fresh, sanitize_kind-IsType}

-- The four outcomes of a call.
pub data Outcome (e : Engine) (secret kind : Bytes) : Option Bytes × Engine → Type 0 where
  reused :
      (p : Bytes)
      → lookup (forward_key (sanitize_kind kind) secret) e.forward ≡ some p
      → Outcome e secret kind (some p, e)
  minted :
      (p : Bytes)
      → lookup (forward_key (sanitize_kind kind) secret) e.forward ≡ none
      → mint_new e secret (sanitize_kind kind) ≡ some p
      → Outcome e secret kind (
        some p,
        record e { forward = insert (forward_key (sanitize_kind kind) secret) p e.forward },
      )
  exhausted :
      lookup (forward_key (sanitize_kind kind) secret) e.forward ≡ none
      → mint_new e secret (sanitize_kind kind) ≡ none
      → Outcome e secret kind (none, e)

pub outcome : (e : Engine) (secret kind : Bytes) → Outcome e secret kind (placeholder e secret kind)
unfolding placeholder
outcome e secret kind =
    let key = forward_key (sanitize_kind kind) secret in
    elim (Option-cases (lookup key e.forward)) [
      | inr (p, old) ↦ rw (old, placeholder) (reused p old)
      | inl new ↦ elim (Option-cases (mint_new e secret (sanitize_kind kind))) [
        | inr (p, m) ↦ rw (new, placeholder) (rw (m, placeholder) (minted p new m))
        | inl m ↦ rw (new, placeholder) (rw (m, placeholder) (exhausted new m))
      ]
    ]

-- An entry of the forward map.
pub record IsEntry (key p : Bytes) : Type 0 where
  pub clean : Bytes
  pub secret : Bytes
  pub hex : Bytes
  pub key_eq : key ≡ forward_key clean secret
  pub is_type : IsType clean
  pub is_digest : IsDigest hex
  pub spelled : p ≡ spell clean hex

-- What holds of the forward map throughout a session.
pub record IsSession (e : Engine) : Type 0 where
  pub entries : (key p : Bytes) → lookup key e.forward ≡ some p → IsEntry key p
  pub unique : (j k p : Bytes) → lookup j e.forward ≡ some p → lookup k e.forward ≡ some p → j ≡ k

pub new_engine-IsSession : (f : DigestFunc) (salt : Bytes) → IsSession (new_engine f salt)
unfolding lookup
new_engine-IsSession f salt = record { entries = λ key p h. cc; unique = λ j k p h i. cc }

lookup-taken : (m : List (Bytes × Bytes)) (k p : Bytes) → lookup k m ≡ some p → taken m p ≡ true
unfolding lookup taken
lookup-taken [] k p h = cc
lookup-taken ((j, q) ∷ m) k p h = ground (arith, bytes_eq_refl p, lookup-taken m k p)

-- What is stored stays stored: only a key with no entry is written.
lookup-insert_new :
    (m : List (Bytes × Bytes)) (key p j q : Bytes)
    → lookup key m ≡ none
    → lookup j m ≡ some q
    → lookup j (insert key p m) ≡ some q
lookup-insert_new m key p j q new h = elim (Bool-cases (bytes_eq key j)) [
  | inl same ↦ cc (ap (λ k. lookup k m) ((bytes_eq_iff key j).0 same))
  | inr other ↦ rw (lookup-insert, other) h
]

persists_of :
    (e : Engine) (secret kind j q : Bytes) (r : Option Bytes × Engine)
    → Outcome e secret kind r
    → lookup j e.forward ≡ some q
    → lookup j r.1.forward ≡ some q
persists_of e secret kind j q _ (reused p old) h = h
persists_of e secret kind j q _ (minted p new m) h = lookup-insert_new e.forward _ p j q new h
persists_of e secret kind j q _ (exhausted new m) h = h

-- Two entries with one placeholder in the map that a mint makes.
module _ (e : Engine) (clean secret p : Bytes) (s : IsSession e) (t : IsType clean)
    (f : Fresh e.forward clean p) where
  abbrev key : Bytes
  key = forward_key clean secret

  looked :
      (j q : Bytes)
      → lookup j (insert key p e.forward) ≡ some q
      → (key ≡ j) × (p ≡ q) ⊎ (lookup j e.forward ≡ some q)
  looked j q h = ground (arith, bytes_eq_iff key j, lookup-insert key j p e.forward)

  not_held : (j : Bytes) → lookup j e.forward ≡ some p → ⊥
  not_held j h = cc (lookup-taken e.forward j p h, f.not_taken)

  mint-IsSession : IsSession (record e { forward = insert key p e.forward })
  mint-IsSession = record {
    entries = λ j q h. elim (looked j q h) [
      | inl (k, same) ↦ record {
        clean = clean;
        secret = secret;
        hex = f.hex;
        key_eq = sym k;
        is_type = t;
        is_digest = f.is_digest;
        spelled = sym same ∙ f.spelled;
      }
      | inr old ↦ s.entries j q old
    ];
    unique = λ j k q h i. elim (looked j q h) [
      | inl (jk, jq) ↦ elim (looked k q i) [
        | inl (kk, kq) ↦ sym jk ∙ kk
        | inr old ↦ absurd (not_held k (old ∙ ap some (sym jq)))
      ]
      | inr old ↦ elim (looked k q i) [
        | inl (kk, kq) ↦ absurd (not_held j (old ∙ ap some (sym kq)))
        | inr old' ↦ s.unique j k q old old'
      ]
    ];
  }

IsSession-of :
    (e : Engine) (secret kind : Bytes) (r : Option Bytes × Engine)
    → IsByteDigest e.digest
    → IsSession e
    → Outcome e secret kind r
    → IsSession r.1 × (r.1.digest ≡ e.digest)
IsSession-of e secret kind _ d s (reused p old) = (s, refl)
IsSession-of e secret kind _ d s (minted p new m) = (
  mint-IsSession e (sanitize_kind kind) secret p s (sanitize_kind-IsType kind)
      (mint_new-Fresh e secret (sanitize_kind kind) d m),
  refl,
)
IsSession-of e secret kind _ d s (exhausted new m) = (s, refl)

stored_of :
    (e : Engine) (secret kind p : Bytes) (r : Option Bytes × Engine)
    → Outcome e secret kind r
    → r.0 ≡ some p
    → lookup (forward_key (sanitize_kind kind) secret) r.1.forward ≡ some p
stored_of e secret kind p _ (reused q old) h = old ∙ h
stored_of e secret kind p _ (minted q new m) h = lookup-insert _ _ q e.forward ∙ rw bytes_eq_refl h
stored_of e secret kind p _ (exhausted new m) h = cc

-- For a digest function that returns bytes: a call of `placeholder` keeps the session invariant
-- (each entry is spelled by the grammar under a key of a type and a secret, and no placeholder
-- has two keys) and the digest function, whether it mints, reuses or fails.
pub placeholder-IsSession :
    (e : Engine) (secret kind : Bytes)
    → IsByteDigest e.digest
    → IsSession e
    → IsSession (placeholder e secret kind).1 × ((placeholder e secret kind).1.digest ≡ e.digest)
placeholder-IsSession e secret kind d s = IsSession-of e secret kind _ d s (outcome e secret kind)

pub placeholder_persists :
    (e : Engine) (secret kind j q : Bytes)
    → lookup j e.forward ≡ some q
    → lookup j (placeholder e secret kind).1.forward ≡ some q
placeholder_persists e secret kind j q = persists_of e secret kind j q _ (outcome e secret kind)

pub placeholder_stored :
    (e : Engine) (secret kind p : Bytes)
    → (placeholder e secret kind).0 ≡ some p
    → lookup (forward_key (sanitize_kind kind) secret) (placeholder e secret kind).1.forward
      ≡ some p
placeholder_stored e secret kind p = stored_of e secret kind p _ (outcome e secret kind)
