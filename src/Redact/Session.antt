-- ===== src/Redact/Session.antt =====
-- A session: any calls of `Mint` on one `Backfiller` and one `ForwardWriter`. What a placeholder
-- stands for does not change, and no two secrets share one.
use tokenhush.Base.{
  ℕ, ◌≡◌, refl, sym, ap, ◌∙◌, true, Option, none, some, List, [], ◌∷◌, Bytes, arith, All, ◌⊎◌, inl,
  inr, Bool-cases, Option-cases, lookup, lookup-insert, bytes_eq, bytes_eq_iff, if◌then◌else◌,
  subst,
}
use tokenhush.Redact.Grammar.{spell, IsType, IsDigest, is_type_char}
use tokenhush.Redact.Placeholder.{
  Engine, sanitize_kind, forward_key, placeholder, new_engine, DigestFunc,
}
use tokenhush.Redact.Placeholder.Shape.{IsByteDigest, sanitize_kind-IsType}
use tokenhush.Redact.Placeholder.Unique.{
  IsSession, new_engine-IsSession, placeholder-IsSession, placeholder_stored, placeholder_persists,
  Outcome, reused, minted, exhausted, outcome,
}
use tokenhush.Redact.Backfiller.{Backfiller, new_backfiller, map_secret, mint}

zero_no_type : (c : ℕ) → is_type_char c ≡ true → c ≡ 0 → ⊥
unfolding is_type_char
zero_no_type c h e = ground arith

-- The zero byte parts the type from the secret.
forward_key_injective :
    (c1 s1 c2 s2 : Bytes)
    → All (λ c. is_type_char c ≡ true) c1
    → All (λ c. is_type_char c ≡ true) c2
    → forward_key c1 s1 ≡ forward_key c2 s2
    → (c1 ≡ c2) × (s1 ≡ s2)
forward_key_injective [] s1 [] s2 h k e = (refl, cc)
forward_key_injective [] s1 (y ∷ c2) s2 h (ky, k) e = absurd (zero_no_type y ky cc)
forward_key_injective (x ∷ c1) s1 [] s2 (hx, h) k e = absurd (zero_no_type x hx cc)
forward_key_injective (x ∷ c1) s1 (y ∷ c2) s2 (hx, h) (ky, k) e =
    let (p, q) = forward_key_injective c1 s1 c2 s2 h k (cc) in (cc, q)

-- A call's new entries are its own.
entry_of :
    (e : Engine) (secret kind p j q : Bytes) (r : Option Bytes × Engine)
    → Outcome e secret kind r
    → r.0 ≡ some p
    → lookup j r.1.forward ≡ some q
    → (p ≡ q) ⊎ (lookup j e.forward ≡ some q)
entry_of e secret kind p j q _ (reused p' old) h i = inr i
entry_of e secret kind p j q _ (minted p' new m) h i =
    ground (arith, lookup-insert (forward_key (sanitize_kind kind) secret) j p' e.forward)
entry_of e secret kind p j q _ (exhausted new m) h i = inr i

kept_of :
    (e : Engine) (secret kind : Bytes) (r : Option Bytes × Engine)
    → Outcome e secret kind r
    → r.0 ≡ none
    → r.1 ≡ e
kept_of e secret kind _ (reused p' old) h = cc
kept_of e secret kind _ (minted p' new m) h = cc
kept_of e secret kind _ (exhausted new m) h = refl

-- The reverse map gives back the secret of every entry of the forward map.
abbrev pub Restores : Backfiller → Engine → Type 0
Restores b e =
    (clean secret p : Bytes)
    → IsType clean
    → lookup (forward_key clean secret) e.forward ≡ some p
    → lookup p b.reverse ≡ some secret

pub record IsGood (b : Backfiller) (e : Engine) : Type 0 where
  pub is_session : IsSession e
  pub is_bytes : IsByteDigest e.digest
  pub restores : Restores b e

nonempty :
    (e : Engine) (s : IsSession e) (key p : Bytes)
    → lookup key e.forward ≡ some p
    → (c : ℕ) × (rest : Bytes) × (p ≡ c ∷ rest)
nonempty e s key p h = let n = s.entries key p h in (b'_', _, n.spelled)

lookup-map_secret :
    (b : Backfiller) (p secret q : Bytes)
    → (c : ℕ) × (rest : Bytes) × (p ≡ c ∷ rest)
    → lookup q (map_secret b p secret).reverse
      ≡ (if bytes_eq p q then some secret else lookup q b.reverse)
unfolding map_secret
lookup-map_secret b [] secret q (c, rest, e) = cc
lookup-map_secret b (c ∷ p) secret q _ = lookup-insert (c ∷ p) q secret b.reverse

mint-some :
    (b : Backfiller) (e : Engine) (secret kind p : Bytes)
    → (placeholder e secret kind).0 ≡ some p
    → mint b e secret kind ≡ (some p, map_secret b p secret, (placeholder e secret kind).1)
unfolding mint
mint-some b e secret kind p h = rw (h, mint)

mint-none :
    (b : Backfiller) (e : Engine) (secret kind : Bytes)
    → (placeholder e secret kind).0 ≡ none
    → mint b e secret kind ≡ (none, b, (placeholder e secret kind).1)
unfolding mint
mint-none b e secret kind h = rw (h, mint)

module _ (b : Backfiller) (e : Engine) (secret kind p : Bytes) (g : IsGood b e)
    (h : (placeholder e secret kind).0 ≡ some p) where
  abbrev e' : Engine
  e' = (placeholder e secret kind).1

  session : IsSession e'
  session = (placeholder-IsSession e secret kind g.is_bytes g.is_session).0

  stored : lookup (forward_key (sanitize_kind kind) secret) e'.forward ≡ some p
  stored = placeholder_stored e secret kind p h

  same_secret :
      (clean s : Bytes)
      → IsType clean
      → lookup (forward_key clean s) e'.forward ≡ some p
      → (sanitize_kind kind ≡ clean) × (secret ≡ s)
  same_secret clean s t l =
      forward_key_injective (sanitize_kind kind) secret clean s
        (sanitize_kind-IsType kind).type_chars t.type_chars (session.unique _ _ p stored l)

  Restores-after : Restores (map_secret b p secret) e'
  Restores-after clean s q t l =
      lookup-map_secret b p secret q
        (nonempty e' session (forward_key (sanitize_kind kind) secret) p stored)
      ∙ elim (Bool-cases (bytes_eq p q)) [
        | inl same ↦
            let pq = (bytes_eq_iff p q).0 same in
            rw same (ap some (same_secret clean s t (l ∙ ap some (sym pq))).1)
        | inr other ↦ rw other (elim (entry_of e secret kind p _ q _ (outcome e secret kind) h l) [
          | inl pq ↦ cc (other, (bytes_eq_iff p q).1 pq)
          | inr old ↦ g.restores clean s q t old
        ])
      ]

  IsGood-after : IsGood (map_secret b p secret) e'
  IsGood-after = record {
    is_session = session;
    is_bytes =
        subst IsByteDigest (sym (placeholder-IsSession e secret kind g.is_bytes g.is_session).1)
          g.is_bytes;
    restores = Restores-after;
  }

pub mint-IsGood :
    (b : Backfiller) (e : Engine) (secret kind : Bytes)
    → IsGood b e
    → IsGood (mint b e secret kind).1 (mint b e secret kind).2
mint-IsGood b e secret kind g = elim (Option-cases (placeholder e secret kind).0) [
  | inl fail ↦
      rw (mint-none b e secret kind fail)
        (subst (IsGood b) (sym (kept_of e secret kind _ (outcome e secret kind) fail)) g)
  | inr (p, h) ↦ rw (mint-some b e secret kind p h) (IsGood-after b e secret kind p g h)
]

placeholder_again :
    (e : Engine) (secret kind p : Bytes)
    → lookup (forward_key (sanitize_kind kind) secret) e.forward ≡ some p
    → placeholder e secret kind ≡ (some p, e)
unfolding placeholder
placeholder_again e secret kind p h = rw (h, placeholder)

-- A session, call by call: each is a secret and its kind.
unfoldable pub run : Backfiller → Engine → List (Bytes × Bytes) → Backfiller × Engine
run b e [] = (b, e)
run b e ((secret, kind) ∷ calls) = let (r, b', e') = mint b e secret kind in run b' e' calls

run_cons :
    (b : Backfiller) (e : Engine) (secret kind : Bytes) (calls : List (Bytes × Bytes))
    → IsGood
        (run (mint b e secret kind).1 (mint b e secret kind).2 calls).0
        (run (mint b e secret kind).1 (mint b e secret kind).2 calls).1
    → IsGood (run b e ((secret, kind) ∷ calls)).0 (run b e ((secret, kind) ∷ calls)).1
unfolding run
run_cons b e secret kind calls g = g

run_cons_persists :
    (b : Backfiller) (e : Engine) (secret kind : Bytes) (calls : List (Bytes × Bytes)) (j q : Bytes)
    → lookup j (run (mint b e secret kind).1 (mint b e secret kind).2 calls).1.forward ≡ some q
    → lookup j (run b e ((secret, kind) ∷ calls)).1.forward ≡ some q
unfolding run
run_cons_persists b e secret kind calls j q h = h

pub run-IsGood :
    (b : Backfiller) (e : Engine) (calls : List (Bytes × Bytes))
    → IsGood b e
    → IsGood (run b e calls).0 (run b e calls).1
run-IsGood b e [] g = unfold run in g
run-IsGood b e ((secret, kind) ∷ calls) g = run_cons b e secret kind calls (
    run-IsGood (mint b e secret kind).1 (mint b e secret kind).2 calls
      (mint-IsGood b e secret kind g))

mint-engine :
    (b : Backfiller) (e : Engine) (secret kind : Bytes)
    → ((mint b e secret kind).2 ≡ (placeholder e secret kind).1)
      × ((mint b e secret kind).0 ≡ (placeholder e secret kind).0)
mint-engine b e secret kind = elim (Option-cases (placeholder e secret kind).0) [
  | inl fail ↦ (
    ap (λ t. t.2) (mint-none b e secret kind fail),
    ap (λ t. t.0) (mint-none b e secret kind fail) ∙ sym fail,
  )
  | inr (p, h) ↦ (
    ap (λ t. t.2) (mint-some b e secret kind p h),
    ap (λ t. t.0) (mint-some b e secret kind p h) ∙ sym h,
  )
]

run_persists :
    (b : Backfiller) (e : Engine) (calls : List (Bytes × Bytes)) (j q : Bytes)
    → lookup j e.forward ≡ some q
    → lookup j (run b e calls).1.forward ≡ some q
run_persists b e [] j q h = unfold run in h
run_persists b e ((secret, kind) ∷ calls) j q h = run_cons_persists b e secret kind calls j q (
    run_persists (mint b e secret kind).1 (mint b e secret kind).2 calls j q (
      ap (λ w. lookup j w.forward) (mint-engine b e secret kind).0
      ∙ placeholder_persists e secret kind j q h))

pub new-IsGood :
    (f : DigestFunc) (salt : Bytes) → IsByteDigest f → IsGood new_backfiller (new_engine f salt)
unfolding lookup
new-IsGood f salt d = record {
  is_session = new_engine-IsSession f salt;
  is_bytes = d;
  restores = λ clean secret p t h. cc;
}

-- The state after one `Mint` and then any calls.
abbrev pub later : Backfiller → Engine → Bytes → Bytes → List (Bytes × Bytes) → Backfiller × Engine
later b e secret kind calls = run (mint b e secret kind).1 (mint b e secret kind).2 calls

module _ (b : Backfiller) (e : Engine) (secret kind p : Bytes) (calls : List (Bytes × Bytes))
    (g : IsGood b e) (h : (mint b e secret kind).0 ≡ some p) where
  still_there :
      lookup (forward_key (sanitize_kind kind) secret) (later b e secret kind calls).1.forward
      ≡ some p
  still_there = run_persists (mint b e secret kind).1 (mint b e secret kind).2 calls _ p (
      ap (λ w. lookup (forward_key (sanitize_kind kind) secret) w.forward)
        (mint-engine b e secret kind).0
      ∙ placeholder_stored e secret kind p (sym (mint-engine b e secret kind).1 ∙ h))

  still-IsGood : IsGood (later b e secret kind calls).0 (later b e secret kind calls).1
  still-IsGood =
      run-IsGood (mint b e secret kind).1 (mint b e secret kind).2 calls
        (mint-IsGood b e secret kind g)

-- For a good session (the forward map is well formed, the digest function returns bytes, and the
-- reverse map undoes the forward map): what `mint` returned for a secret stands for that secret
-- after any later calls. The reverse map holds it, and the writer asked again returns the same
-- placeholder and does not change.
pub mint_restores :
    (b : Backfiller) (e : Engine) (secret kind p : Bytes) (calls : List (Bytes × Bytes))
    → IsGood b e
    → (mint b e secret kind).0 ≡ some p
    → (lookup p (later b e secret kind calls).0.reverse ≡ some secret)
      × (placeholder (later b e secret kind calls).1 secret kind
          ≡ (some p, (later b e secret kind calls).1))
mint_restores b e secret kind p calls g h = (
  (still-IsGood b e secret kind p calls g h).restores (sanitize_kind kind) secret p
      (sanitize_kind-IsType kind) (still_there b e secret kind p calls g h),
  placeholder_again _ secret kind p (still_there b e secret kind p calls g h),
)

-- For a good session: if two calls of `mint` return one placeholder, whatever was minted between
-- them, their secrets are the same and so are their sanitized kinds.
pub mint_distinct :
    (b : Backfiller) (e : Engine) (s1 k1 s2 k2 p : Bytes) (calls : List (Bytes × Bytes))
    → IsGood b e
    → (mint b e s1 k1).0 ≡ some p
    → (mint (later b e s1 k1 calls).0 (later b e s1 k1 calls).1 s2 k2).0 ≡ some p
    → (s1 ≡ s2) × (sanitize_kind k1 ≡ sanitize_kind k2)
mint_distinct b e s1 k1 s2 k2 p calls g h i =
    let b' = (later b e s1 k1 calls).0 in
    let e' = (later b e s1 k1 calls).1 in
    let good = still-IsGood b e s1 k1 p calls g h in
    let first = placeholder_persists e' s2 k2 _ p (still_there b e s1 k1 p calls g h) in
    let second = placeholder_stored e' s2 k2 p (sym (mint-engine b' e' s2 k2).1 ∙ i) in
    let session = (placeholder-IsSession e' s2 k2 good.is_bytes good.is_session).0 in
    let (clean, secret) =
      forward_key_injective (sanitize_kind k1) s1 (sanitize_kind k2) s2
        (sanitize_kind-IsType k1).type_chars (sanitize_kind-IsType k2).type_chars
        (session.unique _ _ p first second) in
    (secret, clean)

-- For a good session: a placeholder that `mint` returns is spelled by the frozen grammar, with
-- the sanitized kind for its type and a digest of 12 to 64 lowercase hex digits.
pub mint_spelled :
    (b : Backfiller) (e : Engine) (secret kind p : Bytes)
    → IsGood b e
    → (mint b e secret kind).0 ≡ some p
    → (hex : Bytes) × IsDigest hex
      × IsType (sanitize_kind kind)
      × (p ≡ spell (sanitize_kind kind) hex)
mint_spelled b e secret kind p g h =
    let stored = placeholder_stored e secret kind p (sym (mint-engine b e secret kind).1 ∙ h) in
    let session = (placeholder-IsSession e secret kind g.is_bytes g.is_session).0 in
    let n = session.entries _ p stored in
    let (clean, _same) =
      forward_key_injective (sanitize_kind kind) secret n.clean n.secret
        (sanitize_kind-IsType kind).type_chars n.is_type.type_chars n.key_eq in
    (n.hex, n.is_digest, sanitize_kind-IsType kind, n.spelled ∙ ap (λ t. spell t n.hex) (sym clean))
