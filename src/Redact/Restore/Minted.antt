-- ===== src/Redact/Restore/Minted.antt =====
-- Which secrets `Substitute` mints: those of the located substitutions, in order.
use tokenhush.Base.{
  ℕ, suc, ◌+◌, ◌-◌, ◌&&◌, if◌then◌else◌, drop, length, ltb, leb, arith, ◌≡◌, refl, sym, ap, ◌∙◌,
  subst, ◌⊎◌, inl, inr, Option, none, some, List, [], ◌∷◌, Bytes, take, Option-cases,
}
use tokenhush.Protocol.Span.{raw_span}
use tokenhush.Protocol.Edit.{Edit}
use tokenhush.Redact.Placeholder.{Engine}
use tokenhush.Redact.Backfiller.{Backfiller, mint}
use tokenhush.Redact.Session.{run}
use tokenhush.Redact.Restore.{Substitution, secret_of, mint_loop, substitute}

-- The secret of a substitution, where the raw bytes of its span are found, and where the span is not
-- empty and ends in its leaf.
unfoldable pub wanted : Substitution → Option Bytes
wanted sub = elim (raw_span sub.leaf sub.start sub.end) [
  | none ↦ none
  | some raw ↦
      if ltb sub.start sub.end && leb sub.end (length sub.leaf.value)
      then some (take (sub.end - sub.start) (drop sub.start sub.leaf.value))
      else none
]

-- The calls of `Mint` that the located substitutions ask for.
unfoldable pub located_calls : List Substitution → List (Bytes × Bytes)
located_calls [] = []
located_calls (sub ∷ subs) = elim (wanted sub) [
  | none ↦ located_calls subs
  | some s ↦ (s, sub.category) ∷ located_calls subs
]

secret_of-wanted : (sub : Substitution) → secret_of sub ≡ wanted sub
unfolding secret_of wanted
secret_of-wanted sub = elim (Option-cases (raw_span sub.leaf sub.start sub.end)) [
  | inl e ↦ rw (e, secret_of, wanted) (ground arith)
  | inr (r, e) ↦ rw (e, secret_of, wanted) (ground arith)
]

-- The state is that of a session of the first of some calls, and of all of them unless the result
-- is the failure.
abbrev pub IsPartSession :
    {A : Type 0}
    → Backfiller
    → Engine
    → List (Bytes × Bytes)
    → Option A × Backfiller × Engine
    → Type 0
IsPartSession b w calls r =
    (n : ℕ) × (r.1 ≡ (run b w (take n calls)).0)
    × (r.2 ≡ (run b w (take n calls)).1)
    × ((r.0 ≡ none) ⊎ (take n calls ≡ calls))

module _ (b : Backfiller) (w : Engine) (i : ℕ) (sub : Substitution) (subs : List Substitution) where
  skipped : secret_of sub ≡ none → mint_loop b w i (sub ∷ subs) ≡ mint_loop b w (i + 1) subs
  unfolding mint_loop
  skipped e = rw (e, mint_loop)

  no_call : secret_of sub ≡ none → located_calls (sub ∷ subs) ≡ located_calls subs
  unfolding located_calls
  no_call e = rw (← secret_of-wanted sub, e, located_calls)

  call :
      (s : Bytes)
      → secret_of sub ≡ some s
      → located_calls (sub ∷ subs) ≡ (s, sub.category) ∷ located_calls subs
  unfolding located_calls
  call s e = rw (← secret_of-wanted sub, e, located_calls)

  refused :
      (s : Bytes)
      → secret_of sub ≡ some s
      → (mint b w s sub.category).0 ≡ none
      → mint_loop b w i (sub ∷ subs)
        ≡ (none, (mint b w s sub.category).1, (mint b w s sub.category).2)
  unfolding mint_loop
  refused s e f = rw (e, mint_loop) (rw f)

  minted :
      (s p : Bytes)
      → secret_of sub ≡ some s
      → (mint b w s sub.category).0 ≡ some p
      → ((mint_loop b w i (sub ∷ subs)).1
          ≡ (mint_loop (mint b w s sub.category).1 (mint b w s sub.category).2 (i + 1) subs).1)
        × ((mint_loop b w i (sub ∷ subs)).2
            ≡ (mint_loop (mint b w s sub.category).1 (mint b w s sub.category).2 (i + 1) subs).2)
        × ((mint_loop (mint b w s sub.category).1 (mint b w s sub.category).2 (i + 1) subs).0 ≡ none
            → (mint_loop b w i (sub ∷ subs)).0 ≡ none)
  unfolding mint_loop
  minted s p e f = rw (e, mint_loop) (rw f (refl, refl, λ g. rw g))

nothing_minted :
    (b : Backfiller) (w : Engine) (i : ℕ)
    → IsPartSession b w (located_calls []) (mint_loop b w i [])
unfolding mint_loop located_calls run
nothing_minted b w i = (0, refl, refl, inr refl)

first_refused :
    (b : Backfiller) (w : Engine) (s c : Bytes) (calls : List (Bytes × Bytes))
    → IsPartSession {A = List (Edit × ℕ)} b w
        ((s, c) ∷ calls)
        (none, (mint b w s c).1, (mint b w s c).2)
unfolding run
first_refused b w s c calls = (1, refl, refl, inl refl)

run_step :
    (b : Backfiller) (w : Engine) (s c : Bytes) (calls : List (Bytes × Bytes))
    → run b w ((s, c) ∷ calls) ≡ run (mint b w s c).1 (mint b w s c).2 calls
unfolding run
run_step b w s c calls = refl

mint_loop-IsPartSession :
    (b : Backfiller) (w : Engine) (i : ℕ) (subs : List Substitution)
    → IsPartSession b w (located_calls subs) (mint_loop b w i subs)
mint_loop-IsPartSession b w i [] = nothing_minted b w i
mint_loop-IsPartSession b w i (sub ∷ subs) = elim (Option-cases (secret_of sub)) [
  | inl e ↦
      subst (λ calls. IsPartSession b w calls (mint_loop b w i (sub ∷ subs)))
        (sym (no_call b w i sub subs e))
        (subst (IsPartSession b w (located_calls subs)) (sym (skipped b w i sub subs e))
          (mint_loop-IsPartSession b w (i + 1) subs))
  | inr (s, e) ↦
      subst (λ calls. IsPartSession b w calls (mint_loop b w i (sub ∷ subs)))
        (sym (call b w i sub subs s e))
        (elim (Option-cases (mint b w s sub.category).0) [
          | inl f ↦
              subst (IsPartSession b w ((s, sub.category) ∷ located_calls subs))
                (sym (refused b w i sub subs s e f))
                (first_refused b w s sub.category (located_calls subs))
          | inr (p, f) ↦
              let b' = (mint b w s sub.category).1 in
              let w' = (mint b w s sub.category).2 in
              let (n, q, r, all) = mint_loop-IsPartSession b' w' (i + 1) subs in
              let (q', r', fails) = minted b w i sub subs s p e f in
              let step = run_step b w s sub.category (take n (located_calls subs)) in
              (
                suc n,
                q' ∙ q ∙ ap (λ (t : Backfiller × Engine). t.0) (sym step),
                r' ∙ r ∙ ap (λ (t : Backfiller × Engine). t.1) (sym step),
                elim all [
                  | inl g ↦ inl (fails g)
                  | inr same ↦ inr (ap (◌∷◌ (s, sub.category)) same)
                ],
              )
        ])
]

substitute_state :
    (b : Backfiller) (w : Engine) (body : Bytes) (subs : List Substitution)
    → ((substitute b w body subs).1 ≡ (mint_loop b w 0 subs).1)
      × ((substitute b w body subs).2 ≡ (mint_loop b w 0 subs).2)
      × ((mint_loop b w 0 subs).0 ≡ none → (substitute b w body subs).0 ≡ none)
unfolding substitute
substitute_state b w body subs = elim (Option-cases (mint_loop b w 0 subs).0) [
  | inl e ↦ rw (e, substitute) (refl, refl, λ g. refl)
  | inr (es, e) ↦ rw (e, substitute) (refl, refl, λ g. cc)
]

-- For every session, body and list of substitutions: `Substitute` leaves the two maps as a session of
-- `Mint` calls does, one call for each substitution whose span is not empty, ends in its leaf and is
-- found in the raw bytes (`raw_span`), with the bytes of the span and its category, in order. So no other secret gets a placeholder. The session may stop
-- short only where the result is the failure.
pub substitute_mints :
    (b : Backfiller) (w : Engine) (body : Bytes) (subs : List Substitution)
    → IsPartSession b w (located_calls subs) (substitute b w body subs)
substitute_mints b w body subs =
    let (n, q, r, all) = mint_loop-IsPartSession b w 0 subs in
    let (q', r', fails) = substitute_state b w body subs in
    (n, q' ∙ q, r' ∙ r, elim all [ inl g ↦ inl (fails g) | inr same ↦ inr same ])
