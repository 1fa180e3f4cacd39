-- ===== src/Proxy/Resolve/Longest.antt =====
-- The longest configured match wins, and without one the built-in table decides.
use tokenhush.Base.{
  ℕ, ◌≤◌, ◌<◌, ◌≡◌, refl, sym, ap, ◌∙◌, ◌⊎◌, inl, inr, false, ◌&&◌, Option, none, some, List, [],
  ◌∷◌, Bytes, ltb, ◌==◌, length, arith, All, Bool-cases, lookup,
}
use tokenhush.Supply.Revocation.{bytes_less}
use tokenhush.Proxy.Resolve.{
  Upstream, ConfigUpstream, builtin_routes, canonical_route_path, candidate, better_key, choose,
  configured_loop, configured_upstream, resolve,
}

-- The length of the key that an entry offers for a path; 0 when it does not apply.
abbrev pub key_length : Option (Bytes × Bytes) → ℕ
key_length none = 0
key_length (some (key, target)) = length key

-- An entry of the list offers this key and target.
abbrev pub Offered : (Bytes → Bytes) → Bytes → Bytes × Bytes → List ConfigUpstream → Type 0
Offered trim_space path r [] = ⊥
Offered trim_space path r (e ∷ es) =
    (candidate trim_space path e ≡ some r) ⊎ Offered trim_space path r es

choose_cases :
    (c : Option (Bytes × Bytes)) (best : Bytes × Bytes)
    → ((choose c best ≡ best) ⊎ (c ≡ some (choose c best)))
      × (length best.0 ≤ length (choose c best).0)
      × (key_length c ≤ length (choose c best).0)
unfolding choose better_key
choose_cases none best = (inl refl, omega arith, omega arith)
choose_cases (some (key, target)) best = elim (Bool-cases (ltb (length best.0) (length key))) [
  | inl longer ↦ rw (longer, choose) (inr refl, ground arith, omega arith)
  | inr a ↦ elim (Bool-cases (length key == length best.0 && bytes_less key best.0)) [
    | inl tie ↦ rw (a, choose) (rw (tie, choose) (inr refl, ground arith, omega arith))
    | inr b ↦ rw (a, choose) (rw (b, choose) (inl refl, omega arith, ground arith))
  ]
]

module _ (trim_space : Bytes → Bytes) (path : Bytes) where
  loop_longest :
      (es : List ConfigUpstream) (best : Bytes × Bytes)
      → ((configured_loop trim_space path es best ≡ best)
          ⊎ Offered trim_space path (configured_loop trim_space path es best) es)
        × (length best.0 ≤ length (configured_loop trim_space path es best).0)
        × All
            (λ (e : ConfigUpstream).
              key_length (candidate trim_space path e)
              ≤ length (configured_loop trim_space path es best).0)
            es
  unfolding configured_loop
  loop_longest [] best = (inl refl, omega arith, tt)
  loop_longest (e ∷ es) best =
      let c = candidate trim_space path e in
      let (this, le, key) = choose_cases c best in
      let (later, le', all) = loop_longest es (choose c best) in
      (
        elim later [
          | inr more ↦ inr (inr more)
          | inl same ↦ elim this [
            | inl kept ↦ inl (same ∙ kept)
            | inr new ↦ inr (inl (new ∙ ap some (sym same)))
          ]
        ],
        omega arith,
        (omega arith, all),
      )

configured_cases :
    (trim_space : Bytes → Bytes) (path : Bytes) (ups : List ConfigUpstream)
    → ((configured_upstream trim_space path ups ≡ none)
        × (length (configured_loop trim_space path ups ([], [])).0 ≡ 0))
      ⊎ ((configured_upstream trim_space path ups
            ≡ some (record {
              base_url = (configured_loop trim_space path ups ([], [])).1;
              is_local = false;
            }))
          × (0 < length (configured_loop trim_space path ups ([], [])).0))
unfolding configured_upstream
configured_cases trim_space path ups = by_key (configured_loop trim_space path ups ([], []))
  where
    by_key :
        (r : Bytes × Bytes)
        → (((elim r.0 as (λ _. Option Upstream) [
          | [] ↦ none
          | _ ∷ _ ↦ some (record { base_url = r.1; is_local = false })
        ])
              ≡ none)
            × (length r.0 ≡ 0))
          ⊎ (((elim r.0 as (λ _. Option Upstream) [
            | [] ↦ none
            | _ ∷ _ ↦ some (record { base_url = r.1; is_local = false })
          ])
                ≡ some (record { base_url = r.1; is_local = false }))
              × (0 < length r.0))
    by_key ([], target) = inl (refl, omega arith)
    by_key (c ∷ s, target) = inr (refl, omega arith)

resolve_configured :
    (trim_space : Bytes → Bytes) (path c : Bytes) (ups : List ConfigUpstream) (u : Upstream)
    → canonical_route_path path ≡ some c
    → configured_upstream trim_space c ups ≡ some u
    → resolve trim_space path ups ≡ some u
unfolding resolve
resolve_configured trim_space path c ups u h k = rw (h, resolve) (rw (k, resolve))

resolve_builtin :
    (trim_space : Bytes → Bytes) (path c : Bytes) (ups : List ConfigUpstream)
    → canonical_route_path path ≡ some c
    → configured_upstream trim_space c ups ≡ none
    → resolve trim_space path ups ≡ lookup c builtin_routes
unfolding resolve
resolve_builtin trim_space path c ups h k = rw (h, resolve) (rw (k, resolve))

-- A route that the configuration decides: the target of an entry that applies, with the longest key.
pub record IsConfigured (trim_space : Bytes → Bytes) (path c : Bytes) (ups : List ConfigUpstream)
    : Type 0 where
  pub key : Bytes
  pub target : Bytes
  pub offered : Offered trim_space c (key, target) ups
  pub longest : All (λ (e : ConfigUpstream). key_length (candidate trim_space c e) ≤ length key) ups
  pub routed : resolve trim_space path ups ≡ some (record { base_url = target; is_local = false })

not_offered :
    (trim_space : Bytes → Bytes) (c k : Bytes) (ups : List ConfigUpstream)
    → length k ≡ 0
    → All (λ (e : ConfigUpstream). key_length (candidate trim_space c e) ≤ length k) ups
    → All (λ (e : ConfigUpstream). key_length (candidate trim_space c e) ≡ 0) ups
not_offered trim_space c k [] z h = tt
not_offered trim_space c k (e ∷ es) z (he, h) = (omega arith, not_offered trim_space c k es z h)

-- For a request path with the canonical form `c`: either an entry of the configuration that applies
-- to `c` decides, no other that applies has a longer key, and the request goes to its target; or no
-- entry offers a key for `c`, and the route is what the built-in table holds for exactly `c`, if it
-- holds one.
pub resolve_longest :
    (trim_space : Bytes → Bytes) (path c : Bytes) (ups : List ConfigUpstream)
    → canonical_route_path path ≡ some c
    → IsConfigured trim_space path c ups
      ⊎ (All (λ (e : ConfigUpstream). key_length (candidate trim_space c e) ≡ 0) ups
          × (resolve trim_space path ups ≡ lookup c builtin_routes))
resolve_longest trim_space path c ups h =
    let r = configured_loop trim_space c ups ([], []) in
    let (from, le, all) = loop_longest trim_space c ups ([], []) in
    elim (configured_cases trim_space c ups) [
      | inl (off, zero_len) ↦ inr (
        not_offered trim_space c r.0 ups zero_len all,
        resolve_builtin trim_space path c ups h off,
      )
      | inr (on, pos_len) ↦ elim from [
        | inl empty ↦ absurd (omega (arith, ap (λ (r : Bytes × Bytes). length r.0) empty, pos_len))
        | inr offered ↦ inl (record {
          key = r.0;
          target = r.1;
          offered = offered;
          longest = all;
          routed = resolve_configured trim_space path c ups _ h on;
        })
      ]
    ]
