-- ===== src/Filter/Collect/Loops.antt =====
-- The loops of `collect` keep every property of the list of findings that a rule and the gate keep.
use tokenhush.Base.{
  ℕ, suc, ◌+◌, ◌<◌, ◌≡◌, refl, sym, ap, ◌∙◌, subst, ◌⊎◌, inl, inr, Bool, true, ◌&&◌, Option, some,
  List, [], ◌∷◌, ◌++◌, Bytes, ◌==◌, length, get_elem?, arith, Bool-cases,
}
use tokenhush.Filter.Rule.{Scope, request, scope_eq, max_matches}
use tokenhush.Protocol.Leaf.{Leaf}
use tokenhush.Filter.Sensitive.{SensitiveMatcher, matches}
use tokenhush.Filter.Collect.{
  Finding, RegistryEntry, RuleFailure, Collected, found, refused, sensitive_key_finding, entry_step,
  entries_loop, gate_step, leaf_step, leaves_loop,
}
use tokenhush.Filter.Collect.Placed.{Added, entry_cases}

pub collected_cases :
    (c : Collected) → ((f : RuleFailure) × (c ≡ refused f)) ⊎ ((fs : List Finding) × (c ≡ found fs))
collected_cases (found fs) = inr (fs, refl)
collected_cases (refused f) = inl (f, refl)

-- What the gate adds for one leaf.
pub record Gated (phase : Scope) (index : ℕ) (value : Bytes) (out fs : List Finding) : Type 0 where
  pub is_request : scope_eq phase request ≡ true
  pub room : length out < max_matches
  pub result : fs ≡ out ++ sensitive_key_finding index value ∷ []

gate_cases :
    (gated : Bool) (sensitive : Option SensitiveMatcher) (index : ℕ) (value : Bytes)
    (out fs : List Finding)
    → gate_step gated sensitive index value out ≡ found fs
    → (fs ≡ out)
      ⊎ ((gated ≡ true)
          × (length out < max_matches)
          × (fs ≡ out ++ sensitive_key_finding index value ∷ []))
unfolding gate_step
gate_cases gated sensitive index value out fs h = ground arith

and_left : (a b : Bool) → a && b ≡ true → a ≡ true
and_left a b h = ground arith

entries_nil :
    (phase : Scope) (gated : Bool) (index : ℕ) (value : Bytes) (out fs : List Finding)
    → entries_loop phase gated index value [] out ≡ found fs
    → out ≡ fs
unfolding entries_loop
entries_nil phase gated index value out fs h = cc

entries_cons :
    (phase : Scope) (gated : Bool) (index : ℕ) (value : Bytes) (e : RegistryEntry)
    (es : List RegistryEntry) (out fs : List Finding)
    → entries_loop phase gated index value (e ∷ es) out ≡ found fs
    → (mid : List Finding) × (entry_step phase gated index value e out ≡ found mid)
      × (entries_loop phase gated index value es mid ≡ found fs)
unfolding entries_loop
entries_cons phase gated index value e es out fs h =
    elim (collected_cases (entry_step phase gated index value e out)) [
      | inl (f, refusing) ↦ cc (rw (refusing, entries_loop) at h)
      | inr (mid, going) ↦ (mid, going, rw (going, entries_loop) at h)
    ]

module _ (lower : Bytes → Bytes) (entries : List RegistryEntry)
    (sensitive : Option SensitiveMatcher) (phase : Scope) where
  abbrev gate_of : Leaf → Bool
  gate_of leaf = scope_eq phase request && matches lower sensitive leaf

  leaf_cases :
      (index : ℕ) (leaf : Leaf) (out fs : List Finding)
      → leaf_step lower entries sensitive phase index leaf out ≡ found fs
      → (fs ≡ out)
        ⊎ ((0 < length leaf.value)
            × ((mid : List Finding) × (entries_loop phase
                    (gate_of leaf)
                    index
                    leaf.value
                    entries
                    out
                  ≡ found mid)
                × (gate_step (gate_of leaf) sensitive index leaf.value mid ≡ found fs)))
  unfolding leaf_step
  leaf_cases index leaf out fs h = elim (Bool-cases (length leaf.value == 0)) [
    | inl empty ↦ inl (cc (rw (empty, leaf_step) at h))
    | inr some_byte ↦
        let h' = rw (some_byte, leaf_step) at h in
        elim (collected_cases (entries_loop phase (gate_of leaf) index leaf.value entries out)) [
          | inl (f, refusing) ↦ cc (rw (refusing, leaf_step) at h')
          | inr (mid, going) ↦ inr (ground arith, (mid, going, rw (going, leaf_step) at h'))
        ]
  ]

  leaves_nil :
      (index : ℕ) (out fs : List Finding)
      → leaves_loop lower entries sensitive phase index [] out ≡ found fs
      → out ≡ fs
  unfolding leaves_loop
  leaves_nil index out fs h = cc

  leaves_cons :
      (index : ℕ) (leaf : Leaf) (leaves : List Leaf) (out fs : List Finding)
      → leaves_loop lower entries sensitive phase index (leaf ∷ leaves) out ≡ found fs
      → (mid : List Finding) × (leaf_step lower entries sensitive phase index leaf out ≡ found mid)
        × (leaves_loop lower entries sensitive phase (index + 1) leaves mid ≡ found fs)
  unfolding leaves_loop
  leaves_cons index leaf leaves out fs h =
      elim (collected_cases (leaf_step lower entries sensitive phase index leaf out)) [
        | inl (f, refusing) ↦ cc (rw (refusing, leaves_loop) at h)
        | inr (mid, going) ↦ (mid, going, rw (going, leaves_loop) at h)
      ]

  module _ (all : List Leaf) (Keeps : List Finding → Type 0)
      (rule_keeps : (index : ℕ) (leaf : Leaf) (e : RegistryEntry) (out fs : List Finding)
        → get_elem? all index ≡ some leaf
        → Added phase index leaf.value e out fs
        → Keeps out
        → Keeps fs)
      (gate_keeps : (index : ℕ) (leaf : Leaf) (out fs : List Finding)
        → get_elem? all index ≡ some leaf
        → 0 < length leaf.value
        → Gated phase index leaf.value out fs
        → Keeps out
        → Keeps fs) where
    entries_keep :
        (index : ℕ) (leaf : Leaf) (gated : Bool) (es : List RegistryEntry) (out fs : List Finding)
        → get_elem? all index ≡ some leaf
        → entries_loop phase gated index leaf.value es out ≡ found fs
        → Keeps out
        → Keeps fs
    entries_keep index leaf gated [] out fs at_index h k =
        subst Keeps (entries_nil phase gated index leaf.value out fs h) k
    entries_keep index leaf gated (e ∷ es) out fs at_index h k =
        let (mid, first, rest) = entries_cons phase gated index leaf.value e es out fs h in
        entries_keep index leaf gated es mid fs at_index rest
          (elim (entry_cases phase gated index leaf.value e out mid first) [
            | inl same ↦ subst Keeps (sym same) k
            | inr added ↦ rule_keeps index leaf e out mid at_index added k
          ])

    leaf_keeps :
        (index : ℕ) (leaf : Leaf) (out fs : List Finding)
        → get_elem? all index ≡ some leaf
        → leaf_step lower entries sensitive phase index leaf out ≡ found fs
        → Keeps out
        → Keeps fs
    leaf_keeps index leaf out fs at_index h k = elim (leaf_cases index leaf out fs h) [
      | inl same ↦ subst Keeps (sym same) k
      | inr (pos_len, (mid, rules, gate)) ↦
          let k' = entries_keep index leaf (gate_of leaf) entries out mid at_index rules k in
          elim (gate_cases (gate_of leaf) sensitive index leaf.value mid fs gate) [
            | inl same ↦ subst Keeps (sym same) k'
            | inr (on, room, result) ↦
                gate_keeps index leaf mid fs at_index pos_len
                  (record {
                    is_request =
                        and_left (scope_eq phase request) (matches lower sensitive leaf) on;
                    room = room;
                    result = result;
                  })
                  k'
          ]
    ]

    pub leaves_keep :
        (index : ℕ) (leaves : List Leaf) (out fs : List Finding)
        → ((i : ℕ) → get_elem? leaves i ≡ get_elem? all (index + i))
        → leaves_loop lower entries sensitive phase index leaves out ≡ found fs
        → Keeps out
        → Keeps fs
    leaves_keep index [] out fs same h k = subst Keeps (leaves_nil index out fs h) k
    leaves_keep index (leaf ∷ leaves) out fs same h k =
        let (mid, first, rest) = leaves_cons index leaf leaves out fs h in
        leaves_keep (index + 1) leaves mid fs
          (λ i. same (suc i) ∙ ap (get_elem? all) {y = index + 1 + i} (omega arith)) rest
          (leaf_keeps index leaf out mid
            (ap (get_elem? all) {y = index + 0} (omega arith) ∙ sym (same 0)) first k)
