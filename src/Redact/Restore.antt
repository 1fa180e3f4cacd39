-- ===== src/Redact/Restore.antt =====
-- `BackfillCount` of pkg/redact/backfill.go, `Substitute` of substitute.go, and `redactBody` of
-- forward_writer.go: whole bodies. `walked` is what `Walk` gives for the body.
pub mod Minted
use tokenhush.Base.{
  ℕ, zero, suc, ◌+◌, ◌-◌, Bool, true, false, not, ◌&&◌, ◌||◌, Option, none, some, List, [], ◌∷◌,
  ◌++◌, Bytes, ltb, leb, ◌==◌, if◌then◌else◌, length, take, drop, bytes_eq, index, get_elem?, map,
}
use tokenhush.Protocol.Spelling.{raw_spelling, escape_json_string}
use tokenhush.Protocol.Leaf.{Leaf}
use tokenhush.Protocol.Span.{raw_span}
use tokenhush.Protocol.Edit.{Edit, apply_edits}
use tokenhush.Protocol.Walk.{WalkResult, walk_leaves, walk_error}
use tokenhush.Redact.Grammar.{placeholder_prefix}
use tokenhush.Redact.Placeholder.{Engine, placeholder}
use tokenhush.Redact.Backfiller.{Backfiller, excludes, mint}

-- `bytes.Contains`.
unfoldable pub contains : Bytes → Bytes → Bool
contains s needle = elim (index needle s) [ none ↦ false | some _ ↦ true ]

-- The offsets where a needle stands in a text, each behind the one before; on fuel.
unfoldable pub occurrences : ℕ → Bytes → Bytes → ℕ → List ℕ
occurrences zero needle v pos = []
occurrences (suc fuel) needle v pos = elim (index needle (drop pos v)) [
  | none ↦ []
  | some i ↦ (pos + i) ∷ occurrences fuel needle v (pos + i + length needle)
]

-- `bytes.ReplaceAll` and `bytes.Count`, for a needle that is not empty.
unfoldable pub replace_loop : ℕ → Bytes → Bytes → Bytes → Bytes
replace_loop zero old new s = s
replace_loop (suc fuel) old new s = elim (index old s) [
  | none ↦ s
  | some i ↦ take i s ++ (new ++ replace_loop fuel old new (drop (i + length old) s))
]

unfoldable pub replace_all : Bytes → Bytes → Bytes → Bytes
replace_all s old new = replace_loop (length s + 1) old new s

unfoldable pub count : Bytes → Bytes → ℕ
count s needle = length (occurrences (length s + 1) needle s 0)

-- `snapshot`: the entries, the longest placeholder first. Entries of one length stand in the order of
-- the list, where Go leaves their order open.
unfoldable pub insert_pair : Bytes × Bytes → List (Bytes × Bytes) → List (Bytes × Bytes)
insert_pair p [] = p ∷ []
insert_pair p (q ∷ qs) = if ltb (length p.0) (length q.0) then q ∷ insert_pair p qs else p ∷ q ∷ qs

unfoldable pub snapshot : List (Bytes × Bytes) → List (Bytes × Bytes)
snapshot [] = []
snapshot (p ∷ ps) = insert_pair p (snapshot ps)

-- The entries that the loops do not skip.
unfoldable pub restorable : Backfiller → List (Bytes × Bytes) → List (Bytes × Bytes)
restorable b [] = []
restorable b (p ∷ ps) = let rest = restorable b ps in if excludes b p.1 then rest else p ∷ rest

-- `appendLeaves`.
unfoldable pub append_leaves : Leaf → Bytes × Bytes → List Edit
append_leaves leaf p =
    map
      (λ (start : ℕ). record {
        leaf = leaf;
        start = start;
        end = start + length p.0;
        replacement = raw_spelling leaf.tok p.1;
      })
      (occurrences (length leaf.value + 1) p.0 leaf.value 0)

unfoldable pub leaf_edits : List (Bytes × Bytes) → Leaf → List Edit
leaf_edits [] leaf = []
leaf_edits (p ∷ ps) leaf = append_leaves leaf p ++ leaf_edits ps leaf

unfoldable pub body_edits : List (Bytes × Bytes) → List Leaf → List Edit
body_edits ps [] = []
body_edits ps (leaf ∷ leaves) = leaf_edits ps leaf ++ body_edits ps leaves

unfoldable pub count_all : Bytes → List (Bytes × Bytes) → ℕ
count_all body [] = 0
count_all body (p ∷ ps) = count body p.0 + count_all body ps

-- The loops over the entries that replace the bytes left, with a spelling of the secret.
unfoldable pub replace_pairs : (Bytes → Bytes) → Bytes → List (Bytes × Bytes) → Bytes
replace_pairs spelling out [] = out
replace_pairs spelling out (p ∷ ps) = replace_pairs spelling (replace_all out p.0 (spelling p.1)) ps

unfoldable pub backfill_count : Backfiller → WalkResult → Bytes → Bytes × ℕ
backfill_count b walked body =
    let ps = restorable b (snapshot b.reverse) in
    if not (contains body placeholder_prefix) then (body, 0) else elim walked [
      | walk_error e ↦ (replace_pairs (λ s. s) body ps, count_all body ps)
      | walk_leaves leaves ↦ (
        replace_pairs escape_json_string (apply_edits body (body_edits ps leaves)).0 ps,
        count_all body ps,
      )
    ]

unfoldable pub backfill : Backfiller → WalkResult → Bytes → Bytes
backfill b walked body = (backfill_count b walked body).0

-- `redactBody`.
unfoldable pub redact_body : Engine → Bytes → List Bytes → Bytes → Option Bytes × Engine
redact_body w body [] kind = (some body, w)
redact_body w body ([] ∷ secrets) kind = redact_body w body secrets kind
redact_body w body ((c ∷ secret) ∷ secrets) kind =
    let (r, w') = placeholder w (c ∷ secret) kind in
    elim r [
      | none ↦ (none, w')
      | some p ↦ redact_body w' (replace_all body (c ∷ secret) p) secrets kind
    ]

pub record Substitution : Type 0 where
  pub leaf : Leaf
  pub start : ℕ
  pub end : ℕ
  pub category : Bytes

pub record Applied : Type 0 where
  pub index : ℕ
  pub category : Bytes
  pub length_of : ℕ

-- The guards of the loop of `Substitute`: the secret, where the span lies in its leaf and is located.
unfoldable pub secret_of : Substitution → Option Bytes
secret_of sub =
    if leb sub.end sub.start || ltb (length sub.leaf.value) sub.end
    then none
    else elim (raw_span sub.leaf sub.start sub.end) [
      | none ↦ none
      | some _ ↦ some (take (sub.end - sub.start) (drop sub.start sub.leaf.value))
    ]

-- The loop of `Substitute`, from the substitution of index `i` on: the edits with their owners, or
-- `none` where the writer fails.
unfoldable pub mint_loop :
    Backfiller → Engine → ℕ → List Substitution → Option (List (Edit × ℕ)) × Backfiller × Engine
mint_loop b w i [] = (some [], b, w)
mint_loop b w i (sub ∷ subs) = elim (secret_of sub) [
  | none ↦ mint_loop b w (i + 1) subs
  | some secret ↦
      let (r, b', w') = mint b w secret sub.category in
      elim r [
        | none ↦ (none, b', w')
        | some p ↦
            let (more, b'', w'') = mint_loop b' w' (i + 1) subs in
            (
              elim more [
                | none ↦ none
                | some es ↦ some (
                    (
                      record { leaf = sub.leaf; start = sub.start; end = sub.end; replacement = p },
                      i,
                    )
                    ∷ es)
              ],
              b'',
              w'',
            )
      ]
]

-- The last loop: what was applied, by its owner. An index out of range, which `Apply` never gives, would
-- panic; here it ends the loop.
unfoldable pub applied_loop : List Substitution → List ℕ → List ℕ → List Applied
applied_loop subs owner [] = []
applied_loop subs owner (idx ∷ ids) = elim (get_elem? owner idx) [
  | none ↦ []
  | some o ↦ elim (get_elem? subs o) [
    | none ↦ []
    | some sub ↦
        record { index = o; category = sub.category; length_of = sub.end - sub.start }
        ∷ applied_loop subs owner ids
  ]
]

unfoldable pub substitute :
    Backfiller
    → Engine
    → Bytes
    → List Substitution
    → Option (Bytes × List Applied) × Backfiller × Engine
substitute b w body subs =
    let (r, b', w') = mint_loop b w 0 subs in
    elim r [
      | none ↦ (none, b', w')
      | some es ↦
          let (out, ids) = apply_edits body (map (λ (e : Edit × ℕ). e.0) es) in
          (some (out, applied_loop subs (map (λ (e : Edit × ℕ). e.1) es) ids), b', w')
    ]
