-- ===== src/Redact/Tokens.antt =====
-- pkg/redact/sse_leaf_scan.go, and `leafTokens` of sse_spelling.go: the tokens and the unfinished
-- placeholders in the leaves of one data value. A leaf with a suffix is `none` for `ok` false.
pub mod Heads
use tokenhush.Base.{
  ℕ, zero, suc, ◌+◌, ◌-◌, Bool, true, false, not, ◌&&◌, Option, none, some, List, [], ◌∷◌, ◌++◌,
  Bytes, ltb, leb, ◌==◌, if◌then◌else◌, length, take, drop, bytes_eq, index, map,
}
use tokenhush.Protocol.Spelling.{raw_spelling}
use tokenhush.Protocol.Leaf.{Leaf}
use tokenhush.Protocol.Edit.{Edit}
use tokenhush.Redact.Grammar.{placeholder_prefix}
use tokenhush.Redact.Matcher.{token_len, is_placeholder_prefix}

-- The loop that `withinLeafEdits` and `leafTokens` share: the offset and the length of each complete
-- token of a value.
unfoldable pub token_loop : ℕ → Bytes → ℕ → List (ℕ × ℕ)
token_loop zero v i = []
token_loop (suc fuel) v i = elim (index placeholder_prefix (drop i v)) [
  | none ↦ []
  | some j ↦
      let start = i + j in
      let n = token_len (drop start v) in
      let rest = token_loop fuel v (if n == 0 then start + 1 else start + n) in
      if n == 0 then rest else (start, n) ∷ rest
]

unfoldable pub leaf_tokens : Bytes → List Bytes
leaf_tokens value =
    map (λ (t : ℕ × ℕ). take t.1 (drop t.0 value)) (token_loop (length value) value 0)

-- The edits of one leaf.
unfoldable pub token_edits : (Bytes → Bytes) → Leaf → List (ℕ × ℕ) → List Edit
token_edits restore leaf [] = []
token_edits restore leaf ((start, n) ∷ ts) =
    let token = take n (drop start leaf.value) in
    let secret = restore token in
    let rest = token_edits restore leaf ts in
    if bytes_eq secret token
    then rest
    else record {
      leaf = leaf;
      start = start;
      end = start + n;
      replacement = raw_spelling leaf.tok secret;
    }
      ∷ rest

unfoldable pub within_leaf_edits : List Leaf → (Bytes → Bytes) → List Edit
within_leaf_edits [] restore = []
within_leaf_edits (leaf ∷ leaves) restore =
    token_edits restore leaf (token_loop (length leaf.value) leaf.value 0)
    ++ within_leaf_edits leaves restore

unfoldable pub has_identifiable_leaf : List Leaf → Bool
has_identifiable_leaf [] = false
has_identifiable_leaf (leaf ∷ leaves) = elim leaf.identifiable [
  | true ↦ true
  | false ↦ has_identifiable_leaf leaves
]

abbrev pub is_match : Bytes → Leaf → Bool
is_match key leaf = leaf.identifiable && bytes_eq leaf.identity key

-- The loop of `uniqueIdentityMatch`: the last match, and their number.
unfoldable pub match_loop : Bytes → List Leaf → Option Leaf → ℕ → Option Leaf × ℕ
match_loop key [] found n = (found, n)
match_loop key (leaf ∷ leaves) found n = elim (is_match key leaf) [
  | true ↦ match_loop key leaves (some leaf) (n + 1)
  | false ↦ match_loop key leaves found n
]

unfoldable pub unique_identity_match : List Leaf → Bytes → Option Leaf
unique_identity_match leaves key =
    let (found, n) = match_loop key leaves none 0 in if n == 1 then found else none

-- The loop of `smallestPrefixAt` over `v[i:]`.
unfoldable pub prefix_at_loop : Bytes → ℕ → Option ℕ
prefix_at_loop [] i = none
prefix_at_loop (c ∷ s) i =
    let rest = prefix_at_loop s (i + 1) in
    if not (token_len (c ∷ s) == 0)
    then rest
    else if is_placeholder_prefix (c ∷ s)
    then some i
    else rest

unfoldable pub smallest_prefix_at : Bytes → ℕ → Option ℕ
smallest_prefix_at v from = prefix_at_loop (drop from v) from

-- An unfinished placeholder at the end of a leaf's value.
abbrev pub Trailing : Type 0
Trailing = Option (Bytes × Leaf)

-- What one leaf makes of the last one found.
unfoldable pub trailing_of : Leaf → ℕ → Trailing → Trailing
trailing_of leaf from last = elim (smallest_prefix_at leaf.value from) [
  | none ↦ last
  | some s ↦ some (drop s leaf.value, leaf)
]

unfoldable pub trailing_loop : List Leaf → Trailing → Trailing
trailing_loop [] last = last
trailing_loop (leaf ∷ leaves) last =
    trailing_loop leaves (if leaf.identifiable then trailing_of leaf 0 last else last)

unfoldable pub trailing_prefix : List Leaf → Trailing
trailing_prefix leaves = trailing_loop leaves none

-- In the match only from `k` on; then in every leaf behind it.
unfoldable pub trailing_prefix_after : List Leaf → Leaf → ℕ → Trailing
trailing_prefix_after [] match_leaf k = none
trailing_prefix_after (leaf ∷ leaves) match_leaf k = elim (is_match match_leaf.identity leaf) [
  | true ↦ trailing_loop leaves (trailing_of leaf k none)
  | false ↦ trailing_prefix_after leaves match_leaf k
]
