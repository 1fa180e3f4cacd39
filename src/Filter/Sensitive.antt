-- ===== src/Filter/Sensitive.antt =====
-- `sensitiveMatcher` of pkg/filter/sensitive.go, and `insideOccurrence` of pkg/filter/evaluate.go.
-- `lower` stands for `strings.ToLower`; `none` is a nil matcher.
use tokenhush.Base.{
  ℕ, zero, suc, ◌+◌, ◌-◌, Bool, true, false, not, ◌||◌, Option, none, some, List, [], ◌∷◌, Bytes,
  ltb, leb, ◌==◌, if◌then◌else◌, length, take, drop, bytes_eq, index,
}
use tokenhush.Protocol.Leaf.{Leaf}

pub record SensitiveMatcher : Type 0 where
  pub keys : List Bytes
  pub case_sensitive : Bool
  pub allowlist : List Bytes

unfoldable pub has_key : List Bytes → Bytes → Bool
has_key [] key = false
has_key (k ∷ ks) key = bytes_eq k key || has_key ks key

unfoldable pub matches : (Bytes → Bytes) → Option SensitiveMatcher → Leaf → Bool
unfolding has_key
matches lower none leaf = false
matches lower (some m) leaf =
    if not leaf.member
    then false
    else has_key m.keys (if m.case_sensitive then leaf.key else lower leaf.key)

-- The loop of `insideOccurrence` over the window behind `off`; the window is `window[off:]`.
unfoldable pub window_loop : ℕ → Bytes → Bytes → ℕ → ℕ → Bool
window_loop zero window literal lo end = false
window_loop (suc fuel) window literal lo end = elim (leb (length literal) (length window)) [
  | false ↦ false
  | true ↦ elim (index literal window) [
    | none ↦ false
    | some at ↦ elim (leb end (lo + at + length literal)) [
      | true ↦ true
      | false ↦ window_loop fuel (drop (at + 1) window) literal (lo + at + 1) end
    ]
  ]
]

unfoldable pub inside_occurrence : Bytes → Bytes → ℕ → ℕ → Bool
unfolding window_loop
inside_occurrence value literal start end =
    let n = length literal in
    let lo = end - n in
    let hi = if ltb (length value) (start + n) then length value else start + n in
    let window = take (hi - lo) (drop lo value) in
    if n == 0 || ltb n (end - start)
    then false
    else if leb hi lo
    then false
    else window_loop (length window + 1) window literal lo end

unfoldable pub covers_value : List Bytes → Bytes → Bool
unfolding inside_occurrence
covers_value [] value = false
covers_value (literal ∷ ls) value =
    inside_occurrence value literal 0 (length value) || covers_value ls value

-- `allows`.
unfoldable pub allows : Option SensitiveMatcher → Bytes → Bool
unfolding covers_value
allows none value = false
allows (some m) value = covers_value m.allowlist value
