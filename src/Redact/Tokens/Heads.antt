-- ===== src/Redact/Tokens/Heads.antt =====
-- The suffixes that pkg/redact/sse_leaf_scan.go finds, and the carry that `PrefixLen` lets grow, are
-- heads of placeholders.
use tokenhush.Base.{
  ℕ, zero, suc, ◌+◌, ◌-◌, ◌≤◌, ◌≡◌, ◌⊎◌, sym, ap, ◌∙◌, subst, true, inl, inr, none, some, List, [],
  ◌∷◌, Bytes, if◌then◌else◌, length, take, drop, arith, Bool-cases, if-case, Option-cases, drop-add,
  take-length,
}
use tokenhush.Protocol.Leaf.{Leaf}
use tokenhush.Redact.Matcher.{prefix_len, prefix_scan, is_placeholder_prefix}
use tokenhush.Redact.Tokens.{
  prefix_at_loop, smallest_prefix_at, is_match, Trailing, trailing_of, trailing_loop,
  trailing_prefix, trailing_prefix_after,
}

-- An unfinished placeholder.
abbrev pub IsHead : Trailing → Type 0
IsHead none = Unit
IsHead (some (p, leaf)) = is_placeholder_prefix p ≡ true

prefix_at_step :
    (c : ℕ) (s : Bytes) (i k : ℕ)
    → prefix_at_loop (c ∷ s) i ≡ some k
    → ((i ≡ k) × (is_placeholder_prefix (c ∷ s) ≡ true)) ⊎ (prefix_at_loop s (i + 1) ≡ some k)
unfolding prefix_at_loop
prefix_at_step c s i k h = ground arith

prefix_at_nil : (i k : ℕ) → prefix_at_loop [] i ≡ some k → ⊥
unfolding prefix_at_loop
prefix_at_nil i k h = cc

prefix_at_found :
    (s : Bytes) (i k : ℕ)
    → prefix_at_loop s i ≡ some k
    → (i ≤ k) × (is_placeholder_prefix (drop (k - i) s) ≡ true)
prefix_at_found [] i k h = absurd (prefix_at_nil i k h)
prefix_at_found (c ∷ s) i k h = elim (prefix_at_step c s i k h) [
  | inl (e, head) ↦ (
    omega arith,
    subst (λ n. is_placeholder_prefix (drop n (c ∷ s)) ≡ true) {x = 0} (omega arith) head,
  )
  | inr later ↦
      let (le, head) = prefix_at_found s (i + 1) k later in
      (
        omega arith,
        subst (λ n. is_placeholder_prefix (drop n (c ∷ s)) ≡ true) {x = suc (k - (i + 1))}
            (omega arith) head,
      )
]

smallest_found :
    (v : Bytes) (from k : ℕ)
    → smallest_prefix_at v from ≡ some k
    → is_placeholder_prefix (drop k v) ≡ true
smallest_found v from k h =
    let (le, head) = prefix_at_found (drop from v) from k (unfold smallest_prefix_at in h) in
    subst (λ s. is_placeholder_prefix s ≡ true)
      (sym (drop-add from (k - from) v) ∙ ap (λ n. drop n v) {y = k} (omega arith)) head

trailing_of-IsHead :
    (leaf : Leaf) (from : ℕ) (last : Trailing) → IsHead last → IsHead (trailing_of leaf from last)
unfolding trailing_of
trailing_of-IsHead leaf from last h = elim (Option-cases (smallest_prefix_at leaf.value from)) [
  | inl e ↦ rw (e, trailing_of) h
  | inr (k, e) ↦ rw (e, trailing_of) (smallest_found leaf.value from k e)
]

trailing_loop-IsHead :
    (leaves : List Leaf) (last : Trailing) → IsHead last → IsHead (trailing_loop leaves last)
unfolding trailing_loop
trailing_loop-IsHead [] last h = h
trailing_loop-IsHead (leaf ∷ leaves) last h =
    trailing_loop-IsHead leaves (if leaf.identifiable then trailing_of leaf 0 last else last) (
      if-case IsHead leaf.identifiable (trailing_of leaf 0 last) last
        (λ _. trailing_of-IsHead leaf 0 last h) (λ _. h))

pub trailing_prefix-IsHead : (leaves : List Leaf) → IsHead (trailing_prefix leaves)
unfolding trailing_prefix
trailing_prefix-IsHead leaves = trailing_loop-IsHead leaves none tt

pub trailing_prefix_after-IsHead :
    (leaves : List Leaf) (m : Leaf) (k : ℕ) → IsHead (trailing_prefix_after leaves m k)
unfolding trailing_prefix_after
trailing_prefix_after-IsHead [] m k = tt
trailing_prefix_after-IsHead (leaf ∷ leaves) m k = elim (Bool-cases (is_match m.identity leaf)) [
  | inl e ↦
      rw (e, trailing_prefix_after)
        (trailing_loop-IsHead leaves (trailing_of leaf k none) (trailing_of-IsHead leaf k none tt))
  | inr e ↦ rw (e, trailing_prefix_after) (trailing_prefix_after-IsHead leaves m k)
]

prefix_scan_case :
    (p : Bytes) (left k : ℕ)
    → (is_placeholder_prefix (take (k + 1) p) ≡ true)
        × (prefix_scan p (suc left) k ≡ prefix_scan p left (k + 1))
      ⊎ (prefix_scan p (suc left) k ≡ k)
unfolding prefix_scan
prefix_scan_case p left k = ground arith

prefix_scan_full :
    (p : Bytes) (left k : ℕ)
    → prefix_scan p (suc left) k ≡ k + suc left
    → is_placeholder_prefix (take (k + suc left) p) ≡ true
prefix_scan_full p zero k h = elim (prefix_scan_case p zero k) [
  | inl (head, _) ↦ head
  | inr stopped ↦ absurd (omega arith)
]
prefix_scan_full p (suc left) k h = elim (prefix_scan_case p (suc left) k) [
  | inl (_, step) ↦
      subst (λ n. is_placeholder_prefix (take n p) ≡ true) {x = k + 1 + suc left} (omega arith)
        (prefix_scan_full p left (k + 1) (omega arith))
  | inr stopped ↦ absurd (omega arith)
]

-- A text that `PrefixLen` covers.
pub prefix_len_full :
    (p : Bytes) → prefix_len p ≡ length p → 1 ≤ length p → is_placeholder_prefix p ≡ true
unfolding prefix_len
prefix_len_full [] h le = absurd (omega arith)
prefix_len_full (c ∷ p) h le =
    subst (λ s. is_placeholder_prefix s ≡ true)
      (ap (λ n. take n (c ∷ p)) {y = length (c ∷ p)} (omega arith) ∙ take-length (c ∷ p))
      (prefix_scan_full (c ∷ p) (length p) 0 (omega (arith, h)))
