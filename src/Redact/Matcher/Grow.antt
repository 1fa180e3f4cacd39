-- ===== src/Redact/Matcher/Grow.antt =====
-- Every head of a spelled placeholder may still grow: `PrefixLen` takes all of it.
use native.Mathlib.Decide.{dec_lt, dec_le}
use tokenhush.Base.{
  ℕ, zero, suc, ◌+◌, ◌≤◌, ◌<◌, ◌≡◌, refl, sym, ap, ◌∙◌, true, false, ◌∷◌, ◌++◌, Bytes, length, take,
  drop, has_prefix, arith, inl, inr, length-append, append_assoc, has_prefix-append,
  drop_append_length, drop-add, append_split, take-append-drop,
}
use tokenhush.Redact.Grammar.{
  placeholder_prefix, placeholder_suffix, placeholder_sep, max_type_len, hex_run, is_hex_digit,
  spell, IsType, IsDigest, hex_run-append, hex_run-All,
}
use tokenhush.Redact.Matcher.{prefix_loop, is_placeholder_prefix, prefix_scan, prefix_len}
use tokenhush.Redact.Matcher.Head.{
  rest_of, past_type, within_type, run_short, at_type, drop_type, prefix_round, prefix_digest,
  prefix_suffix, tail_forms, prefix_types,
}

module _ (ty hex : Bytes) (t : IsType ty) (d : IsDigest hex) where
  sep_no_digit : is_hex_digit placeholder_sep ≡ false
  unfolding is_hex_digit
  sep_no_digit = refl

  -- The round at the true type length accepts.
  last_round :
      (k : ℕ) (m z : Bytes)
      → m ++ z ≡ hex ++ placeholder_suffix
      → prefix_loop (ty ++ placeholder_sep ∷ m) (suc k) (length ty) ≡ true
  last_round k m z e =
      let r = ty ++ placeholder_sep ∷ m in
      let whole : length r ≡ length ty + 1 + length m =
        omega (arith, length-append ty (placeholder_sep ∷ m)) in
      let run : hex_run (drop (length ty + 1) r) ≡ hex_run m =
        ap hex_run (drop_type ty hex t d m) in
      elim (tail_forms hex m z e d.hex_digits) [
        | inl (all, le) ↦
            prefix_digest r k (length ty) (omega arith) (at_type ty hex t d m)
              (run ∙ hex_run-All m all ∙ omega arith)
              (omega (arith, run, hex_run-All m all, d.digest_short))
        | inr (tail, p, two) ↦
            let digits : hex_run m ≡ length hex =
              ap hex_run p ∙ hex_run-append hex placeholder_sep tail d.hex_digits sep_no_digit in
            let n = hex_run (drop (length ty + 1) r) in
            let rem : drop (length ty + 1 + n) r ≡ placeholder_sep ∷ tail =
              drop-add (length ty + 1) n r
              ∙ ap (drop n) (drop_type ty hex t d m)
              ∙ ap (λ k. drop k m) (run ∙ digits)
              ∙ ap (drop (length hex)) p
              ∙ drop_append_length hex (placeholder_sep ∷ tail) in
            prefix_suffix r k (length ty) (omega arith) tail (at_type ty hex t d m) rem two
              (omega (arith, run, digits, d.digest_long))
              (omega (arith, run, digits, d.digest_short))
              (omega (arith, run, digits, ap length p, length-append hex (placeholder_sep ∷ tail)))
      ]

  rounds :
      (r z : Bytes) (k n : ℕ)
      → r ++ z ≡ rest_of ty hex t d
      → n ≤ length ty
      → length ty < n + k
      → prefix_loop r k n ≡ true
  rounds r z zero n e le more = absurd (omega arith)
  rounds r z (suc k) n e le more = elim (dec_lt n (length r)) [
    | no out ↦ prefix_types r k n (omega arith) (within_type ty hex t d r z e (omega arith))
    | yes inside ↦ elim (dec_lt n (length ty)) [
      | yes lt ↦
          prefix_round r k n inside (run_short ty hex t d r z n e lt inside)
            (rounds r z k (n + 1) e (omega arith) (omega arith))
      | no ge ↦
          let (m, p, q) = past_type ty hex t d r z e (omega arith) in
          rw p (
            ap (prefix_loop (ty ++ placeholder_sep ∷ m) (suc k)) {x = n} {y = length ty}
              (omega arith)
            ∙ last_round k m z q)
    ]
  ]

  -- Every head of the placeholder is a placeholder prefix.
  pub head-is_placeholder_prefix :
      (x z : Bytes) → x ++ z ≡ spell ty hex → is_placeholder_prefix x ≡ true
  unfolding is_placeholder_prefix
  head-is_placeholder_prefix x z e = elim (dec_le (length x) (length placeholder_prefix)) [
    | yes short ↦
        let (m, p, q) = append_split placeholder_prefix (rest_of ty hex t d) x z (sym e) short in
        let pre : has_prefix x placeholder_prefix ≡ true =
          ap (has_prefix x) p ∙ has_prefix-append x m in
        ground (arith, pre)
    | no long ↦
        let (m, p, q) = append_split x z placeholder_prefix (rest_of ty hex t d) e (omega arith) in
        let ok = rounds m z max_type_len 1 q t.type_nonempty (omega (arith, t.type_short)) in
        let pre : has_prefix placeholder_prefix x ≡ true =
          ap (has_prefix placeholder_prefix) p ∙ has_prefix-append placeholder_prefix m in
        let cut : drop (length placeholder_prefix) x ≡ m =
          ap (drop (length placeholder_prefix)) p ∙ drop_append_length placeholder_prefix m in
        ground (arith, pre, ap (λ s. prefix_loop s max_type_len 1) cut, ok)
  ]

-- `PrefixLen` counts on as long as the heads are prefixes.
prefix_scan_step :
    (p : Bytes) (left k : ℕ)
    → is_placeholder_prefix (take (k + 1) p) ≡ true
    → prefix_scan p (suc left) k ≡ prefix_scan p left (k + 1)
unfolding prefix_scan
prefix_scan_step p left k h = rw h

prefix_scan-all :
    (p : Bytes) (left k : ℕ)
    → ((j : ℕ) → j ≤ k + left → is_placeholder_prefix (take j p) ≡ true)
    → prefix_scan p left k ≡ k + left
prefix_scan-all p zero k h = unfold prefix_scan in omega arith
prefix_scan-all p (suc left) k h =
    prefix_scan_step p left k (h (k + 1) (omega arith))
    ∙ prefix_scan-all p left (k + 1) (λ j le. h j (omega arith))
    ∙ omega arith

-- Every head of a placeholder is taken as growing: `PrefixLen` is its whole length.
pub prefix_len_head :
    (ty hex x z : Bytes)
    → IsType ty
    → IsDigest hex
    → x ++ z ≡ spell ty hex
    → prefix_len x ≡ length x
unfolding prefix_len
prefix_len_head ty hex x z t d e =
    prefix_scan-all x (length x) 0 (λ j le.
      head-is_placeholder_prefix ty hex t d (take j x) (drop j x ++ z)
        (sym (append_assoc (take j x) (drop j x) z) ∙ ap (λ s. s ++ z) (take-append-drop j x) ∙ e))
    ∙ omega arith
