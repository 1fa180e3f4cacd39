-- ===== src/Protocol/Writer/Steps.antt =====
-- One round of the loop of `release`, branch by branch, and the fuel of the loop.
use tokenhush.Base.{
  ap, ◌∙◌, ℕ, zero, suc, ◌≤◌, ◌<◌, ◌≡◌, refl, true, false, Option, none, [], ◌∷◌, ◌++◌,
  append_assoc, Bytes, arith, length, take, drop, length-drop, Bool-cases, inl, inr,
}
use tokenhush.Protocol.Writer.{
  BackfillWriter, ReplaceFunc, TokenMatcher, at_token, feed, holdback_limit, may_grow, release,
  replacement, scan, trim,
}

module _ (m : TokenMatcher) (r : Option ReplaceFunc) (fuel b : ℕ) (bs out : Bytes) where
  pub scan_token :
      at_token m (b ∷ bs) ≡ true
      → scan m r (suc fuel) (b ∷ bs) out
        ≡ scan m r fuel
            (drop (m.token_len (b ∷ bs)) (b ∷ bs))
            (out ++ replacement r (take (m.token_len (b ∷ bs)) (b ∷ bs)))
  unfolding scan
  scan_token h = rw (h, scan)

  pub scan_hold :
      at_token m (b ∷ bs) ≡ false
      → may_grow m (b ∷ bs) ≡ true
      → scan m r (suc fuel) (b ∷ bs) out ≡ (out, b ∷ bs)
  unfolding scan
  scan_hold h g = rw (h, scan) (rw (g, scan))

  pub scan_literal :
      at_token m (b ∷ bs) ≡ false
      → may_grow m (b ∷ bs) ≡ false
      → scan m r (suc fuel) (b ∷ bs) out ≡ scan m r fuel bs (out ++ b ∷ [])
  unfolding scan
  scan_literal h g = rw (h, scan) (rw (g, scan))

pub replacement-none : (token : Bytes) → replacement none token ≡ token
unfolding replacement
replacement-none token = refl

-- What was emitted before a round stands in front of what the loop emits.
pub scan-out :
    (m : TokenMatcher) (r : Option ReplaceFunc) (fuel : ℕ) (rest a out : Bytes)
    → scan m r fuel rest (a ++ out) ≡ (a ++ (scan m r fuel rest out).0, (scan m r fuel rest out).1)
scan-out m r zero rest a out = unfold scan in refl
scan-out m r (suc fuel) [] a out = unfold scan in refl
scan-out m r (suc fuel) (b ∷ bs) a out = elim (Bool-cases (at_token m (b ∷ bs))) [
  | inl t ↦
      let n = m.token_len (b ∷ bs) in
      let rep = replacement r (take n (b ∷ bs)) in
      rw
        (
          scan_token m r fuel b bs (a ++ out) t,
          scan_token m r fuel b bs out t,
          append_assoc a out rep,
        )
        (scan-out m r fuel (drop n (b ∷ bs)) a (out ++ rep))
  | inr t ↦ elim (Bool-cases (may_grow m (b ∷ bs))) [
    | inl g ↦ rw (scan_hold m r fuel b bs (a ++ out) t g, scan_hold m r fuel b bs out t g)
    | inr g ↦
        rw
          (
            scan_literal m r fuel b bs (a ++ out) t g,
            scan_literal m r fuel b bs out t g,
            append_assoc a out (b ∷ []),
          )
          (scan-out m r fuel bs a (out ++ b ∷ []))
  ]
]

pub at_token-pos : (m : TokenMatcher) (rest : Bytes) → at_token m rest ≡ true → 0 < m.token_len rest
unfolding at_token
at_token-pos m rest h = ground arith

pub at_token-le :
    (m : TokenMatcher) (rest : Bytes) → at_token m rest ≡ true → m.token_len rest ≤ length rest
unfolding at_token
at_token-le m rest h = ground arith

-- The loop ends: any two amounts of fuel that are as large as the bytes left give one result.
pub scan_fuel :
    (m : TokenMatcher) (r : Option ReplaceFunc) (f g : ℕ) (rest out : Bytes)
    → length rest ≤ f
    → length rest ≤ g
    → scan m r f rest out ≡ scan m r g rest out
scan_fuel m r zero zero rest out hf hg = refl
scan_fuel m r zero (suc g) [] out hf hg = unfold scan in refl
scan_fuel m r (suc f) zero [] out hf hg = unfold scan in refl
scan_fuel m r (suc f) (suc g) [] out hf hg = unfold scan in refl
scan_fuel m r zero (suc g) (b ∷ bs) out hf hg = absurd (omega arith)
scan_fuel m r (suc f) zero (b ∷ bs) out hf hg = absurd (omega arith)
scan_fuel m r (suc f) (suc g) (b ∷ bs) out hf hg = elim (Bool-cases (at_token m (b ∷ bs))) [
  | inl t ↦
      let n = m.token_len (b ∷ bs) in
      let shorter : length (drop n (b ∷ bs)) ≤ length bs =
        omega (arith, length-drop n (b ∷ bs), at_token-pos m (b ∷ bs) t) in
      rw (scan_token m r f b bs out t, scan_token m r g b bs out t)
        (scan_fuel m r f g (drop n (b ∷ bs)) (out ++ replacement r (take n (b ∷ bs))) (omega arith)
          (omega arith))
  | inr t ↦ elim (Bool-cases (may_grow m (b ∷ bs))) [
    | inl h ↦ rw (scan_hold m r f b bs out t h, scan_hold m r g b bs out t h)
    | inr h ↦
        rw (scan_literal m r f b bs out t h, scan_literal m r g b bs out t h)
          (scan_fuel m r f g bs (out ++ b ∷ []) (omega arith) (omega arith))
  ]
]

trim_fits : (limit : ℕ) (r : Bytes × Bytes) → length r.1 ≤ limit → trim limit r ≡ r
unfolding trim
trim_fits limit (out, tail) h = ground arith

-- What a chunk does, where the tail fits the bound.
pub feed_of_scan :
    (w : BackfillWriter) (p out tail : Bytes)
    → scan w.matcher w.replace (length (w.held ++ p)) (w.held ++ p) [] ≡ (out, tail)
    → length tail ≤ holdback_limit w.matcher
    → feed w p ≡ (out, record w { held = tail })
unfolding feed release
feed_of_scan w p out tail e h =
    ap
      (λ (t : Bytes × Bytes). (
        (trim (holdback_limit w.matcher) t).0,
        record w { held = (trim (holdback_limit w.matcher) t).1 },
      ))
      e
    ∙ ap (λ (t : Bytes × Bytes). (t.0, record w { held = t.1 }))
        (trim_fits (holdback_limit w.matcher) (out, tail) h)
