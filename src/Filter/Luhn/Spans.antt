-- ===== src/Filter/Luhn/Spans.antt =====
-- The spans that `findLuhnSpans` reports, and that its loop ends by itself.
use tokenhush.Base.{
  ℕ, zero, suc, ◌+◌, ◌-◌, ◌≤◌, ◌<◌, ◌≡◌, refl, sym, ap, ◌∙◌, subst, true, false, List, [], ◌∷◌,
  Bytes, if◌then◌else◌, length, take, drop, arith, All, Bool-cases, inl, inr,
}
use tokenhush.Protocol.Sse.{Span}
use tokenhush.Filter.Luhn.{
  is_ascii_digit, all_same_digit, luhn_valid, in_run, run_loop, digits_of, accept_run, find_loop,
  find_luhn_spans,
}

-- The bytes of a span.
abbrev pub slice : Bytes → Span → Bytes
slice content span = take (span.end - span.start) (drop span.start content)

-- A span of a card number in a text.
pub record IsCard (content : Bytes) (span : Span) : Type 0 where
  pub nonempty : span.start < span.end
  pub inside : span.end ≤ length content
  pub checks : luhn_valid (digits_of (slice content span)) ≡ true
  pub mixed : all_same_digit (digits_of (slice content span)) ≡ false

-- Spans one behind the other, from an offset on.
abbrev pub IsApart : ℕ → List Span → Type 0
IsApart from [] = Unit
IsApart from (s ∷ ss) = (from ≤ s.start) × IsApart s.end ss

run_loop_bounds :
    (s : Bytes) (i last n : ℕ)
    → last < i
    → (last ≤ (run_loop s i last n).2)
      × ((run_loop s i last n).2 < (run_loop s i last n).1)
      × ((run_loop s i last n).1 + length (run_loop s i last n).0 ≡ i + length s)
unfolding run_loop
run_loop_bounds [] i last n h = (omega arith, omega arith, omega arith)
run_loop_bounds (b ∷ s) i last n h =
    ground (arith, run_loop_bounds s (i + 1) i (n + 1), run_loop_bounds s (i + 1) last n)

run_loop_shorter : (s : Bytes) (i last n : ℕ) → length (run_loop s i last n).0 ≤ length s
unfolding run_loop
run_loop_shorter [] i last n = omega arith
run_loop_shorter (b ∷ s) i last n =
    ground (arith, run_loop_shorter s (i + 1) i (n + 1), run_loop_shorter s (i + 1) last n)

run_first :
    (b : ℕ) (s : Bytes) (i : ℕ)
    → is_ascii_digit b ≡ true
    → run_loop (b ∷ s) i i 0 ≡ run_loop s (i + 1) i 1
unfolding run_loop in_run
run_first b s i h = rw (h, run_loop) (rw h)

accept_run_lem :
    (content : Bytes) (start last n : ℕ)
    → accept_run content start last n ≡ true
    → (luhn_valid (digits_of (take (last + 1 - start) (drop start content))) ≡ true)
      × (all_same_digit (digits_of (take (last + 1 - start) (drop start content))) ≡ false)
unfolding accept_run
accept_run_lem content start last n h = ground arith

-- What the loop gives for spans that start from `i` on.
abbrev Cards : Bytes → ℕ → List Span → Type 0
Cards content i spans = All (IsCard content) spans × IsApart i spans

IsApart-later : (i j : ℕ) (ss : List Span) → i ≤ j → IsApart j ss → IsApart i ss
IsApart-later i j [] h a = tt
IsApart-later i j (s ∷ ss) h (le, a) = (omega arith, a)

find_skip :
    (cut : List Span) (fuel : ℕ) (content : Bytes) (b : ℕ) (s : Bytes) (i : ℕ)
    → is_ascii_digit b ≡ false
    → find_loop cut (suc fuel) content (b ∷ s) i ≡ find_loop cut fuel content s (i + 1)
unfolding find_loop
find_skip cut fuel content b s i h = rw (h, find_loop)

find_run :
    (cut : List Span) (fuel : ℕ) (content : Bytes) (b : ℕ) (s : Bytes) (i : ℕ)
    → is_ascii_digit b ≡ true
    → find_loop cut (suc fuel) content (b ∷ s) i ≡ (
        if accept_run content i (run_loop s (i + 1) i 1).2 (run_loop s (i + 1) i 1).3
        then record { start = i; end = (run_loop s (i + 1) i 1).2 + 1 }
          ∷ find_loop cut fuel content (run_loop s (i + 1) i 1).0 (run_loop s (i + 1) i 1).1
        else find_loop cut fuel content (run_loop s (i + 1) i 1).0 (run_loop s (i + 1) i 1).1)
unfolding find_loop
find_run cut fuel content b s i h = rw (h, find_loop) (rw (run_first b s i h, find_loop))

find_loop-Cards :
    (fuel : ℕ) (content rest : Bytes) (i : ℕ)
    → i + length rest ≡ length content
    → Cards content i (find_loop [] fuel content rest i)
find_loop-Cards fuel content [] i h = unfold find_loop in (tt, tt)
find_loop-Cards zero content (b ∷ s) i h = unfold find_loop in (tt, tt)
find_loop-Cards (suc fuel) content (b ∷ s) i h = elim (Bool-cases (is_ascii_digit b)) [
  | inr skip ↦
      let (cards, apart) = find_loop-Cards fuel content s (i + 1) (omega arith) in
      subst (Cards content i) (sym (find_skip [] fuel content b s i skip))
        (cards, IsApart-later i (i + 1) _ (omega arith) apart)
  | inl digit ↦
      let r = run_loop s (i + 1) i 1 in
      let (low, high, total) = run_loop_bounds s (i + 1) i 1 (omega arith) in
      let (cards, apart) = find_loop-Cards fuel content r.0 r.1 (omega arith) in
      subst (Cards content i) (sym (find_run [] fuel content b s i digit))
        (elim (Bool-cases (accept_run content i r.2 r.3)) [
          | inr off ↦ rw off (cards, IsApart-later i r.1 _ (omega arith) apart)
          | inl on ↦
              let (valid, mixed) = accept_run_lem content i r.2 r.3 on in
              rw on (
                (
                  record {
                    nonempty = omega arith;
                    inside = omega arith;
                    checks = valid;
                    mixed = mixed;
                  },
                  cards,
                ),
                (omega arith, IsApart-later (r.2 + 1) r.1 _ (omega arith) apart),
              )
        ])
]

-- For every text: the reported spans are not empty, lie in the text, stand one behind the other
-- without overlap, and the digits of each pass the checksum and are not all the same.
pub luhn_spans :
    (content : Bytes)
    → All (IsCard content) (find_luhn_spans content) × IsApart 0 (find_luhn_spans content)
unfolding find_luhn_spans
luhn_spans content = find_loop-Cards (length content) content content 0 (omega arith)

-- The loop ends before its fuel does: with fuel for the bytes that are left, neither the amount of the
-- fuel nor what the loop would give at the end of the fuel changes the result.
pub find_loop_fuel :
    (x y : List Span) (f g : ℕ) (content rest : Bytes) (i : ℕ)
    → length rest ≤ f
    → length rest ≤ g
    → find_loop x f content rest i ≡ find_loop y g content rest i
find_loop_fuel x y f g content [] i h k = unfold find_loop in refl
find_loop_fuel x y zero g content (b ∷ s) i h k = absurd (omega arith)
find_loop_fuel x y (suc f) zero content (b ∷ s) i h k = absurd (omega arith)
find_loop_fuel x y (suc f) (suc g) content (b ∷ s) i h k = elim (Bool-cases (is_ascii_digit b)) [
  | inr skip ↦
      find_skip x f content b s i skip
      ∙ find_loop_fuel x y f g content s (i + 1) (omega arith) (omega arith)
      ∙ sym (find_skip y g content b s i skip)
  | inl digit ↦
      let r = run_loop s (i + 1) i 1 in
      find_run x f content b s i digit
      ∙ ap
          (λ more.
            if accept_run content i r.2 r.3
            then record { start = i; end = r.2 + 1 } ∷ more
            else more)
          (find_loop_fuel x y f g content r.0 r.1 (omega (arith, run_loop_shorter s (i + 1) i 1))
            (omega (arith, run_loop_shorter s (i + 1) i 1)))
      ∙ sym (find_run y g content b s i digit)
]
