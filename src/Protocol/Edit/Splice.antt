-- ===== src/Protocol/Edit/Splice.antt =====
-- The splices of `Apply`, from the last to the first, against one pass from the left.
use tokenhush.Base.{
  ℕ, zero, suc, ◌+◌, ◌-◌, ◌≤◌, ◌<◌, ◌≡◌, refl, sym, ap, ◌∙◌, List, [], ◌∷◌, ◌++◌, append_assoc,
  Bytes, length, take, drop, length-take, take-append-drop, take-append_le, drop_append_length,
  arith,
}
use tokenhush.Protocol.Edit.{Candidate, slice, splice, splice_all}

-- The text from an offset on, with the candidates put in place: the bytes between them as they were.
abbrev pub render : Bytes → ℕ → List Candidate → Bytes
render body from [] = drop from body
render body from (c ∷ cs) = slice body from c.rs ++ (c.repl ++ render body c.re cs)

-- Candidates one behind the other in a text of `n` bytes, from an offset on.
abbrev pub IsApart : ℕ → ℕ → List Candidate → Type 0
IsApart n from [] = Unit
IsApart n from (c ∷ cs) = (from ≤ c.rs) × (c.rs < c.re) × (c.re ≤ n) × IsApart n c.re cs

drop_front : (body x : Bytes) (n : ℕ) → n ≤ length body → drop n (take n body ++ x) ≡ x
drop_front body x n h =
    let len = length-take n body in
    ap (λ k. drop k (take n body ++ x)) {y = length (take n body)} (omega (arith, len))
    ∙ drop_append_length (take n body) x

take-take : (a b : ℕ) (s : Bytes) → a ≤ b → take a (take b s) ≡ take a s
take-take zero b s h = refl
take-take (suc a) zero s h = absurd (omega arith)
take-take (suc a) (suc b) [] h = refl
take-take (suc a) (suc b) (c ∷ s) h = ap (◌∷◌ c) (take-take a b s (omega arith))

take_nil : (n : ℕ) → take {A = ℕ} n [] ≡ []
take_nil zero = refl
take_nil (suc n) = refl

take_add : (a b : ℕ) (s : Bytes) → take (a + b) s ≡ take a s ++ take b (drop a s)
take_add zero b s = ap (λ k. take k s) {y = b} (omega arith)
take_add (suc a) b [] = take_nil (suc a + b) ∙ sym (take_nil b)
take_add (suc a) b (c ∷ s) =
    ap (λ k. take k (c ∷ s)) {y = suc (a + b)} (omega arith) ∙ ap (◌∷◌ c) (take_add a b s)

take_to : (a b : ℕ) (s : Bytes) → a ≤ b → take b s ≡ take a s ++ slice s a b
take_to a b s h = ap (λ k. take k s) {y = a + (b - a)} (omega arith) ∙ take_add a (b - a) s

-- The splices leave the bytes in front of the first candidate, and give the pass from there on.
pub splice_all-render :
    (body : Bytes) (from : ℕ) (cs : List Candidate)
    → from ≤ length body
    → IsApart (length body) from cs
    → splice_all body cs ≡ take from body ++ render body from cs
splice_all-render body from [] h a = unfold splice_all in sym (take-append-drop from body)
splice_all-render body from (c ∷ cs) h (low, pos, high, a) =
    let ih = splice_all-render body c.re cs high a in
    let x = render body c.re cs in
    splice_step body c cs
    ∙ ap (λ out. splice out c) ih
    ∙ splice_front body c x (omega arith) high
    ∙ ap (λ t. t ++ (c.repl ++ x)) (take_to from c.rs body low)
    ∙ append_assoc (take from body) (slice body from c.rs) (c.repl ++ x)
  where
    splice_step :
        (body : Bytes) (c : Candidate) (cs : List Candidate)
        → splice_all body (c ∷ cs) ≡ splice (splice_all body cs) c
    splice_step body c cs = unfold splice_all in refl

    splice_front :
        (body : Bytes) (c : Candidate) (x : Bytes)
        → c.rs ≤ c.re
        → c.re ≤ length body
        → splice (take c.re body ++ x) c ≡ take c.rs body ++ (c.repl ++ x)
    splice_front body c x le high =
        unfold splice in
        (ap (λ t. t ++ (c.repl ++ drop c.re (take c.re body ++ x)))
            (take-append_le c.rs (take c.re body) x (omega (arith, length-take c.re body))
              ∙ take-take c.rs c.re body le)
          ∙ ap (λ t. take c.rs body ++ (c.repl ++ t)) (drop_front body x c.re high))
