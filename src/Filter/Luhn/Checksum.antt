-- ===== src/Filter/Luhn/Checksum.antt =====
-- The checksum against its definition by positions, and what it detects.
use tokenhush.Base.{
  ℕ, zero, suc, ◌+◌, ◌-◌, ◌*◌, ◌/◌, ◌%◌, All, ◌≡◌, refl, sym, ap, ◌∙◌, Bool, true, false, not, [],
  ◌∷◌, ◌++◌, append-nil, append_assoc, Bytes, ◌==◌, length, length-append, arith,
}
use tokenhush.Filter.Luhn.{
  is_ascii_digit, digit_value, backwards, luhn_weight, luhn_loop, luhn_valid,
}

-- Whether a digit with `n` digits behind it is doubled.
abbrev pub doubled : ℕ → Bool
doubled zero = false
doubled (suc n) = not (doubled n)

-- The digits of the double, summed up, or the digit.
abbrev pub digit_sum : Bool → ℕ → ℕ
digit_sum true d = (2 * d) / 10 + (2 * d) % 10
digit_sum false d = d

-- The sum of a text of digits, by positions from the left.
abbrev pub luhn_sum : Bytes → ℕ
luhn_sum [] = 0
luhn_sum (b ∷ s) = digit_sum (doubled (length s)) (b - b'0') + luhn_sum s

-- The sum of what the loop adds, by positions from the left.
abbrev weight_sum : Bytes → ℕ
weight_sum [] = 0
weight_sum (b ∷ s) = luhn_weight (doubled (length s)) (digit_value b) + weight_sum s

backwards-append : (s t : Bytes) → backwards (s ++ t) ≡ backwards t ++ backwards s
unfolding backwards
backwards-append [] t = sym (append-nil (backwards t))
backwards-append (d ∷ s) t =
    ap (λ r. r ++ d ∷ []) (backwards-append s t) ∙ append_assoc (backwards t) (backwards s) (d ∷ [])

-- The toggle of the loop after `n` rounds.
abbrev flips : ℕ → Bool → Bool
flips zero double = double
flips (suc n) double = flips n (not double)

flips-not : (n : ℕ) (double : Bool) → flips n (not double) ≡ not (flips n double)
flips-not zero double = refl
flips-not (suc n) double = flips-not n (not double)

flips-doubled : (n : ℕ) → flips n false ≡ doubled n
flips-doubled zero = refl
flips-doubled (suc n) = flips-not n false ∙ ap not (flips-doubled n)

loop-append :
    (s : Bytes) (d : ℕ) (double : Bool) (sum : ℕ)
    → luhn_loop (s ++ d ∷ []) double sum
      ≡ luhn_loop s double sum + luhn_weight (flips (length s) double) (digit_value d)
unfolding luhn_loop
loop-append [] d double sum = refl
loop-append (b ∷ s) d double sum =
    loop-append s d (not double) (sum + luhn_weight double (digit_value b))

length-backwards : (s : Bytes) → length (backwards s) ≡ length s
unfolding backwards
length-backwards [] = refl
length-backwards (d ∷ s) = omega (arith, length-append (backwards s) (d ∷ []), length-backwards s)

loop_sum : (s : Bytes) → luhn_loop (backwards s) false 0 ≡ weight_sum s
unfolding backwards
loop_sum [] = unfold luhn_loop in refl
loop_sum (d ∷ s) =
    let w : flips (length (backwards s)) false ≡ doubled (length s) =
      flips-doubled (length (backwards s)) ∙ ap doubled (length-backwards s) in
    loop-append (backwards s) d false 0
    ∙ ap (λ k. luhn_loop (backwards s) false 0 + luhn_weight k (digit_value d)) w
    ∙ omega (arith, loop_sum s)

valid_weights : (s : Bytes) → luhn_valid s ≡ (weight_sum s % 10 == 0)
unfolding luhn_valid
valid_weights s = ap (λ n. n % 10 == 0) (loop_sum s)

weight-digit_sum :
    (double : Bool) (b : ℕ)
    → is_ascii_digit b ≡ true
    → luhn_weight double (digit_value b) ≡ digit_sum double (b - b'0')
unfolding luhn_weight digit_value is_ascii_digit
weight-digit_sum false b h = ground arith
weight-digit_sum true b h = ground arith

weights-luhn_sum : (s : Bytes) → All (λ b. is_ascii_digit b ≡ true) s → weight_sum s ≡ luhn_sum s
weights-luhn_sum [] h = refl
weights-luhn_sum (b ∷ s) (hb, h) =
    omega (arith, weight-digit_sum (doubled (length s)) b hb, weights-luhn_sum s h)

-- For a text of ASCII digits: the checksum test says whether the sum of its digits is a multiple of
-- ten, where a digit counts with the digits of its double if an odd number of digits stand behind it,
-- and as it is otherwise.
pub luhn_valid_lem :
    (s : Bytes) → All (λ b. is_ascii_digit b ≡ true) s → luhn_valid s ≡ (luhn_sum s % 10 == 0)
luhn_valid_lem s h = valid_weights s ∙ ap (λ n. n % 10 == 0) (weights-luhn_sum s h)

weight_distinct :
    (double : Bool) (c d n : ℕ)
    → is_ascii_digit c ≡ true
    → is_ascii_digit d ≡ true
    → (luhn_weight double (digit_value c) + n) % 10 ≡ 0
    → (luhn_weight double (digit_value d) + n) % 10 ≡ 0
    → c ≡ d
unfolding luhn_weight digit_value is_ascii_digit
weight_distinct false c d n hc hd p q = ground arith
weight_distinct true c d n hc hd p q = ground arith

-- The sum without one digit.
weight_sum-at :
    (xs ys : Bytes)
    → (rest : ℕ) × ((d : ℕ)
        → weight_sum (xs ++ d ∷ ys) ≡ luhn_weight (doubled (length ys)) (digit_value d) + rest)
weight_sum-at [] ys = (weight_sum ys, λ d. refl)
weight_sum-at (x ∷ xs) ys =
    let (rest, h) = weight_sum-at xs ys in
    let w = luhn_weight (doubled (length (xs ++ 0 ∷ ys))) (digit_value x) in
    (
      w + rest,
      λ d.
          let same : length (xs ++ d ∷ ys) ≡ length (xs ++ 0 ∷ ys) =
            omega (arith, length-append xs (d ∷ ys), length-append xs (0 ∷ ys)) in
          ap (λ n. luhn_weight (doubled n) (digit_value x) + weight_sum (xs ++ d ∷ ys)) same
          ∙ omega (arith, h d),
    )

is_zero : (n : ℕ) → n == 0 ≡ true → n ≡ 0
is_zero n h = ground arith

-- The checksum detects a wrong digit: if two texts that are the same but for one place, where both
-- have a digit, pass the checksum, then they have the same digit there.
pub luhn_detects :
    (xs ys : Bytes) (c d : ℕ)
    → is_ascii_digit c ≡ true
    → is_ascii_digit d ≡ true
    → luhn_valid (xs ++ c ∷ ys) ≡ true
    → luhn_valid (xs ++ d ∷ ys) ≡ true
    → c ≡ d
luhn_detects xs ys c d hc hd p q =
    let (rest, h) = weight_sum-at xs ys in
    let zero_at : (b : ℕ)
        → luhn_valid (xs ++ b ∷ ys) ≡ true
        → (luhn_weight (doubled (length ys)) (digit_value b) + rest) % 10 ≡ 0 =
      λ b v. ap (λ n. n % 10) (sym (h b)) ∙ is_zero _ (sym (valid_weights (xs ++ b ∷ ys)) ∙ v) in
    weight_distinct (doubled (length ys)) c d rest hc hd (zero_at c p) (zero_at d q)
