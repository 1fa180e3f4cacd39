-- ===== src/Filter/Luhn.antt =====
-- The payment-card detector of pkg/filter/primitive_luhn.go, with the byte budget and the digit test
-- of pkg/filter/primitive_prefix.go. The offset `i` of the source is kept beside the bytes from it on.
pub mod Checksum
pub mod Spans
use tokenhush.Base.{
  ℕ, zero, suc, ◌+◌, ◌-◌, ◌*◌, ◌%◌, ◌≤◌, ◌<◌, ◌≡◌, refl, sym, ap, ◌∙◌, Bool, true, false, not, ◌&&◌,
  ◌||◌, Option, none, some, List, [], ◌∷◌, ◌++◌, append-nil, append_assoc, Bytes, ltb, leb, ◌==◌,
  if◌then◌else◌, length, take, drop,
}
use tokenhush.Protocol.Sse.{Span}

abbrev pub luhn_min_digits : ℕ
luhn_min_digits = 13

abbrev pub luhn_max_digits : ℕ
luhn_max_digits = 19

unfoldable pub is_ascii_digit : ℕ → Bool
is_ascii_digit b = leb b'0' b && leb b b'9'

unfoldable pub all_digits_are : ℕ → Bytes → Bool
all_digits_are d [] = true
all_digits_are d (b ∷ s) = b == d && all_digits_are d s

unfoldable pub all_same_digit : Bytes → Bool
all_same_digit [] = true
all_same_digit (d ∷ s) = all_digits_are d s

-- The digits from the last to the first.
unfoldable pub backwards : Bytes → Bytes
backwards [] = []
backwards (d ∷ s) = backwards s ++ d ∷ []

-- What one digit adds to the sum.
unfoldable pub luhn_weight : Bool → ℕ → ℕ
luhn_weight double d = if not double then d else if ltb 9 (d * 2) then d * 2 - 9 else d * 2

-- `int(digits[i] - '0')`: the subtraction of bytes wraps.
unfoldable pub digit_value : ℕ → ℕ
digit_value b = (b + 256 - b'0') % 256

-- The loop of `luhnValid` over the digits from the last to the first.
unfoldable pub luhn_loop : Bytes → Bool → ℕ → ℕ
luhn_loop [] double sum = sum
luhn_loop (b ∷ s) double sum = luhn_loop s (not double) (sum + luhn_weight double (digit_value b))

unfoldable pub luhn_valid : Bytes → Bool
luhn_valid digits = luhn_loop (backwards digits) false 0 % 10 == 0

-- A byte of a run: a digit, a space or a dash.
unfoldable pub in_run : ℕ → Bool
in_run b = is_ascii_digit b || b == b' ' || b == b'-'

-- The inner loop: the bytes behind the run, their offset, the offset of the last digit, and the
-- number of digits.
unfoldable pub run_loop : Bytes → ℕ → ℕ → ℕ → Bytes × ℕ × ℕ × ℕ
run_loop [] i last digits = ([], i, last, digits)
run_loop (b ∷ s) i last digits = elim (in_run b) [
  | false ↦ (b ∷ s, i, last, digits)
  | true ↦
      (if is_ascii_digit b
        then run_loop s (i + 1) i (digits + 1)
        else run_loop s (i + 1) last digits)
]

unfoldable pub digits_of : Bytes → Bytes
digits_of [] = []
digits_of (b ∷ s) = if is_ascii_digit b then b ∷ digits_of s else digits_of s

-- The tests behind the inner loop.
unfoldable pub accept_run : Bytes → ℕ → ℕ → ℕ → Bool
accept_run content start last digits =
    let normalized = digits_of (take (last + 1 - start) (drop start content)) in
    not (ltb digits luhn_min_digits || ltb luhn_max_digits digits)
    && not (all_same_digit normalized || not (luhn_valid normalized))

-- The outer loop of `findLuhnSpans`, on fuel. `cut` is what it gives where the fuel ends before the
-- bytes do.
unfoldable pub find_loop : List Span → ℕ → Bytes → Bytes → ℕ → List Span
find_loop cut fuel content [] i = []
find_loop cut zero content (b ∷ s) i = cut
find_loop cut (suc fuel) content (b ∷ s) i = elim (is_ascii_digit b) [
  | false ↦ find_loop cut fuel content s (i + 1)
  | true ↦
      let (rest, next, last, digits) = run_loop (b ∷ s) i i 0 in
      let more = find_loop cut fuel content rest next in
      if accept_run content i last digits then record { start = i; end = last + 1 } ∷ more else more
]

unfoldable pub find_luhn_spans : Bytes → List Span
find_luhn_spans content = find_loop [] (length content) content content 0

abbrev pub primitive_byte_budget_bytes : ℕ
primitive_byte_budget_bytes = 1048576

-- `primitiveInput`; a budget that is not positive is 0 here.
unfoldable pub primitive_input : Bytes → ℕ → Bytes
primitive_input leaf budget =
    take (if budget == 0 then primitive_byte_budget_bytes else budget) leaf

unfoldable pub inspect_luhn : Bytes → ℕ → List Span
inspect_luhn content budget = find_luhn_spans (primitive_input content budget)
