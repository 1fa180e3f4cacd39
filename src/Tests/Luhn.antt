-- ===== src/Tests/Luhn.antt =====
-- The properties of the payment-card detector at concrete inputs.
use tokenhush.Base.{ℕ, ◌∷◌, ◌≡◌, refl, true, [], Bytes, codes, ◌%◌, ◌==◌, All, arith}
use tokenhush.Filter.Luhn.{
  is_ascii_digit, digit_value, backwards, luhn_weight, luhn_loop, luhn_valid, find_luhn_spans,
  find_loop,
}
use tokenhush.Filter.Luhn.Checksum.{luhn_sum, luhn_valid_lem, luhn_detects}
use tokenhush.Filter.Luhn.Spans.{IsCard, IsApart, luhn_spans, find_loop_fuel}

abbrev card : Bytes
card = codes "4111111111111111"

card_valid : luhn_valid card ≡ true
unfolding luhn_valid luhn_loop luhn_weight digit_value backwards
card_valid = refl

card_digits : All (λ b. is_ascii_digit b ≡ true) card
unfolding is_ascii_digit
card_digits = (
  refl,
  (
    refl,
    (
      refl,
      (
        refl,
        (
          refl,
          (
            refl,
            (refl, (refl, (refl, (refl, (refl, (refl, (refl, (refl, (refl, (refl, tt)))))))))),
          ),
        ),
      ),
    ),
  ),
)

luhn_valid_lem_example : luhn_valid card ≡ (luhn_sum card % 10 == 0)
luhn_valid_lem_example = luhn_valid_lem card card_digits

abbrev first_digit : ℕ
first_digit = b'4'

luhn_detects_example : first_digit ≡ first_digit
luhn_detects_example =
    luhn_detects [] (codes "111111111111111") first_digit first_digit
      (unfold is_ascii_digit in refl) (unfold is_ascii_digit in refl) card_valid card_valid

luhn_spans_example :
    All
      (IsCard (codes "pay 4111-1111-1111-1111 now"))
      (find_luhn_spans (codes "pay 4111-1111-1111-1111 now"))
    × IsApart 0 (find_luhn_spans (codes "pay 4111-1111-1111-1111 now"))
luhn_spans_example = luhn_spans (codes "pay 4111-1111-1111-1111 now")

find_loop_fuel_example :
    find_loop [] 16 card card 0 ≡ find_loop (record { start = 0; end = 1 } ∷ []) 40 card card 0
find_loop_fuel_example =
    find_loop_fuel [] (record { start = 0; end = 1 } ∷ []) 16 40 card card 0 (omega arith)
      (omega arith)
