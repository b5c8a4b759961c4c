-- ===== src/Strings/Decimal.antt =====
-- `%d` of a number that is not negative, and `to_string`: decimal digits with no leading zero.
use network_programming_nctu.Base.{
  ℕ, zero, suc, ◌+◌, ◌/◌, ◌%◌, ◌<◌, ◌≡◌, refl, [], ◌∷◌, arith, Bytes, codes, ltb, if◌then◌else◌,
}

-- Fuel above the number is enough, as each round divides it by ten.
unfoldable pub digits_with : ℕ → ℕ → Bytes → Bytes
digits_with zero n out = out
digits_with (suc f) n out =
    let more = digits_with f (n / 10) ((b'0' + n % 10) ∷ out) in
    if ltb n 10 then (b'0' + n) ∷ out else more

unfoldable pub decimal : ℕ → Bytes
unfolding digits_with
decimal n = digits_with (suc n) n []

-- The fuel does not matter once it exceeds the number.
pub digits_with_fuel :
    (f g n : ℕ) (out : Bytes) → n < f → n < g → digits_with f n out ≡ digits_with g n out
unfolding digits_with
digits_with_fuel zero g n out h k = absurd (omega arith)
digits_with_fuel (suc f) zero n out h k = absurd (omega arith)
digits_with_fuel (suc f) (suc g) n out h k =
    ground (arith, digits_with_fuel f g (n / 10) ((b'0' + n % 10) ∷ out))

decimal_of_511 : decimal 511 ≡ codes "511"
unfolding decimal
decimal_of_511 = refl
