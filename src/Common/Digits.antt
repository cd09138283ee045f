-- ===== src/Common/Digits.antt =====
-- Decimal numerals as code points: `${n}` and `parseInt`.
use lil_bobby_tables_my_crt.Common.Tests.{
  false, refl, ℕ, zero, suc, ◌+◌, ◌-◌, ◌*◌, ◌/◌, ◌%◌, ◌<◌, ◌≡◌, Bool, true, ◌&&◌, List, [], ◌∷◌,
  arith, if◌then◌else◌, leb, ltb,
}
use lil_bobby_tables_my_crt.Common.Lists.{All, is_nil}
use mathlib.Core.List.{reverse, reverse-reverse}

abbrev pub is_digit : ℕ → Bool
is_digit c = leb b'0' c && leb c b'9'

-- The digits of a number, the lowest first; the fuel is more than their number.
digits_from : ℕ → ℕ → List ℕ
digits_from zero n = []
digits_from (suc f) n =
    let higher = digits_from f (n / 10) in (b'0' + n % 10) ∷ (if ltb n 10 then [] else higher)

digits_low : ℕ → List ℕ
digits_low n = digits_from (suc n) n

-- `${n}`
unfoldable pub decimal : ℕ → List ℕ
unfolding digits_from digits_low
decimal n = reverse (digits_low n)

value_low : List ℕ → ℕ
value_low [] = 0
value_low (d ∷ ds) = d - b'0' + 10 * value_low ds

-- `parseInt(text)` of a text of digits, as an exact number.
unfoldable pub parse_int : List ℕ → ℕ
unfolding value_low
parse_int ds = value_low (reverse ds)

abbrev pub AllDigits : List ℕ → Type 0
AllDigits = All (λ c. is_digit c ≡ true)

digits_from-AllDigits : (f n : ℕ) → AllDigits (digits_from f n)
unfolding digits_from
digits_from-AllDigits zero n = tt
digits_from-AllDigits (suc f) n = (ground arith, ground (arith, digits_from-AllDigits f (n / 10)))

value_low-digits_from : (f n : ℕ) → n < f → value_low (digits_from f n) ≡ n
unfolding digits_from value_low
value_low-digits_from zero n h = elim h [ ]
value_low-digits_from (suc f) n h = ground (arith, value_low-digits_from f (n / 10))

pub reverse-decimal-AllDigits : (n : ℕ) → AllDigits (reverse (decimal n))
unfolding decimal
reverse-decimal-AllDigits n = rw reverse-reverse (digits_from-AllDigits (suc n) n)

-- Printing a number and reading it back gives the number.
pub parse_int-decimal : (n : ℕ) → parse_int (decimal n) ≡ n
unfolding decimal parse_int
parse_int-decimal n = rw reverse-reverse (value_low-digits_from (suc n) n (omega arith))

pub reverse-decimal_nonempty : (n : ℕ) → is_nil (reverse (decimal n)) ≡ false
unfolding decimal digits_low digits_from
reverse-decimal_nonempty n = rw reverse-reverse refl
