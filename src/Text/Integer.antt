-- ===== src/Text/Integer.antt =====
-- strconv.Atoi, with an int of 64 bits.
use tailjump.Prelude.{
  ℕ, ◌^◌, ◌<◌, ◌≡◌, refl, ◌∙◌, Bool, true, false, ◌&&◌, arith, [], ◌∷◌, ltb, ◌==◌,
}
use tailjump.Prelude.{Outcome, ok, err, if◌then◌else◌}
use tailjump.Text.{Text}
use tailjump.Text.Decimal.{NumError, syntax, parse_digits, parse_uint, parse_uint-decimal}
use tailjump.Text.Decimal.{decimal, decimal_elim, IsDigits, decimal-IsDigits}

abbrev signed : Bool → Outcome NumError ℕ → Outcome NumError (Bool × ℕ)
signed negative (ok n) = ok (negative && ltb 0 n, n)
signed negative (err e) = err e

-- `strconv.Atoi`, with an int of 64 bits: whether the number is below 0, and its size.
unfoldable pub atoi : Text → Outcome NumError (Bool × ℕ)
atoi [] = err syntax
atoi (b ∷ []) = signed false (parse_uint 63 (b ∷ []))
atoi (b ∷ c ∷ s) =
    if b == b'-'
    then signed true (parse_digits (2 ^ 63) 0 (c ∷ s))
    else if b == b'+'
    then signed false (parse_uint 63 (c ∷ s))
    else signed false (parse_uint 63 (b ∷ c ∷ s))

first_digit :
    (b : ℕ) (s : Text) → IsDigits (b ∷ s) → atoi (b ∷ s) ≡ signed false (parse_uint 63 (b ∷ s))
unfolding atoi
first_digit b [] h = refl
first_digit b (c ∷ s) h = ground arith

-- Atoi reads back what Itoa printed.
pub atoi-decimal : (n : ℕ) → n < 2 ^ 63 → atoi (decimal n) ≡ ok (false, n)
atoi-decimal n h =
    decimal_elim n (λ t. IsDigits t → atoi t ≡ signed false (parse_uint 63 t)) first_digit
      (decimal-IsDigits n)
    ∙ rw (parse_uint-decimal 63 n h)
