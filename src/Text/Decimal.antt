-- ===== src/Text/Decimal.antt =====
-- strconv.ParseUint, strconv.Atoi and the %d verb, in base 10.
use tailjump.Prelude.{ℕ, zero, suc, ◌+◌, ◌-◌, ◌*◌, ◌/◌, ◌%◌, ◌^◌, ◌≤◌, ◌<◌, ◌≡◌, refl, ap, ◌∙◌}
use tailjump.Prelude.{true, false, arith, [], ◌∷◌, ◌++◌, leb, ltb}
use tailjump.Prelude.{if◌then◌else◌, All, All-append, Outcome, ok, err, ◌>>=◌, ltb→lt, Bool-cases}
use tailjump.Prelude.{inl, inr}
use tailjump.Text.{Text, is_digit, is_empty}
use tailjump.Text.Space.{is_space, IsSolid, IsWord, IsSolid→IsWord}
use tailjump.Text.Split.{Lacks}
use native.Mathlib.Nat.{pow-suc}

-- `strconv.ErrSyntax` and `strconv.ErrRange`.
pub data NumError : Type 0 where
  syntax range : NumError

-- The loop of ParseUint over the digits, up to the largest value of the width.
unfoldable pub parse_digits : ℕ → ℕ → Text → Outcome NumError ℕ
parse_digits max n [] = ok n
parse_digits max n (c ∷ s) =
    let n' = n * 10 + (c - b'0') in
    let rest = parse_digits max n' s in
    if is_digit c then if leb n' max then rest else err range else err syntax

-- `strconv.ParseUint(s, 10, bits)`; the empty string is a syntax error.
unfoldable pub parse_uint : ℕ → Text → Outcome NumError ℕ
unfolding parse_digits
parse_uint bits [] = err syntax
parse_uint bits (c ∷ s) = parse_digits (2 ^ bits - 1) 0 (c ∷ s)

-- The decimal digits of `n`, with fuel above `n`.
unfoldable pub decimal_fuel : ℕ → ℕ → Text
decimal_fuel zero n = []
decimal_fuel (suc f) n =
    let more = decimal_fuel f (n / 10) ++ ((n % 10 + b'0') ∷ []) in
    if ltb n 10 then (n + b'0') ∷ [] else more

-- The %d verb, and `strconv.Itoa` on what is not negative.
unfoldable pub decimal : ℕ → Text
unfolding decimal_fuel
decimal n = decimal_fuel (suc n) n

abbrev pub IsDigits : Text → Type 0
IsDigits = All (λ c. is_digit c ≡ true)

decimal_fuel-IsDigits : (f n : ℕ) → IsDigits (decimal_fuel f n)
unfolding decimal_fuel
decimal_fuel-IsDigits zero n = tt
decimal_fuel-IsDigits (suc f) n = elim (Bool-cases (ltb n 10)) [
  | inl e ↦ rw e (ground (arith, ltb→lt n 10 e), tt)
  | inr e ↦ rw e (
      All-append _ (decimal_fuel f (n / 10)) ((n % 10 + b'0') ∷ [])
        (decimal_fuel-IsDigits f (n / 10)) (ground arith, tt))
]

pub decimal-IsDigits : (n : ℕ) → IsDigits (decimal n)
decimal-IsDigits n = unfold decimal in decimal_fuel-IsDigits (suc n) n

parse_digits-append :
    (max n : ℕ) (s t : Text)
    → parse_digits max n (s ++ t) ≡ (parse_digits max n s >>= λ v. parse_digits max v t)
unfolding parse_digits
parse_digits-append max n [] t = refl
parse_digits-append max n (c ∷ s) t =
    ground (arith, parse_digits-append max (n * 10 + (c - b'0')) s t)

parse_digits_one :
    (max n d v : ℕ)
    → d < 10
    → n * 10 + d ≡ v
    → v ≤ max
    → parse_digits max n ((d + b'0') ∷ []) ≡ ok v
unfolding parse_digits
parse_digits_one max n d v h e k = ground arith

decimal_fuel_small : (f n : ℕ) → ltb n 10 ≡ true → decimal_fuel (suc f) n ≡ (n + b'0') ∷ []
unfolding decimal_fuel
decimal_fuel_small f n e = rw e

decimal_fuel_large :
    (f n : ℕ)
    → ltb n 10 ≡ false
    → decimal_fuel (suc f) n ≡ decimal_fuel f (n / 10) ++ ((n % 10 + b'0') ∷ [])
unfolding decimal_fuel
decimal_fuel_large f n e = rw e

parse_digits-decimal_fuel :
    (f max n : ℕ) → n < f → n ≤ max → parse_digits max 0 (decimal_fuel f n) ≡ ok n
parse_digits-decimal_fuel zero max n h k = elim h [ ]
parse_digits-decimal_fuel (suc f) max n h k = elim (Bool-cases (ltb n 10)) [
  | inl e ↦
      ap (parse_digits max 0) (decimal_fuel_small f n e)
      ∙ parse_digits_one max 0 n n (ltb→lt n 10 e) (omega arith) k
  | inr e ↦
      ap (parse_digits max 0) (decimal_fuel_large f n e)
      ∙ parse_digits-append max 0 (decimal_fuel f (n / 10)) ((n % 10 + b'0') ∷ [])
      ∙ rw (parse_digits-decimal_fuel f max (n / 10) (ground arith) (omega arith))
          (parse_digits_one max (n / 10) (n % 10) n (omega arith) (omega arith) k)
]

append_nonempty :
    (s : Text) (c : ℕ) (P : Text → Type 0) → ((d : ℕ) (t : Text) → P (d ∷ t)) → P (s ++ (c ∷ []))
append_nonempty [] c P h = h c []
append_nonempty (d ∷ s) c P h = h d (s ++ (c ∷ []))

-- A numeral has a digit at least.
pub decimal_elim : (n : ℕ) (P : Text → Type 0) → ((c : ℕ) (s : Text) → P (c ∷ s)) → P (decimal n)
unfolding decimal
decimal_elim n P h = elim (Bool-cases (ltb n 10)) [
  | inl e ↦ rw e (h (n + b'0') [])
  | inr e ↦ rw e (append_nonempty (decimal_fuel n (n / 10)) (n % 10 + b'0') P h)
]

parse_uint-digits :
    (bits : ℕ) (c : ℕ) (s : Text) → parse_uint bits (c ∷ s) ≡ parse_digits (2 ^ bits - 1) 0 (c ∷ s)
unfolding parse_uint
parse_uint-digits bits c s = refl

-- ParseUint reads back what %d printed, within its width.
pub parse_uint-decimal : (bits n : ℕ) → n < 2 ^ bits → parse_uint bits (decimal n) ≡ ok n
parse_uint-decimal bits n h =
    decimal_elim n (λ t. parse_uint bits t ≡ parse_digits (2 ^ bits - 1) 0 t)
      (parse_uint-digits bits)
    ∙ unfold decimal in
      parse_digits-decimal_fuel (suc n) (2 ^ bits - 1) n (omega arith) (omega arith)

digit_solid : (c : ℕ) → is_digit c ≡ true → is_space c ≡ false
unfolding is_space
digit_solid c h = ground arith

pow_pos : (b : ℕ) → 0 < 2 ^ b
pow_pos zero = omega arith
pow_pos (suc b) = rw pow-suc (omega (arith, pow_pos b))

-- Digits are no spaces, and no separator that is not a digit.
pub IsDigits→IsSolid : (s : Text) → IsDigits s → IsSolid s
IsDigits→IsSolid [] h = tt
IsDigits→IsSolid (c ∷ s) h = (digit_solid c h.0, IsDigits→IsSolid s h.1)

pub IsDigits→Lacks : (sep : ℕ) (s : Text) → is_digit sep ≡ false → IsDigits s → Lacks sep s
IsDigits→Lacks sep [] k h = tt
IsDigits→Lacks sep (c ∷ s) k h = (ground arith, IsDigits→Lacks sep s k h.1)

parse_digits_le : (max n : ℕ) (s : Text) (v : ℕ) → n ≤ max → parse_digits max n s ≡ ok v → v ≤ max
unfolding parse_digits
parse_digits_le max n [] v k h = ground arith
parse_digits_le max n (c ∷ s) v k h = ground (arith, parse_digits_le max (n * 10 + (c - b'0')) s v)

-- ParseUint answers within its width.
pub parse_uint-lt : (bits : ℕ) (s : Text) (v : ℕ) → parse_uint bits s ≡ ok v → v < 2 ^ bits
unfolding parse_uint
parse_uint-lt bits [] v h = cc
parse_uint-lt bits (c ∷ s) v h =
    omega (arith, parse_digits_le (2 ^ bits - 1) 0 (c ∷ s) v (omega arith) h, pow_pos bits)

pub decimal-IsWord : (n : ℕ) → IsWord (decimal n)
decimal-IsWord n =
    decimal_elim n (λ t. IsSolid t → IsWord t) IsSolid→IsWord
      (IsDigits→IsSolid (decimal n) (decimal-IsDigits n))

pub decimal_nonempty : (n : ℕ) → is_empty (decimal n) ≡ false
decimal_nonempty n = decimal_elim n (λ t. is_empty t ≡ false) (λ c s. refl)
