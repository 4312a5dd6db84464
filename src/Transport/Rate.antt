-- ===== src/Transport/Rate.antt =====
-- ParseRate and FormatRate of internal/transport/transport.go. A rate is a uint64.
pub mod Exact
pub mod Units
pub mod Printed
use tailjump.Prelude.{ℕ, ◌+◌, ◌-◌, ◌*◌, ◌/◌, ◌%◌, ◌^◌}
use tailjump.Prelude.{◌||◌, List, [], ◌∷◌, ◌++◌, Option, none, some}
use tailjump.Prelude.{ltb, ◌==◌, if◌then◌else◌, Outcome, ok, err}
use tailjump.Text.{Text, str, text_eq, is_empty, is_digit, to_lower}
use tailjump.Text.Space.{trim_space}
use tailjump.Text.Decimal.{NumError, parse_uint, decimal}

abbrev pub bps : Text
bps = str "bps"

abbrev pub kbps : Text
kbps = str "kbps"

abbrev pub mbps : Text
mbps = str "mbps"

abbrev pub gbps : Text
gbps = str "gbps"

abbrev pub tbps : Text
tbps = str "tbps"

-- The map rateUnits.
unfoldable pub rate_unit : Text → Option ℕ
rate_unit u =
    if text_eq u bps
    then some 1
    else if text_eq u kbps
    then some 1_000
    else if text_eq u mbps
    then some 1_000_000
    else if text_eq u gbps
    then some 1_000_000_000
    else if text_eq u tbps
    then some 1_000_000_000_000
    else none

-- `s[:i]` and `s[i:]`, with `i` the index of the first rune that is no digit. The second part is
-- empty where there is none, which the source reads as an index below 0.
unfoldable pub split_digits : Text → Text × Text
split_digits [] = ([], [])
split_digits (c ∷ s) =
    let rest = split_digits s in if is_digit c then (c ∷ rest.0, rest.1) else ([], c ∷ s)

pub data RateError : Type 0 where
  no_unit : RateError
  unknown_unit : Text → RateError
  number : NumError → RateError
  zero_rate too_large : RateError

-- The largest uint64.
abbrev pub max_u64 : ℕ
max_u64 = 2 ^ 64 - 1

-- The tests on the number and the result, `n * mult / 8` in uint64.
abbrev pub rate_of : ℕ → Outcome NumError ℕ → Outcome RateError ℕ
rate_of mult (err e) = err (number e)
rate_of mult (ok n) =
    if n == 0
    then err zero_rate
    else if ltb (max_u64 / mult / 8 * 8) n
    then err too_large
    else ok (n * mult % 2 ^ 64 / 8)

abbrev pub with_unit : Text → Text → Option ℕ → Outcome RateError ℕ
with_unit digits unit none = err (unknown_unit unit)
with_unit digits unit (some mult) = rate_of mult (parse_uint 64 digits)

unfoldable pub parse_rate : Text → Outcome RateError ℕ
parse_rate s =
    let parts = split_digits (to_lower (trim_space s)) in
    if is_empty parts.0 || is_empty parts.1
    then err no_unit
    else with_unit parts.0 (trim_space parts.1) (rate_unit (trim_space parts.1))

-- `rateUnits[u]`: 0 on a missing key.
abbrev pub unit_or_zero : Option ℕ → ℕ
unit_or_zero none = 0
unit_or_zero (some m) = m

-- The loop of FormatRate: the largest unit that keeps the rate at 10 or more.
unfoldable pub pick_unit : ℕ → Text → List Text → Text
pick_unit bits unit [] = unit
pick_unit bits unit (u ∷ us) =
    if ltb bits (10 * unit_or_zero (rate_unit u) % 2 ^ 64) then unit else pick_unit bits u us

unfoldable pub format_rate : ℕ → Text
format_rate bytes_per_second =
    let bits = bytes_per_second * 8 % 2 ^ 64 in
    let unit = pick_unit bits bps (kbps ∷ mbps ∷ gbps ∷ tbps ∷ []) in
    let mult = unit_or_zero (rate_unit unit) in
    decimal ((bits + mult / 2) % 2 ^ 64 / mult) ++ (str " " ++ unit)
