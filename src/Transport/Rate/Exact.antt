-- ===== src/Transport/Rate/Exact.antt =====
-- What ParseRate answers: no product wraps.
use tailjump.Prelude.{ℕ, ◌*◌, ◌/◌, ◌^◌, ◌<◌, ◌≡◌, refl, arith, ◌||◌, Option, none, some}
use tailjump.Prelude.{Outcome, ok, err, ◌⊎◌, inl, inr, Bool-cases}
use tailjump.Text.{Text, is_empty, to_lower}
use tailjump.Text.Space.{trim_space}
use tailjump.Text.Decimal.{NumError, parse_uint}
use tailjump.Transport.Rate.{rate_unit, split_digits, rate_of, with_unit, parse_rate}

abbrev pub IsMult : ℕ → Type 0
IsMult m = (m ≡ 1) ⊎ (m ≡ 1_000) ⊎ (m ≡ 1_000_000) ⊎ (m ≡ 1_000_000_000) ⊎ (m ≡ 1_000_000_000_000)

pub rate_unit-IsMult : (u : Text) (m : ℕ) → rate_unit u ≡ some m → IsMult m
unfolding rate_unit
rate_unit-IsMult u m h = ground arith

-- The number `n` and the unit's `mult` give the rate with no wrap.
pub record IsRate (digits unit : Text) (v : ℕ) : Type 0 where
  pub n : ℕ
  pub mult : ℕ
  pub number : parse_uint 64 digits ≡ ok n
  pub known : rate_unit unit ≡ some mult
  pub positive : 0 < n
  pub fits : n * mult < 2 ^ 64
  pub exact : v ≡ n * mult / 8

rate_of_exact :
    (mult n v : ℕ)
    → IsMult mult
    → rate_of mult (ok n) ≡ ok v
    → (0 < n) × (n * mult < 2 ^ 64) × (v ≡ n * mult / 8)
rate_of_exact mult n v (inl e) h = ground arith
rate_of_exact mult n v (inr (inl e)) h = ground arith
rate_of_exact mult n v (inr (inr (inl e))) h = ground arith
rate_of_exact mult n v (inr (inr (inr (inl e)))) h = ground arith
rate_of_exact mult n v (inr (inr (inr (inr e)))) h = ground arith

with_unit_exact :
    (digits unit : Text) (o : Option ℕ) (p : Outcome NumError ℕ) (v : ℕ)
    → rate_unit unit ≡ o
    → parse_uint 64 digits ≡ p
    → with_unit digits unit o ≡ ok v
    → IsRate digits unit v
with_unit_exact digits unit none p v e q h = cc
with_unit_exact digits unit (some m) (err x) v e q h = cc (rw q at h)
with_unit_exact digits unit (some m) (ok n) v e q h =
    let (pos, fits, exact) = rate_of_exact m n v (rate_unit-IsMult unit m e) (rw q at h) in
    record { n = n; mult = m; number = q; known = e; positive = pos; fits = fits; exact = exact }

-- If ParseRate accepts a text, its digits are a uint64 `n` above 0, what follows them is one of
-- the five units, `n` times the unit fits a uint64, and the rate is an eighth of that product,
-- rounded down.
pub parse_rate_exact :
    (s : Text) (v : ℕ)
    → parse_rate s ≡ ok v
    → let parts = split_digits (to_lower (trim_space s)) in IsRate parts.0 (trim_space parts.1) v
unfolding parse_rate
parse_rate_exact s v h =
    let parts = split_digits (to_lower (trim_space s)) in
    elim (Bool-cases (is_empty parts.0 || is_empty parts.1)) [
      | inl e ↦ cc (rw e at h)
      | inr e ↦ with_unit_exact parts.0 (trim_space parts.1) _ _ v refl refl (rw e at h)
    ]
