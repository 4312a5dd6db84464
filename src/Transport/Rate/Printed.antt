-- ===== src/Transport/Rate/Printed.antt =====
-- ParseRate on what FormatRate prints, and on small rates.
use tailjump.Prelude.{ℕ, ◌+◌, ◌*◌, ◌/◌, ◌%◌, ◌^◌, ◌≤◌, ◌<◌, ◌≡◌, refl, ap, ◌∙◌, arith}
use tailjump.Prelude.{◌∷◌, ◌++◌, ok, err, ◌⊎◌, inl, inr}
use tailjump.Text.Decimal.{decimal}
use tailjump.Transport.Rate.{bps, rate_of, zero_rate}
use tailjump.Transport.Rate.{parse_rate, format_rate}
use tailjump.Transport.Rate.Exact.{IsMult}
use tailjump.Transport.Controllers.{bbr, controller_for}
use tailjump.Transport.Rate.Units.{Picked, pick, bps-IsUnit, parse_rate-number}

-- What FormatRate prints as the number: the multiple of the unit nearest to `bits`.
abbrev rounded : ℕ → ℕ → ℕ
rounded bits m = (bits + m / 2) % 2 ^ 64 / m

format_rate_lem :
    (b : ℕ) (p : Picked (b * 8 % 2 ^ 64))
    → format_rate b ≡ decimal (rounded (b * 8 % 2 ^ 64) p.m) ++ (b' ' ∷ p.u)
unfolding format_rate
format_rate_lem b p = rw (p.picked, p.unit.factor)

rounded-lt : (bits m : ℕ) → IsMult m → rounded bits m < 2 ^ 64
rounded-lt bits m h = ground arith

reparse :
    (b : ℕ) (p : Picked (b * 8 % 2 ^ 64))
    → parse_rate (format_rate b) ≡ rate_of p.m (ok (rounded (b * 8 % 2 ^ 64) p.m))
reparse b p =
    ap parse_rate (format_rate_lem b p)
    ∙ parse_rate-number (rounded (b * 8 % 2 ^ 64) p.m) p.u p.m p.unit (rounded-lt _ p.m p.mult)

-- Within a twentieth of the rate.
abbrev pub IsNear : ℕ → ℕ → Type 0
IsNear b v = (20 * v ≤ 21 * b) × (19 * b ≤ 20 * v)

near :
    (b bits m : ℕ)
    → bits ≡ b * 8
    → IsMult m
    → (m ≡ 1) ⊎ (10 * m ≤ bits)
    → (m ≡ 1_000_000_000_000) ⊎ (bits < 10_000_000_000_000)
    → 0 < b
    → b * 8 + 500_000_000_000 < 2 ^ 64
    → let n = rounded bits m in (rate_of m (ok n) ≡ ok (n * m / 8)) × IsNear b (n * m / 8)
near b bits m e (inl i) ten top pos fits = ground arith
near b bits m e (inr (inl i)) ten top pos fits = ground arith
near b bits m e (inr (inr (inl i))) ten top pos fits = ground arith
near b bits m e (inr (inr (inr (inl i)))) ten top pos fits = ground arith
near b bits m e (inr (inr (inr (inr i)))) ten top pos fits = ground arith

-- ParseRate accepts what FormatRate prints for every rate above 0 up to the point where the
-- rounding of FormatRate wraps, and the rate read back is within a twentieth of the printed one.
pub parse_rate-format_rate :
    (b : ℕ)
    → 0 < b
    → b * 8 + 500_000_000_000 < 2 ^ 64
    → (v : ℕ) × (parse_rate (format_rate b) ≡ ok v) × IsNear b v
parse_rate-format_rate b pos fits =
    let p = pick (b * 8 % 2 ^ 64) in
    let (accepted, close) = near b (b * 8 % 2 ^ 64) p.m (omega arith) p.mult p.ten p.top pos fits in
    (rounded (b * 8 % 2 ^ 64) p.m * p.m / 8, reparse b p ∙ accepted, close)

wrapped :
    (b m : ℕ)
    → IsMult m
    → (m ≡ 1_000_000_000_000) ⊎ (b * 8 % 2 ^ 64 < 10_000_000_000_000)
    → b * 8 < 2 ^ 64
    → 2 ^ 64 ≤ b * 8 + 500_000_000_000
    → rate_of m (ok (rounded (b * 8 % 2 ^ 64) m)) ≡ err zero_rate
wrapped b m h top fits high = ground arith

-- For the highest rates that fit, the addition of half a unit in FormatRate wraps, and it prints
-- "0 tbps", which ParseRate refuses.
pub parse_rate-format_rate_wrapped :
    (b : ℕ)
    → b * 8 < 2 ^ 64
    → 2 ^ 64 ≤ b * 8 + 500_000_000_000
    → parse_rate (format_rate b) ≡ err zero_rate
parse_rate-format_rate_wrapped b fits high =
    let p = pick (b * 8 % 2 ^ 64) in reparse b p ∙ wrapped b p.m p.mult p.top fits high

-- ParseRate accepts the positive rates below 8 bps and answers 0 bytes per second for them, at
-- which the controller is BBR and not Brutal.
pub parse_rate_tiny :
    (n : ℕ)
    → 0 < n
    → n < 8
    → (parse_rate (decimal n ++ (b' ' ∷ bps)) ≡ ok 0) × ((controller_for 0).name ≡ bbr)
unfolding controller_for
parse_rate_tiny n pos small =
    (parse_rate-number n bps 1 bps-IsUnit (omega arith) ∙ ground arith, refl)
