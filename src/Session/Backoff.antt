-- ===== src/Session/Backoff.antt =====
-- The reconnect backoff of internal/session/reconnect.go, in nanoseconds.
use tailjump.Prelude.{
  ℕ, zero, suc, ◌-◌, ◌*◌, ◌^◌, ◌≤◌, ◌<◌, ◌≡◌, ◌∙◌, min, arith, leb, if◌then◌else◌, Bool-cases, inl,
  inr,
}
use native.Mathlib.Nat.{pow-suc}
use tailjump.Prelude.{false, leb→le, true}

abbrev pub second : ℕ
second = 1_000_000_000

abbrev pub backoff_first : ℕ
backoff_first = second

abbrev pub backoff_cap : ℕ
backoff_cap = 10 * second

-- The loop of backoffAfter, by the rounds that are left.
unfoldable pub double : ℕ → ℕ → ℕ
double zero d = d
double (suc k) d =
    let next = double k (d * 2) in if leb backoff_cap (d * 2) then backoff_cap else next

unfoldable pub backoff_after : ℕ → ℕ
unfolding double
backoff_after attempt = double (attempt - 1) backoff_first

double_stop : (k d : ℕ) → leb backoff_cap (d * 2) ≡ true → double (suc k) d ≡ backoff_cap
unfolding double
double_stop k d h = rw h

double_go : (k d : ℕ) → leb backoff_cap (d * 2) ≡ false → double (suc k) d ≡ double k (d * 2)
unfolding double
double_go k d h = rw h

pow_pos : (k : ℕ) → 0 < 2 ^ k
pow_pos zero = omega arith
pow_pos (suc k) = rw pow-suc (omega (arith, pow_pos k))

mul_grows : (d p : ℕ) → 0 < p → d ≤ d * p
mul_grows d p h = grind arith

double-min : (k d : ℕ) → d ≤ backoff_cap → double k d ≡ min (d * 2 ^ k) backoff_cap
double-min zero d h = unfold double in omega arith
double-min (suc k) d h = elim (Bool-cases (leb backoff_cap (d * 2))) [
  | inl e ↦ double_stop k d e ∙ capped (leb→le _ _ e)
  | inr e ↦ double_go k d e ∙ double-min k (d * 2) (ground arith) ∙ regroup
]
  where
    capped : backoff_cap ≤ d * 2 → backoff_cap ≡ min (d * 2 ^ suc k) backoff_cap
    capped l = rw pow-suc (omega (arith, mul_grows d (2 ^ k) (pow_pos k)))

    regroup : min (d * 2 * 2 ^ k) backoff_cap ≡ min (d * 2 ^ suc k) backoff_cap
    regroup = rw pow-suc (omega arith)

-- The wait after attempt n is one second doubled n - 1 times, cut to ten seconds.
pub backoff_after-min : (n : ℕ) → backoff_after (suc n) ≡ min (backoff_first * 2 ^ n) backoff_cap
unfolding backoff_after
backoff_after-min n = rw pred_eq (double-min n backoff_first (omega arith))
  where
    pred_eq : suc n - 1 ≡ n
    pred_eq = omega arith

double_bounds :
    (k d : ℕ)
    → backoff_first ≤ d
    → d ≤ backoff_cap
    → (backoff_first ≤ double k d) × (double k d ≤ backoff_cap)
unfolding double
double_bounds zero d l h = (l, h)
double_bounds (suc k) d l h = ground (arith, double_bounds k (d * 2))

-- No wait is shorter than a second or longer than ten.
pub backoff_after_bounds : (n : ℕ) → (second ≤ backoff_after n) × (backoff_after n ≤ backoff_cap)
unfolding backoff_after
backoff_after_bounds n = double_bounds (n - 1) backoff_first (omega arith) (omega arith)
