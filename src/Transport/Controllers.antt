-- ===== src/Transport/Controllers.antt =====
-- The congestion controller choice of internal/transport/transport.go.
use tailjump.Prelude.{ℕ, ◌^◌, ◌<◌, ◌≡◌, refl, Bool, true, false, ◌&&◌, not, arith, ◌∷◌, ◌++◌}
use tailjump.Prelude.{ltb, ◌==◌, if◌then◌else◌, Outcome, ok, err, ◌⊎◌, inl, inr}
use tailjump.Text.{Text, str, text_eq}
use tailjump.Text.Split.{cut, cut-append}
use tailjump.Prelude.{Bool-cases}
use tailjump.Text.Space.{is_space, IsWord}
use tailjump.Text.Decimal.{
  IsDigits→IsSolid, decimal-IsDigits, NumError, parse_uint, parse_uint-lt, parse_uint-decimal,
  decimal,
}

abbrev pub bbr : Text
bbr = str "bbr"

abbrev pub brutal : Text
brutal = str "brutal"

abbrev pub cubic : Text
cubic = str "cubic"

-- The controller of one sender: its name, and the Brutal rate in bytes per second (a uint64).
pub record Controller : Type 0 where
  pub name : Text
  pub bps : ℕ

unfoldable pub controller_for : ℕ → Controller
controller_for rate =
    if ltb 0 rate then record { name = brutal; bps = rate } else record { name = bbr; bps = 0 }

unfoldable pub controller_named : Text → ℕ → Controller
controller_named name rate =
    if text_eq name cubic then record { name = cubic; bps = 0 } else controller_for rate

unfoldable pub to_string : Controller → Text
to_string c =
    if text_eq c.name brutal
    then brutal ++ (str "=" ++ decimal c.bps)
    else if text_eq c.name cubic
    then cubic
    else bbr

pub data ControllerError : Type 0 where
  needs_rate unknown_controller : ControllerError

abbrev brutal_at : Outcome NumError ℕ → Outcome ControllerError Controller
brutal_at (ok rate) =
    if rate == 0 then err needs_rate else ok (record { name = brutal; bps = rate })
brutal_at (err e) = err needs_rate

-- ParseController after the cut at "=".
abbrev pub controller_of : Text → Text → Bool → Outcome ControllerError Controller
controller_of name rate found =
    if text_eq name bbr && not found
    then ok (record { name = bbr; bps = 0 })
    else if text_eq name cubic && not found
    then ok (record { name = cubic; bps = 0 })
    else if text_eq name brutal && found
    then brutal_at (parse_uint 64 rate)
    else err unknown_controller

unfoldable pub parse_controller : Text → Outcome ControllerError Controller
parse_controller s = let parts = cut b'=' s in controller_of parts.0 parts.1 parts.2

-- The controllers that the control line can carry.
abbrev pub IsCanonical : Controller → Type 0
IsCanonical c =
    (c ≡ record { name = bbr; bps = 0 })
    ⊎ (c ≡ record { name = cubic; bps = 0 })
    ⊎ (c.name ≡ brutal) × (0 < c.bps) × (c.bps < 2 ^ 64)

parse_bbr :
    parse_controller (to_string (record { name = bbr; bps = 0 }))
    ≡ ok (record { name = bbr; bps = 0 })
unfolding parse_controller to_string text_eq cut
parse_bbr = refl

parse_cubic :
    parse_controller (to_string (record { name = cubic; bps = 0 }))
    ≡ ok (record { name = cubic; bps = 0 })
unfolding parse_controller to_string text_eq cut
parse_cubic = refl

brutal_names :
    (text_eq brutal brutal ≡ true) × (text_eq brutal bbr ≡ false) × (text_eq brutal cubic ≡ false)
unfolding text_eq
brutal_names = (refl, refl, refl)

to_string-brutal :
    (c : Controller) → c.name ≡ brutal → to_string c ≡ brutal ++ (b'=' ∷ decimal c.bps)
unfolding to_string
to_string-brutal c h = rw (h, brutal_names.0)

parse_brutal :
    (n : ℕ)
    → parse_controller (brutal ++ (b'=' ∷ decimal n)) ≡ brutal_at (parse_uint 64 (decimal n))
unfolding parse_controller
parse_brutal n = rw (
  cut-append b'=' brutal (decimal n) (refl, (refl, (refl, (refl, (refl, (refl, tt)))))),
  brutal_names.0,
  brutal_names.1,
  brutal_names.2,
)

brutal_at_positive : (c : Controller) → c.name ≡ brutal → 0 < c.bps → brutal_at (ok c.bps) ≡ ok c
brutal_at_positive c h k = ground arith

-- ParseController reads back what String printed, for BBR, Cubic, and Brutal at every rate
-- above 0 that a uint64 holds.
pub parse_controller-to_string :
    (c : Controller) → IsCanonical c → parse_controller (to_string c) ≡ ok c
parse_controller-to_string c (inl e) = rw e parse_bbr
parse_controller-to_string c (inr (inl e)) = rw e parse_cubic
parse_controller-to_string c (inr (inr (e, lo, hi))) =
    rw (to_string-brutal c e, parse_brutal c.bps, parse_uint-decimal 64 c.bps hi)
      (brutal_at_positive c e lo)

controller_named-IsCanonical :
    (name : Text) (rate : ℕ) → rate < 2 ^ 64 → IsCanonical (controller_named name rate)
unfolding controller_named controller_for
controller_named-IsCanonical name rate h = ground arith

-- The controller that the two sides choose survives the control line.
pub parse_controller-controller_named :
    (name : Text) (rate : ℕ)
    → rate < 2 ^ 64
    → parse_controller (to_string (controller_named name rate)) ≡ ok (controller_named name rate)
parse_controller-controller_named name rate h =
    parse_controller-to_string (controller_named name rate)
      (controller_named-IsCanonical name rate h)

brutal_at-IsCanonical :
    (p : Outcome NumError ℕ) (c : Controller)
    → ((v : ℕ) → p ≡ ok v → v < 2 ^ 64)
    → brutal_at p ≡ ok c
    → IsCanonical c
brutal_at-IsCanonical (ok v) c h e = ground (arith, h v refl)
brutal_at-IsCanonical (err x) c h e = cc

controller_of-IsCanonical :
    (name rate : Text) (found : Bool) (c : Controller)
    → controller_of name rate found ≡ ok c
    → IsCanonical c
controller_of-IsCanonical name rate found c h =
    ground (arith, brutal_at-IsCanonical (parse_uint 64 rate) c (parse_uint-lt 64 rate))

-- Whatever ParseController accepts is canonical.
pub parse_controller-IsCanonical :
    (s : Text) (c : Controller) → parse_controller s ≡ ok c → IsCanonical c
unfolding parse_controller
parse_controller-IsCanonical s c h = controller_of-IsCanonical _ _ _ c h

bbr-IsWord : IsWord bbr
unfolding is_space
bbr-IsWord = (refl, (refl, (refl, tt)))

cubic-IsWord : IsWord cubic
unfolding is_space
cubic-IsWord = (refl, (refl, (refl, (refl, (refl, tt)))))

brutal-IsWord : (n : ℕ) → IsWord (brutal ++ (str "=" ++ decimal n))
unfolding is_space
brutal-IsWord n =
    (refl, (refl, (refl, (refl, (refl, (refl, (refl, IsDigits→IsSolid _ (decimal-IsDigits n))))))))

-- The text of a controller is one word.
pub to_string-IsWord : (c : Controller) → IsWord (to_string c)
unfolding to_string
to_string-IsWord c = elim (Bool-cases (text_eq c.name brutal)) [
  | inl e ↦ rw e (brutal-IsWord c.bps)
  | inr e ↦ elim (Bool-cases (text_eq c.name cubic)) [
    | inl f ↦ rw (e, f) cubic-IsWord
    | inr f ↦ rw (e, f) bbr-IsWord
  ]
]
