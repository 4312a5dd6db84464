-- ===== src/Tailnet/Hostname.antt =====
-- Which hostnames a reference matches.
use tailjump.Prelude.{ℕ, ◌^◌, ◌<◌, ◌≡◌, sym, ap, ◌∙◌, Bool, true, false, arith, [], ◌∷◌, ◌++◌}
use tailjump.Prelude.{some, Outcome, ok, err, ◌⊎◌, inl, inr, Bool-cases, length, length-append}
use tailjump.Text.{Text, str, text_eq, text_eq_iff, cut_prefix, cut_prefix-append, cut_prefix_found}
use tailjump.Text.Decimal.{NumError, decimal}
use tailjump.Text.Integer.{atoi-decimal}
use tailjump.Tailnet.{suffix_of, match_hostname}
use tailjump.Text.{text_eq_refl}
use tailjump.Prelude.{append_assoc}

-- The reference itself, or the reference with a hyphen and a numeral of a 63-bit number.
abbrev pub IsNamed : Text → Text → Bool × ℕ → Type 0
IsNamed host ref (exact, n) =
    (host ≡ ref) × (exact ≡ true) × (n ≡ 0) ⊎ (host ≡ ref ++ (b'-' ∷ decimal n)) × (exact ≡ false)

suffix_of_found :
    (rest : Text) (a : Outcome NumError (Bool × ℕ)) (m : Bool × ℕ)
    → suffix_of rest a ≡ some m
    → (rest ≡ decimal m.1) × (m.0 ≡ false)
suffix_of_found rest (err e) m h = cc
suffix_of_found rest (ok (true, n)) m h = cc
suffix_of_found rest (ok (false, n)) m h = ground (arith, (text_eq_iff (decimal n) rest).0)

-- A match is the reference itself, or the reference, a hyphen and the printed suffix.
pub match_hostname-IsNamed :
    (host ref : Text) (m : Bool × ℕ) → match_hostname host ref ≡ some m → IsNamed host ref m
unfolding match_hostname
match_hostname-IsNamed host ref m h = elim (Bool-cases (text_eq host ref)) [
  | inl e ↦ inl ((text_eq_iff host ref).0 e, ground (arith, e), ground (arith, e))
  | inr e ↦ elim (Bool-cases (cut_prefix host (ref ++ str "-")).1) [
    | inl f ↦
        let (numeral, inexact) = suffix_of_found _ _ m (rw (e, f) at h) in
        inr (
          cut_prefix_found host (ref ++ str "-") f
              ∙ append_assoc ref (str "-") _
              ∙ ap (λ t. ref ++ (b'-' ∷ t)) numeral,
          inexact,
        )
    | inr f ↦ cc (rw (e, f) at h)
  ]
]

longer-ne : (ref : Text) (c : ℕ) (t : Text) → text_eq (ref ++ (c ∷ t)) ref ≡ false
longer-ne ref c t = elim (Bool-cases (text_eq (ref ++ (c ∷ t)) ref)) [
  | inl e ↦ absurd (
      omega (
        arith,
        ap (λ (s : Text). length s) ((text_eq_iff (ref ++ (c ∷ t)) ref).0 e),
        length-append ref (c ∷ t),
      ))
  | inr e ↦ e
]

cut_hyphen :
    (ref : Text) (c : ℕ) (t : Text) → cut_prefix (ref ++ (c ∷ t)) (ref ++ (c ∷ [])) ≡ (t, true)
cut_hyphen ref c t =
    ap (λ s. cut_prefix s (ref ++ (c ∷ []))) (sym (append_assoc ref (c ∷ []) t))
    ∙ cut_prefix-append (ref ++ (c ∷ [])) t

-- Conversely the reference matches exactly, and with a hyphen and a number below 2 ^ 63 it matches
-- with that number as the suffix, printed with no leading zero.
pub match_hostname-named :
    (ref : Text) (n : ℕ)
    → n < 2 ^ 63
    → (match_hostname ref ref ≡ some (true, 0))
      × (match_hostname (ref ++ (b'-' ∷ decimal n)) ref ≡ some (false, n))
unfolding match_hostname
match_hostname-named ref n h = (
  rw (text_eq_refl ref),
  rw (
    longer-ne ref b'-' (decimal n),
    cut_hyphen ref b'-' (decimal n),
    atoi-decimal n h,
    text_eq_refl (decimal n),
  ),
)
