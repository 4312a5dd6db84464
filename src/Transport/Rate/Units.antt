-- ===== src/Transport/Rate/Units.antt =====
-- The units of ParseRate and FormatRate: a printed number of a unit is read back as that number of it,
-- and the unit that FormatRate picks.
use tailjump.Prelude.{ℕ, ◌*◌, ◌^◌, ◌≤◌, ◌<◌, ◌≡◌, refl, ◌∙◌, arith, false}
use tailjump.Prelude.{
  List, Bool-cases, [], ◌∷◌, ◌++◌, some, ok, ◌⊎◌, inl, inr, All, All-append, ltb, if◌then◌else◌,
}
use tailjump.Text.{Text, text_eq, is_digit, to_lower_self, IsLower, digit-IsLower}
use tailjump.Text.{to_lower_rune}
use tailjump.Text.Space.{is_space, IsWord, IsWord→IsSolid, trim_space_words, trim_space_skip}
use tailjump.Text.Decimal.{decimal, IsDigits, decimal-IsDigits, decimal-IsWord, decimal_nonempty}
use tailjump.Text.Decimal.{parse_uint-decimal}
use tailjump.Transport.Rate.{bps, kbps, mbps, gbps, tbps, rate_unit, split_digits, rate_of}
use tailjump.Transport.Rate.{parse_rate, pick_unit}
use tailjump.Transport.Rate.Exact.{IsMult}

-- A unit with its factor, spelled in lower case.
pub record IsUnit (u : Text) (m : ℕ) : Type 0 where
  pub factor : rate_unit u ≡ some m
  pub word : IsWord u
  pub lower : All IsLower u

split_digits-append :
    (s : Text) (c : ℕ) (t : Text)
    → IsDigits s
    → is_digit c ≡ false
    → split_digits (s ++ (c ∷ t)) ≡ (s, c ∷ t)
unfolding split_digits
split_digits-append [] c t h k = rw k
split_digits-append (d ∷ s) c t h k = rw (h.0, split_digits-append s c t h.1 k)

digits-IsLower : (s : Text) → IsDigits s → All IsLower s
digits-IsLower [] h = tt
digits-IsLower (c ∷ s) h = (digit-IsLower c h.0, digits-IsLower s h.1)

rate-IsLower : (n : ℕ) (u : Text) → All IsLower u → All IsLower (decimal n ++ (b' ' ∷ u))
rate-IsLower n u h =
    All-append IsLower (decimal n) (b' ' ∷ u) (digits-IsLower _ (decimal-IsDigits n))
      (unfold to_lower_rune in refl, h)

-- A number, a space and a unit are read as that number of that unit.
pub parse_rate-number :
    (n : ℕ) (u : Text) (m : ℕ)
    → IsUnit u m
    → n < 2 ^ 64
    → parse_rate (decimal n ++ (b' ' ∷ u)) ≡ rate_of m (ok n)
unfolding parse_rate
parse_rate-number n u m i h = rw (
  trim_space_words (decimal n) (b' ' ∷ []) u (decimal-IsWord n) i.word,
  to_lower_self _ (rate-IsLower n u i.lower),
  split_digits-append (decimal n) b' ' u (decimal-IsDigits n) refl,
  decimal_nonempty n,
  trim_space_skip b' ' u (unfold is_space in refl) (IsWord→IsSolid u i.word),
  i.factor,
  parse_uint-decimal 64 n h,
)

abbrev pub all_units : List Text
all_units = kbps ∷ mbps ∷ gbps ∷ tbps ∷ []

pick_unit_ladder :
    (bits : ℕ)
    → pick_unit bits bps all_units ≡ (
        if ltb bits 10_000
        then bps
        else if ltb bits 10_000_000
        then kbps
        else if ltb bits 10_000_000_000
        then mbps
        else if ltb bits 10_000_000_000_000
        then gbps
        else tbps)
unfolding pick_unit rate_unit text_eq
pick_unit_ladder bits = refl

pub bps-IsUnit : IsUnit bps 1
unfolding rate_unit text_eq is_space to_lower_rune
bps-IsUnit = record {
  factor = refl;
  word = (refl, (refl, (refl, tt)));
  lower = (refl, (refl, (refl, tt)));
}

kbps-IsUnit : IsUnit kbps 1_000
unfolding rate_unit text_eq is_space to_lower_rune
kbps-IsUnit = record {
  factor = refl;
  word = (refl, (refl, (refl, (refl, tt))));
  lower = (refl, (refl, (refl, (refl, tt))));
}

mbps-IsUnit : IsUnit mbps 1_000_000
unfolding rate_unit text_eq is_space to_lower_rune
mbps-IsUnit = record {
  factor = refl;
  word = (refl, (refl, (refl, (refl, tt))));
  lower = (refl, (refl, (refl, (refl, tt))));
}

gbps-IsUnit : IsUnit gbps 1_000_000_000
unfolding rate_unit text_eq is_space to_lower_rune
gbps-IsUnit = record {
  factor = refl;
  word = (refl, (refl, (refl, (refl, tt))));
  lower = (refl, (refl, (refl, (refl, tt))));
}

tbps-IsUnit : IsUnit tbps 1_000_000_000_000
unfolding rate_unit text_eq is_space to_lower_rune
tbps-IsUnit = record {
  factor = refl;
  word = (refl, (refl, (refl, (refl, tt))));
  lower = (refl, (refl, (refl, (refl, tt))));
}

-- The unit that FormatRate picks for `bits`, with its factor.
pub record Picked (bits : ℕ) : Type 0 where
  pub u : Text
  pub m : ℕ
  pub picked : pick_unit bits bps all_units ≡ u
  pub unit : IsUnit u m
  pub mult : IsMult m
  pub ten : (m ≡ 1) ⊎ (10 * m ≤ bits)
  pub top : (m ≡ 1_000_000_000_000) ⊎ (bits < 10_000_000_000_000)

pub pick : (bits : ℕ) → Picked bits
pick bits = elim (Bool-cases (ltb bits 10_000)) [
  | inl e ↦ record {
    u = bps;
    m = 1;
    picked = pick_unit_ladder bits ∙ rw e;
    unit = bps-IsUnit;
    mult = ground arith;
    ten = ground arith;
    top = ground arith;
  }
  | inr e ↦ elim (Bool-cases (ltb bits 10_000_000)) [
    | inl f ↦ record {
      u = kbps;
      m = 1_000;
      picked = pick_unit_ladder bits ∙ rw (e, f);
      unit = kbps-IsUnit;
      mult = ground arith;
      ten = ground arith;
      top = ground arith;
    }
    | inr f ↦ elim (Bool-cases (ltb bits 10_000_000_000)) [
      | inl g ↦ record {
        u = mbps;
        m = 1_000_000;
        picked = pick_unit_ladder bits ∙ rw (e, f, g);
        unit = mbps-IsUnit;
        mult = ground arith;
        ten = ground arith;
        top = ground arith;
      }
      | inr g ↦ elim (Bool-cases (ltb bits 10_000_000_000_000)) [
        | inl h ↦ record {
          u = gbps;
          m = 1_000_000_000;
          picked = pick_unit_ladder bits ∙ rw (e, f, g, h);
          unit = gbps-IsUnit;
          mult = ground arith;
          ten = ground arith;
          top = ground arith;
        }
        | inr h ↦ record {
          u = tbps;
          m = 1_000_000_000_000;
          picked = pick_unit_ladder bits ∙ rw (e, f, g, h);
          unit = tbps-IsUnit;
          mult = ground arith;
          ten = ground arith;
          top = ground arith;
        }
      ]
    ]
  ]
]
