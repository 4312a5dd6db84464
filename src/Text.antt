-- ===== src/Text.antt =====
-- Go strings, and the functions of the packages strings and strconv that the program calls.
-- A string is the list of its runes, so it is valid UTF-8; a byte string is a list of bytes.
pub mod Space
pub mod Split
pub mod Decimal
pub mod Integer
pub mod Trim
use Prim.Native.Char.{code}
use Prim.Native.String.{String}
use tailjump.Prelude.{ℕ, ◌+◌, ◌≡◌, ◌↔◌, refl, ap, Bool, true, false, ◌&&◌, ◌||◌, arith}
use tailjump.Prelude.{List, [], ◌∷◌, ◌++◌, ltb, leb, ◌==◌, ==_iff, if◌then◌else◌, All}

abbrev pub Text : Type 0
Text = List ℕ

-- The runes of a literal.
abbrev pub str : String → Text
str String.[] = []
str (String.◌∷◌ c s) = code c ∷ str s

-- `s == t` on strings.
unfoldable pub text_eq : Text → Text → Bool
text_eq [] [] = true
text_eq [] (d ∷ t) = false
text_eq (c ∷ s) [] = false
text_eq (c ∷ s) (d ∷ t) = c == d && text_eq s t

pub text_eq_iff : (s t : Text) → (text_eq s t ≡ true) ↔ (s ≡ t)
unfolding text_eq
text_eq_iff [] [] = (λ h. refl, λ h. refl)
text_eq_iff [] (d ∷ t) = (λ h. cc, λ h. cc)
text_eq_iff (c ∷ s) [] = (λ h. cc, λ h. cc)
text_eq_iff (c ∷ s) (d ∷ t) =
    (λ h. ground (arith, (text_eq_iff s t).0), λ h. ground (arith, (text_eq_iff s t).1))

pub text_eq_refl : (s : Text) → text_eq s s ≡ true
text_eq_refl s = (text_eq_iff s s).1 refl

-- `s == ""`.
abbrev pub is_empty : Text → Bool
is_empty [] = true
is_empty (c ∷ s) = false

pub is_empty→nil : (s : Text) → is_empty s ≡ true → s ≡ []
is_empty→nil [] h = refl
is_empty→nil (c ∷ s) h = cc

-- `strings.HasPrefix(s, prefix)` with what follows the prefix, as `strings.CutPrefix` returns it.
abbrev pub cut_prefix : Text → Text → Text × Bool
cut_prefix s [] = (s, true)
cut_prefix [] (p ∷ ps) = ([], false)
cut_prefix (c ∷ s) (p ∷ ps) =
    let rest = cut_prefix s ps in if c == p && rest.1 then (rest.0, true) else (c ∷ s, false)

pub cut_prefix-append : (p s : Text) → cut_prefix (p ++ s) p ≡ (s, true)
cut_prefix-append [] [] = refl
cut_prefix-append [] (c ∷ s) = refl
cut_prefix-append (c ∷ p) s = ground (arith, cut_prefix-append p s)

pub cut_prefix_found : (s p : Text) → (cut_prefix s p).1 ≡ true → s ≡ p ++ (cut_prefix s p).0
cut_prefix_found [] [] h = refl
cut_prefix_found (c ∷ s) [] h = refl
cut_prefix_found [] (d ∷ p) h = cc
cut_prefix_found (c ∷ s) (d ∷ p) h = ground (arith, cut_prefix_found s p)

abbrev pub is_digit : ℕ → Bool
is_digit c = leb b'0' c && leb c b'9'

-- `strings.ToLower` on one rune. Besides A to Z it names the two runes outside ASCII that Go
-- lowers to an ASCII letter; the others stay outside ASCII, so they are left as they are.
unfoldable pub to_lower_rune : ℕ → ℕ
to_lower_rune c =
    if leb b'A' c && leb c b'Z'
    then c + 32
    else if c == 0x130
    then b'i'
    else if c == 0x212a
    then b'k'
    else c

unfoldable pub to_lower : Text → Text
to_lower [] = []
to_lower (c ∷ s) = to_lower_rune c ∷ to_lower s

-- Neither a capital letter nor one of the two runes above.
abbrev pub IsLower : ℕ → Type 0
IsLower c = to_lower_rune c ≡ c

pub to_lower_self : (s : Text) → All IsLower s → to_lower s ≡ s
unfolding to_lower
to_lower_self [] h = refl
to_lower_self (c ∷ s) h = ground (arith, to_lower_self s)

pub digit-IsLower : (c : ℕ) → is_digit c ≡ true → IsLower c
unfolding to_lower_rune
digit-IsLower c h = ground arith
