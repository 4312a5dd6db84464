-- ===== src/Text/Space.antt =====
-- strings.TrimSpace and strings.Fields.
use tailjump.Prelude.{ℕ, ◌≡◌, refl, ◌∙◌, ap, Bool, true, false, ◌&&◌, ◌||◌, [], ◌∷◌, ◌++◌}
use tailjump.Prelude.{leb, ◌==◌, if◌then◌else◌, All, append_assoc}
use tailjump.Text.{Text}

-- `unicode.IsSpace`.
unfoldable pub is_space : ℕ → Bool
is_space c =
    (leb 9 c && leb c 13)
    || c == 0x20
    || c == 0x85
    || c == 0xa0
    || c == 0x1680
    || (leb 0x2000 c && leb c 0x200a)
    || c == 0x2028
    || c == 0x2029
    || c == 0x202f
    || c == 0x205f
    || c == 0x3000

unfoldable pub trim_left : Text → Text
unfolding is_space
trim_left [] = []
trim_left (c ∷ s) = let rest = trim_left s in if is_space c then rest else c ∷ s

-- A space is dropped where only spaces follow.
abbrev pub keep : ℕ → Text → Text
keep c [] = if is_space c then [] else c ∷ []
keep c (d ∷ s) = c ∷ d ∷ s

unfoldable pub trim_right : Text → Text
unfolding is_space
trim_right [] = []
trim_right (c ∷ s) = keep c (trim_right s)

unfoldable pub trim_space : Text → Text
unfolding trim_left trim_right
trim_space s = trim_right (trim_left s)

-- No space anywhere, and a first rune.
abbrev pub IsSolid : Text → Type 0
IsSolid = All (λ c. is_space c ≡ false)

abbrev pub IsWord : Text → Type 0
IsWord [] = ⊥
IsWord (c ∷ s) = (is_space c ≡ false) × IsSolid s

pub IsWord→IsSolid : (s : Text) → IsWord s → IsSolid s
IsWord→IsSolid [] h = absurd h
IsWord→IsSolid (c ∷ s) h = h

pub trim_left_self : (c : ℕ) (s : Text) → is_space c ≡ false → trim_left (c ∷ s) ≡ c ∷ s
unfolding trim_left
trim_left_self c s h = rw h

pub trim_left_skip : (c : ℕ) (s : Text) → is_space c ≡ true → trim_left (c ∷ s) ≡ trim_left s
unfolding trim_left
trim_left_skip c s h = rw h

pub trim_right_cons : (c : ℕ) (s : Text) → trim_right (c ∷ s) ≡ keep c (trim_right s)
unfolding trim_right
trim_right_cons c s = refl

trim_right_solid : (s : Text) → IsSolid s → trim_right s ≡ s
trim_right_solid [] h = unfold trim_right in refl
trim_right_solid (c ∷ []) h = trim_right_cons c [] ∙ unfold trim_right in rw h.0
trim_right_solid (c ∷ d ∷ s) h =
    trim_right_cons c (d ∷ s) ∙ ap (keep c) (trim_right_solid (d ∷ s) h.1)

keep_append : (c : ℕ) (s w : Text) → IsWord w → keep c (s ++ w) ≡ c ∷ (s ++ w)
keep_append c [] [] h = absurd h
keep_append c [] (d ∷ w) h = refl
keep_append c (d ∷ s) w h = refl

trim_right_append : (s w : Text) → IsWord w → trim_right (s ++ w) ≡ s ++ w
trim_right_append [] w h = trim_right_solid w (IsWord→IsSolid w h)
trim_right_append (c ∷ s) w h =
    trim_right_cons c (s ++ w) ∙ ap (keep c) (trim_right_append s w h) ∙ keep_append c s w h

-- What begins with a rune that is no space and ends with a word stays as it is.
pub trim_space_ends :
    (c : ℕ) (s w : Text) → is_space c ≡ false → IsWord w → trim_space (c ∷ (s ++ w)) ≡ c ∷ (s ++ w)
trim_space_ends c s w h k =
    unfold trim_space in ap trim_right (trim_left_self c (s ++ w) h) ∙ trim_right_append (c ∷ s) w k

pub trim_space_solid : (s : Text) → IsSolid s → trim_space s ≡ s
trim_space_solid [] h = unfold trim_space in refl
trim_space_solid (c ∷ s) h =
    unfold trim_space in ap trim_right (trim_left_self c s h.0) ∙ trim_right_solid (c ∷ s) h

-- A word after one space.
pub trim_space_skip : (c : ℕ) (s : Text) → is_space c ≡ true → IsSolid s → trim_space (c ∷ s) ≡ s
trim_space_skip c s h k =
    unfold trim_space in ap trim_right (trim_left_skip c s h) ∙ trim_space_solid s k

pub IsSolid→IsWord : (c : ℕ) (s : Text) → IsSolid (c ∷ s) → IsWord (c ∷ s)
IsSolid→IsWord c s h = h

-- The same for a text that begins and ends with words.
pub trim_space_words :
    (v s w : Text) → IsWord v → IsWord w → trim_space (v ++ (s ++ w)) ≡ v ++ (s ++ w)
trim_space_words [] s w h k = absurd h
trim_space_words (c ∷ v) s w h k = rw (← append_assoc v s w) (trim_space_ends c (v ++ s) w h.0 k)
