-- ===== src/Text/Trim.antt =====
-- strings.TrimSpace on what fmt and strings.Cut make, and strings.ReplaceAll of one rune.
use tailjump.Prelude.{
  ℕ, ◌≡◌, refl, sym, ap, ◌∙◌, true, false, [], ◌∷◌, ◌++◌, ◌==◌, if◌then◌else◌, Bool-cases, inl, inr,
}
use tailjump.Text.{Text}
use tailjump.Text.Space.{
  is_space, trim_left, trim_right, trim_space, keep, IsSolid, trim_left_self, trim_left_skip,
  trim_right_cons,
}
use tailjump.Text.Split.{cut, cut-append, cut_none, Lacks}
use tailjump.Prelude.{subst}
use tailjump.Prelude.{append-nil}

-- `strings.ReplaceAll(s, old, new)` for two runes.
unfoldable pub replace : ℕ → ℕ → Text → Text
replace old new [] = []
replace old new (c ∷ s) = (if c == old then new else c) ∷ replace old new s

trim_left-keep : (c : ℕ) (t : Text) → is_space c ≡ true → trim_left (keep c t) ≡ trim_left t
unfolding trim_left
trim_left-keep c [] h = rw h refl
trim_left-keep c (d ∷ t) h = rw h refl

keep_solid : (c : ℕ) (t : Text) → is_space c ≡ false → keep c t ≡ c ∷ t
keep_solid c [] h = rw h refl
keep_solid c (d ∷ t) h = refl

trim_left-trim_right : (s : Text) → trim_left (trim_right s) ≡ trim_right (trim_left s)
trim_left-trim_right [] = unfold trim_left trim_right in refl
trim_left-trim_right (c ∷ s) = elim (Bool-cases (is_space c)) [
  | inl h ↦
      ap trim_left (trim_right_cons c s)
      ∙ trim_left-keep c (trim_right s) h
      ∙ trim_left-trim_right s
      ∙ ap trim_right (sym (trim_left_skip c s h))
  | inr h ↦
      ap trim_left (trim_right_cons c s ∙ keep_solid c (trim_right s) h)
      ∙ trim_left_self c (trim_right s) h
      ∙ sym (
          ap trim_right (trim_left_self c s h)
          ∙ trim_right_cons c s
          ∙ keep_solid c (trim_right s) h)
]

trim_right-keep : (c : ℕ) (t : Text) → trim_right t ≡ t → trim_right (keep c t) ≡ keep c t
trim_right-keep c [] h = elim (Bool-cases (is_space c)) [
  | inl e ↦ rw e h
  | inr e ↦ rw e (trim_right_cons c [] ∙ ap (keep c) h ∙ keep_solid c [] e)
]
trim_right-keep c (d ∷ t) h = trim_right_cons c (d ∷ t) ∙ ap (keep c) h

trim_right_twice : (s : Text) → trim_right (trim_right s) ≡ trim_right s
trim_right_twice [] = unfold trim_right in refl
trim_right_twice (c ∷ s) =
    ap trim_right (trim_right_cons c s)
    ∙ trim_right-keep c (trim_right s) (trim_right_twice s)
    ∙ sym (trim_right_cons c s)

trim_space_left : (s : Text) → trim_space s ≡ trim_left (trim_right s)
unfolding trim_space
trim_space_left s = sym (trim_left-trim_right s)

trim_space-trim_right : (s : Text) → trim_space (trim_right s) ≡ trim_space s
trim_space-trim_right s =
    trim_space_left (trim_right s) ∙ ap trim_left (trim_right_twice s) ∙ sym (trim_space_left s)

trim_right_end : (s : Text) (c : ℕ) → is_space c ≡ true → trim_right (s ++ (c ∷ [])) ≡ trim_right s
trim_right_end [] c h = trim_right_cons c [] ∙ unfold trim_right in rw h refl
trim_right_end (d ∷ s) c h =
    trim_right_cons d (s ++ (c ∷ []))
    ∙ ap (keep d) (trim_right_end s c h)
    ∙ sym (trim_right_cons d s)

-- A space at the end does not matter.
pub trim_space_end :
    (s : Text) (c : ℕ) → is_space c ≡ true → trim_space (s ++ (c ∷ [])) ≡ trim_space s
trim_space_end s c h =
    trim_space_left (s ++ (c ∷ [])) ∙ ap trim_left (trim_right_end s c h) ∙ sym (trim_space_left s)

trim_right_solid_append : (v s : Text) → IsSolid v → trim_right (v ++ s) ≡ v ++ trim_right s
trim_right_solid_append [] s h = refl
trim_right_solid_append (c ∷ v) s h =
    trim_right_cons c (v ++ s)
    ∙ keep_solid c (trim_right (v ++ s)) h.0
    ∙ ap (λ t. c ∷ t) (trim_right_solid_append v s h.1)

-- What follows a verb and a space, as the readers of the control stream take it.
abbrev pub after_verb : Text → Text × Text
after_verb line = let parts = cut b' ' (trim_space line) in (parts.0, parts.1)

after_trimmed :
    (v t : Text)
    → Lacks b' ' v
    → let parts = cut b' ' (v ++ keep b' ' t) in (parts.0 ≡ v) × (trim_space parts.1 ≡ trim_space t)
unfolding is_space
after_trimmed v [] h =
    subst (λ t. let parts = cut b' ' t in (parts.0 ≡ v) × (trim_space parts.1 ≡ trim_space []))
      (sym (append-nil v)) (rw (cut_none b' ' v h) (refl, refl))
after_trimmed v (d ∷ t) h = rw (cut-append b' ' v (d ∷ t) h) (refl, refl)

trim_verb :
    (c : ℕ) (v s : Text)
    → IsSolid (c ∷ v)
    → trim_space ((c ∷ v) ++ (b' ' ∷ s)) ≡ (c ∷ v) ++ keep b' ' (trim_right s)
trim_verb c v s h =
    unfold trim_space in
    ap trim_right (trim_left_self c (v ++ (b' ' ∷ s)) h.0)
    ∙ trim_right_solid_append (c ∷ v) (b' ' ∷ s) h
    ∙ ap (λ t. (c ∷ v) ++ t) (trim_right_cons b' ' s)

pub after_verb_lem :
    (c : ℕ) (v s : Text)
    → IsSolid (c ∷ v)
    → Lacks b' ' (c ∷ v)
    → ((after_verb ((c ∷ v) ++ (b' ' ∷ s))).0 ≡ c ∷ v)
      × (trim_space (after_verb ((c ∷ v) ++ (b' ' ∷ s))).1 ≡ trim_space s)
after_verb_lem c v s h k =
    let (verb, rest) = after_trimmed (c ∷ v) (trim_right s) k in
    rw (trim_verb c v s h) (verb, rest ∙ trim_space-trim_right s)
