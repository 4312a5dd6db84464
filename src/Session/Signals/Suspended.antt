-- ===== src/Session/Signals/Suspended.antt =====
-- When the resume detector reports a loss.
use tailjump.Prelude.{
  ℕ, ◌-◌, ◌≡◌, refl, true, false, leb, Option, none, some, List, [], ◌∷◌, Bool-cases, inl, inr,
}
use tailjump.Text.{Text}
use tailjump.Session.Signals.{Wake, resume, woken, resume_gap}
use tailjump.Prelude.{◌⊎◌}

-- A tick that follows the one before it within the gap, or whose probe answers.
abbrev Quiet : ℕ → Wake → Type 0
Quiet last w = (leb (w.now - last) resume_gap ≡ true) ⊎ (w.probe ≡ none)

-- Every tick is quiet, or the first that is not has the error of its probe.
pub data Reports : ℕ → List Wake → Option Text → Type 0 where
  silent : {last : ℕ} → Reports last [] none
  quiet :
      {last : ℕ} {w : Wake} {wakes : List Wake} {o : Option Text}
      → Quiet last w
      → Reports w.now wakes o
      → Reports last (w ∷ wakes) o
  lost :
      {last : ℕ} {w : Wake} {wakes : List Wake} {e : Text}
      → leb (w.now - last) resume_gap ≡ false
      → w.probe ≡ some e
      → Reports last (w ∷ wakes) (some e)

woken-Reports :
    (last : ℕ) (w : Wake) (wakes : List Wake) (o : Option Text)
    → leb (w.now - last) resume_gap ≡ false
    → Reports w.now wakes (resume w.now wakes)
    → w.probe ≡ o
    → Reports last (w ∷ wakes) (woken o (resume w.now wakes))
woken-Reports last w wakes none h r p = quiet (inr p) r
woken-Reports last w wakes (some e) h r p = lost h p

-- The detector reports a loss just where a tick comes more than five seconds of wall clock after the
-- one before it and its probe fails, and with the error of the first such probe.
pub resume-Reports : (last : ℕ) (wakes : List Wake) → Reports last wakes (resume last wakes)
unfolding resume
resume-Reports last [] = silent
resume-Reports last (w ∷ wakes) = elim (Bool-cases (leb (w.now - last) resume_gap)) [
  | inl e ↦ rw e (quiet (inl e) (resume-Reports w.now wakes))
  | inr e ↦ rw e (woken-Reports last w wakes w.probe e (resume-Reports w.now wakes) refl)
]
