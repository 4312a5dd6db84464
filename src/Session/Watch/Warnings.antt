-- ===== src/Session/Watch/Warnings.antt =====
-- The samples that the watch keeps, and when it warns.
use tailjump.Prelude.{
  ℕ, zero, suc, ◌+◌, ◌-◌, ◌≤◌, ltb, ◌==◌, true, false, Bool-cases, inl, inr, List, [], ◌∷◌, ◌++◌,
  append_assoc, append-nil, length, length-append, length-drop, drop, All, ◌≡◌, refl, ap, sym, ◌∙◌,
  arith,
}
use tailjump.Text.{Text}
use tailjump.Session.Watch.{
  Watch, first_watch, watch_samples, window, observe, run, path_changes, judge,
}
use tailjump.Prelude.{◌<◌}

drop_snoc :
    (k : ℕ) (l : List Text) (e : Text)
    → k ≤ length l
    → drop k l ++ (e ∷ []) ≡ drop k (l ++ (e ∷ []))
drop_snoc zero l e h = refl
drop_snoc (suc k) [] e h = ground arith
drop_snoc (suc k) (x ∷ l) e h = drop_snoc k l e (omega arith)

drop_one : (k : ℕ) (l : List Text) → drop 1 (drop k l) ≡ drop (suc k) l
drop_one zero l = refl
drop_one (suc k) [] = refl
drop_one (suc k) (x ∷ l) = drop_one k l

window_short : (l : List Text) → ltb watch_samples (length l) ≡ false → window l ≡ l
unfolding window
window_short l h = rw h refl

window_long :
    (l : List Text)
    → ltb watch_samples (length l) ≡ true
    → window l ≡ drop (length l - watch_samples) l
unfolding window
window_long l h = rw h refl

window_at : (l : List Text) (n : ℕ) → length l ≡ n + watch_samples → 0 < n → window l ≡ drop n l
window_at l n h p = window_long l (ground arith) ∙ ap (λ k. drop k l) (omega arith)

-- A full window with one sample more drops its first.
window_full :
    (l : List Text) (e : Text)
    → ltb watch_samples (length l) ≡ true
    → window (drop (length l - watch_samples) l ++ (e ∷ [])) ≡ window (l ++ (e ∷ []))
window_full l e h =
    window_at (drop (length l - watch_samples) l ++ (e ∷ [])) 1
      (ground (
        arith,
        length-append (drop (length l - watch_samples) l) (e ∷ []),
        length-drop (length l - watch_samples) l,
      ))
      (omega arith)
    ∙ ap (drop 1) (drop_snoc (length l - watch_samples) l e (omega arith))
    ∙ drop_one (length l - watch_samples) (l ++ (e ∷ []))
    ∙ sym (
        window_at (l ++ (e ∷ [])) (suc (length l - watch_samples))
          (ground (arith, length-append l (e ∷ []))) (omega arith))

window_snoc : (l : List Text) (e : Text) → window (window l ++ (e ∷ [])) ≡ window (l ++ (e ∷ []))
window_snoc l e = elim (Bool-cases (ltb watch_samples (length l))) [
  | inl h ↦ ap (λ w. window (w ++ (e ∷ []))) (window_long l h) ∙ window_full l e h
  | inr h ↦ ap (λ w. window (w ++ (e ∷ []))) (window_short l h)
]

run_samples :
    (es all : List Text) (w : Watch)
    → w.samples ≡ window all
    → (run es w).0.samples ≡ window (all ++ es)
unfolding run observe
run_samples [] all w h = h ∙ ap window (sym (append-nil all))
run_samples (e ∷ es) all w h =
    run_samples es (all ++ (e ∷ [])) (observe e w).0
      (ap (λ s. window (s ++ (e ∷ []))) h ∙ window_snoc all e)
    ∙ ap window (append_assoc all (e ∷ []) es)

-- After any endpoints, the watch holds the last twelve of them, or all where there are no more.
pub run-window : (es : List Text) → (run es first_watch).0.samples ≡ window es
run-window es = run_samples es [] first_watch (unfold window in refl)

-- The changes in the window after each endpoint of a run.
abbrev pub change_counts : List Text → Watch → List ℕ
change_counts [] w = []
change_counts (e ∷ es) w =
    let next = (observe e w).0 in path_changes next.samples ∷ change_counts es next

judge_warned : (changes : ℕ) → (changes == 0) ≡ false → judge changes true ≡ (true, false)
judge_warned changes h = ground arith

-- A watch that has warned does not warn again while each sample leaves a change in the window.
pub run_quiet :
    (es : List Text) (w : Watch)
    → w.warned ≡ true
    → All (λ c. (c == 0) ≡ false) (change_counts es w)
    → All (λ b. b ≡ false) (run es w).1
unfolding run observe
run_quiet [] w h a = tt
run_quiet (e ∷ es) w h a =
    let j = ap (judge (path_changes (observe e w).0.samples)) h ∙ judge_warned _ a.0 in
    (ap (λ j. j.1) j, run_quiet es (observe e w).0 (ap (λ j. j.0) j) a.1)
