-- ===== src/Session/Signals/Spaced.antt =====
-- The samples of the metrics are spaced.
use tailjump.Prelude.{
  subst, ℕ, ◌+◌, ◌-◌, ◌≤◌, ◌≡◌, refl, ◌∙◌, Bool, true, false, ◌&&◌, not, ltb, Option, none, some,
  if◌then◌else◌, List, [], ◌∷◌, arith,
}
use tailjump.Session.Types.{Metrics}
use tailjump.Session.Signals.{
  Floats, Sampler, Tick, probed, sample, after_sample, on_tick, and_more, samples,
  metrics_write_interval,
}

-- Each sample comes five seconds or more after the one before it, the first after `last`.
abbrev pub Spaced : ℕ → List Metrics → Type 0
Spaced last [] = Unit
Spaced last (m ∷ rest) = (last + metrics_write_interval ≤ m.updated_at) × Spaced m.updated_at rest

-- The samples after the first tick: it always sends.
abbrev pub StartsAt : ℕ → List Metrics → Type 0
StartsAt now [] = ⊥
StartsAt now (m ∷ rest) = (m.updated_at ≡ now) × Spaced now rest

probed_last :
    (rtt : Option ℕ) (w : Sampler)
    → ((probed rtt w).last ≡ w.last) × ((probed rtt w).first ≡ w.first)
unfolding probed
probed_last none w = (refl, refl)
probed_last (some rtt) w = (refl, refl)

if_cases {ℓ κ} :
    {A : Type ℓ} (P : A → Type κ) (b : Bool) (x y : A)
    → (b ≡ true → P x)
    → (b ≡ false → P y)
    → P (if b then x else y)
if_cases P true x y h k = h refl
if_cases P false x y h k = k refl

late :
    (first : Bool) (now last : ℕ)
    → first ≡ false
    → not first && ltb (now - last) metrics_write_interval ≡ false
    → last + metrics_write_interval ≤ now
late true now last h k = cc
late false now last h k = ground arith

samples-Spaced :
    (fl : Floats) (ticks : List Tick) (w : Sampler)
    → w.first ≡ false
    → Spaced w.last (samples fl ticks w)
unfolding samples on_tick
samples-Spaced fl [] w h = tt
samples-Spaced fl (t ∷ ticks) w h =
    let v = probed t.rtt w in
    let (last, first) = probed_last t.rtt w in
    if_cases {A = Sampler × Option Metrics}
      (λ r. Spaced w.last (and_more r.1 (samples fl ticks r.0)))
      (not v.first && ltb (t.now - v.last) metrics_write_interval) (v, none)
      (after_sample t, some (sample fl t v))
      (λ e. subst (λ k. Spaced k (samples fl ticks v)) last (samples-Spaced fl ticks v (first ∙ h)))
      (λ e. (
        subst (λ k. k + metrics_write_interval ≤ t.now) last
            (late v.first t.now v.last (first ∙ h) e),
        samples-Spaced fl ticks (after_sample t) refl,
      ))

-- The sampler sends a sample on its first tick, and each later one five seconds or more after the one
-- before it, whatever the probes and the counters give.
pub samples-StartsAt :
    (fl : Floats) (t : Tick) (ticks : List Tick) (w : Sampler)
    → w.first ≡ true
    → StartsAt t.now (samples fl (t ∷ ticks) w)
unfolding samples on_tick
samples-StartsAt fl t ticks w h =
    let v = probed t.rtt w in
    if_cases {A = Sampler × Option Metrics}
      (λ r. StartsAt t.now (and_more r.1 (samples fl ticks r.0)))
      (not v.first && ltb (t.now - v.last) metrics_write_interval) (v, none)
      (after_sample t, some (sample fl t v))
      (λ e. absurd (never v.first _ ((probed_last t.rtt w).1 ∙ h) e))
      (λ e. (refl, samples-Spaced fl ticks (after_sample t) refl))
  where
    never : (a b : Bool) → a ≡ true → not a && b ≡ true → ⊥
    never true b h k = cc
    never false b h k = cc
