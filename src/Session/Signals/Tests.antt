-- ===== src/Session/Signals/Tests.antt =====
-- A session of eleven seconds with a suspend, and the theorems at it.
use tailjump.Text.{str}
use tailjump.Session.Signals.{Floats, Sampler, Tick, Wake, second, samples, resume}
use tailjump.Session.Signals.Spaced.{StartsAt, samples-StartsAt}
use tailjump.Session.Signals.Suspended.{Reports, resume-Reports}
use tailjump.Session.Signals.{on_tick, probed, mean_ms, rate}
use tailjump.Prelude.{refl, ℕ, ◌*◌, ◌/◌, ◌^◌, ◌≡◌, true, some, List, [], ◌∷◌}

abbrev floats : Floats
floats = record { mean = λ s n. s / n / 10 ^ 6; per_second = λ d t. d * second / t }

abbrev start : Sampler
start = record { last = 0; up_base = 0; down_base = 0; rtt_sum = 0; answered = 0; first = true }

abbrev tick : ℕ → Tick
tick n = record { rtt = some (30 * 10 ^ 6); now = n * second; up = n * 1000; down = 0 }

abbrev ticks : List Tick
ticks = tick 1 ∷ tick 3 ∷ tick 6 ∷ []

second_sample :
    samples floats ticks start
    ≡ record {
      updated_at = second;
      rtt_ms = 30;
      up_bytes = 1000;
      down_bytes = 0;
      up_rate = 1000;
      down_rate = 0;
    }
      ∷ record {
        updated_at = 6 * second;
        rtt_ms = 30;
        up_bytes = 6000;
        down_bytes = 0;
        up_rate = 1000;
        down_rate = 0;
      }
      ∷ []
unfolding samples on_tick probed mean_ms rate
second_sample = refl

samples-StartsAt_example : StartsAt second (samples floats ticks start)
samples-StartsAt_example = samples-StartsAt floats (tick 1) (tick 3 ∷ tick 6 ∷ []) start refl

-- The first gap is short, and the probe after the second one fails.
abbrev wakes : List Wake
wakes =
    record { now = second; probe = some (str "x") }
    ∷ record { now = 9 * second; probe = some (str "timeout") }
    ∷ []

resume-Reports_example : Reports 0 wakes (resume 0 wakes)
resume-Reports_example = resume-Reports 0 wakes

lost_at_9 : resume 0 wakes ≡ some (str "timeout")
unfolding resume
lost_at_9 = refl
