-- ===== src/Session/Signals.antt =====
-- The watches of a session that is up: the metrics sampler of internal/session/metrics.go, and the
-- resume detector of reconnect.go.
pub mod Spaced
pub mod Suspended
mod Tests
use tailjump.Prelude.{
  ℕ, ◌+◌, ◌-◌, ◌*◌, ◌%◌, ◌^◌, ◌==◌, ltb, leb, Bool, true, false, ◌&&◌, ◌||◌, not, Option, none,
  some, if◌then◌else◌, List, [], ◌∷◌,
}
use tailjump.Text.{Text}
use tailjump.Session.Types.{Metrics}

abbrev pub second : ℕ
second = 10 ^ 9

abbrev pub metrics_write_interval : ℕ
metrics_write_interval = 5 * second

-- The quotients in float64: the mean of a sum of times in milliseconds, and bytes per second.
pub record Floats : Type 0 where
  pub mean : ℕ → ℕ → ℕ
  pub per_second : ℕ → ℕ → ℕ

unfoldable pub mean_ms : Floats → ℕ → ℕ → ℕ
mean_ms fl sum answered = if answered == 0 then 0 else fl.mean sum answered

unfoldable pub rate : Floats → ℕ → ℕ → ℕ
rate fl delta elapsed = if elapsed == 0 then 0 else fl.per_second delta elapsed

-- The variables of metricsWatch.run.
pub record Sampler : Type 0 where
  pub last : ℕ
  pub up_base : ℕ
  pub down_base : ℕ
  pub rtt_sum : ℕ
  pub answered : ℕ
  pub first : Bool

-- One tick: what the probe gives, the time after it, and the counters, which are uint64.
pub record Tick : Type 0 where
  pub rtt : Option ℕ
  pub now : ℕ
  pub up : ℕ
  pub down : ℕ

unfoldable pub probed : Option ℕ → Sampler → Sampler
probed none w = w
probed (some rtt) w = record w { rtt_sum = w.rtt_sum + rtt; answered = w.answered + 1 }

abbrev pub delta : ℕ → ℕ → ℕ
delta n base = (n + 2 ^ 64 - base) % 2 ^ 64

abbrev pub sample : Floats → Tick → Sampler → Metrics
sample fl t w = record {
  updated_at = t.now;
  rtt_ms = mean_ms fl w.rtt_sum w.answered;
  up_bytes = t.up;
  down_bytes = t.down;
  up_rate = rate fl (delta t.up w.up_base) (t.now - w.last);
  down_rate = rate fl (delta t.down w.down_base) (t.now - w.last);
}

abbrev pub after_sample : Tick → Sampler
after_sample t = record {
  last = t.now;
  up_base = t.up;
  down_base = t.down;
  rtt_sum = 0;
  answered = 0;
  first = false;
}

-- One round of the loop: the sampler after it, and the sample that it sends.
abbrev pub sampled : Floats → Tick → Sampler → Sampler × Option Metrics
sampled fl t w =
    if not w.first && ltb (t.now - w.last) metrics_write_interval
    then (w, none)
    else (after_sample t, some (sample fl t w))

unfoldable pub on_tick : Floats → Tick → Sampler → Sampler × Option Metrics
on_tick fl t w = sampled fl t (probed t.rtt w)

abbrev pub and_more : Option Metrics → List Metrics → List Metrics
and_more none rest = rest
and_more (some m) rest = m ∷ rest

-- The samples of a run, before the channel drops those that the runner has no time for.
unfoldable pub samples : Floats → List Tick → Sampler → List Metrics
samples fl [] w = []
samples fl (t ∷ ticks) w = let r = on_tick fl t w in and_more r.1 (samples fl ticks r.0)

-- The channel of one sample: a send to a full one drops the sample.
unfoldable pub send : Metrics → Option Metrics → Option Metrics
send m none = some m
send m (some old) = some old

abbrev pub resume_gap : ℕ
resume_gap = 5 * second

-- One tick of the resume detector: the wall clock, and what a probe gives.
pub record Wake : Type 0 where
  pub now : ℕ
  pub probe : Option Text

abbrev pub woken : Option Text → Option Text → Option Text
woken none rest = rest
woken (some e) rest = some e

-- resumeWatch.run: the error of the probe with which it reports a loss, where it reports one.
unfoldable pub resume : ℕ → List Wake → Option Text
resume last [] = none
resume last (w ∷ wakes) =
    let rest = resume w.now wakes in
    if leb (w.now - last) resume_gap then rest else woken w.probe rest
