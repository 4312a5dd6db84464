-- ===== src/Session/Loop/Tests.antt =====
-- A loss, a sample and a signal in the example session, and the theorem at this input.
use tailjump.Prelude.{ℕ, ◌≡◌, refl, List, [], ◌∷◌, some, none}
use tailjump.Text.{text_eq}
use tailjump.Session.Types.{Metrics, quic}
use tailjump.Session.Example.{runner, rounds, rounds-Parses, parse_addr}
use tailjump.Session.Lanes.{parse_addrs}
use tailjump.Session.Runner.Attempts.{has_split}
use tailjump.Session.Loop.{
  Report, Life, Lives, loop, transport_lost, quic_closed, sampled, loop-Lives,
}

abbrev sample : Metrics
sample = record {
  updated_at = 7;
  rtt_ms = 20;
  up_bytes = 5;
  down_bytes = 6;
  up_rate = 1;
  down_rate = 1;
}

abbrev reports : List (Report ℕ)
reports = sampled sample ∷ transport_lost quic_closed 10 1 none rounds ∷ []

loop-Lives_example :
    (life : Life ℕ) × (loop reports runner ≡ some life) × Lives parse_addr quic 1 life
unfolding text_eq parse_addrs
loop-Lives_example =
    loop-Lives reports parse_addr quic runner (rounds-Parses, tt)
      (refl, (_, refl, refl), refl, refl, λ h. has_split refl refl)
