-- ===== src/Cli/Flags.antt =====
-- internal/cli/flags.go: the values that the flags of a connect take.
use tailjump.Prelude.{ℕ, Bool, true, false, not, Option, none, some, List}
use tailjump.Text.{Text}
use tailjump.Dns
use tailjump.Transport
use tailjump.Protocols
use tailjump.Config.{below_0}

-- The flags of connect that shape the plan.
pub record PlanFlags : Type 0 where
  pub dns : Text
  pub transport : Text
  pub protocols : Text
  pub reconnect_for : Text
  pub networks : List Text
  pub excludes : List Text
  pub verbose : Bool

-- The Set of a flag's value: the value it takes, or none for its error.
abbrev set_if : Bool → Text → Option Text
set_if true s = some s
set_if false s = none

abbrev pub set_dns : Text → Option Text
set_dns s = set_if (Dns.valid s) s

abbrev pub set_transport : Text → Option Text
set_transport s = set_if (Transport.valid s) s

abbrev pub set_protocols : Text → Option Text
set_protocols s = set_if (Protocols.valid s) s

abbrev pub set_reconnect_for : (Text → Option (Bool × ℕ)) → Text → Option Text
set_reconnect_for parse_duration s = set_if (not (below_0 (parse_duration s))) s
