-- ===== src/Transport/Tests.antt =====
-- Runs of the parsers, and the theorems at concrete inputs.
use tailjump.Prelude.{ℕ, ◌++◌, ◌≡◌, refl, arith, ok, err, ◌∷◌}
use tailjump.Text.{str, text_eq, to_lower, to_lower_rune}
use tailjump.Text.Space.{trim_space}
use tailjump.Text.Split.{cut}
use tailjump.Text.Decimal.{decimal, parse_uint}
use tailjump.Transport.Ports.{
  PortRange, IsValid, default_ports, above_last, parse_port, parse_port_range,
}
use tailjump.Transport.Controllers.{Controller, brutal, parse_controller}
use tailjump.Transport.Controllers.{bbr, controller_for}
use tailjump.Transport.Rate.{
  parse_rate, format_rate, split_digits, rate_unit, zero_rate, too_large, bps,
}
use tailjump.Transport.Rate.Exact.{IsRate, parse_rate_exact}
use tailjump.Transport.Rate.Printed.{IsNear, parse_rate-format_rate, parse_rate-format_rate_wrapped}
use tailjump.Transport.Rate.Printed.{parse_rate_tiny}

single_port : parse_port_range (str " 7443 ") ≡ ok (record { first = 7443; last = 7443 })
unfolding parse_port_range parse_port parse_uint trim_space cut
single_port = refl

reversed : parse_port_range (str "9-8") ≡ err above_last
unfolding parse_port_range parse_port parse_uint trim_space cut
reversed = refl

default_IsValid : IsValid default_ports
default_IsValid = omega arith

abbrev one_port : PortRange
one_port = record { first = 7443; last = 7443 }

twenty_mbps : parse_rate (str "20 Mbps") ≡ ok 2_500_000
unfolding parse_rate split_digits to_lower to_lower_rune trim_space rate_unit text_eq parse_uint
twenty_mbps = refl

too_fast : parse_rate (str "18446745tbps") ≡ err too_large
unfolding parse_rate split_digits to_lower to_lower_rune trim_space rate_unit text_eq parse_uint
too_fast = refl

parse_rate_exact_example : IsRate (str "20") (str "mbps") 2_500_000
unfolding split_digits to_lower to_lower_rune trim_space
parse_rate_exact_example = parse_rate_exact (str "20 Mbps") 2_500_000 twenty_mbps

parse_rate-format_rate_example :
    (v : ℕ) × (parse_rate (format_rate 1_234_567) ≡ ok v) × IsNear 1_234_567 v
parse_rate-format_rate_example = parse_rate-format_rate 1_234_567 (omega arith) (omega arith)

parse_rate-format_rate_wrapped_example :
    parse_rate (format_rate 2_305_843_009_213_693_951) ≡ err zero_rate
parse_rate-format_rate_wrapped_example =
    parse_rate-format_rate_wrapped 2_305_843_009_213_693_951 (omega arith) (omega arith)

parse_rate_tiny_example :
    (parse_rate (decimal 5 ++ (b' ' ∷ bps)) ≡ ok 0) × ((controller_for 0).name ≡ bbr)
parse_rate_tiny_example = parse_rate_tiny 5 (omega arith) (omega arith)

abbrev brutal_9 : Controller
brutal_9 = record { name = brutal; bps = 9 }

brutal_read : parse_controller (str "brutal=9") ≡ ok brutal_9
unfolding parse_controller cut text_eq parse_uint
brutal_read = refl
