-- ===== src/Protocols/Tests.antt =====
-- Runs of Parse, and the theorems at concrete inputs.
use tailjump.Prelude.{◌≡◌, refl, true, false, ok, err, []}
use tailjump.Text.{str}
use tailjump.Protocols.{Set, Error, parse, to_string, resolve}
use tailjump.Protocols.RoundTrip.{parse-to_string}

abbrev udp_icmp : Set
udp_icmp = record { tcp = false; udp = true; icmp = true }

parse_spaced : parse (str " icmp ,udp") ≡ ok udp_icmp
unfolding parse
parse_spaced = refl

parse_twice : parse (str "tcp,udp,tcp") ≡ err (Error.listed_twice (str "tcp"))
unfolding parse
parse_twice = refl

parse_trailing_comma : parse (str "tcp,") ≡ err (Error.unknown [])
unfolding parse
parse_trailing_comma = refl

resolve_remote : resolve [] (str "udp,icmp") (str "bogus") ≡ ok udp_icmp
unfolding resolve
resolve_remote = refl

parse-to_string_example : parse (to_string udp_icmp) ≡ ok udp_icmp
parse-to_string_example = parse-to_string udp_icmp (λ e. cc e)

abbrev listed_twice_tcp : Error
listed_twice_tcp = Error.listed_twice (str "tcp")
