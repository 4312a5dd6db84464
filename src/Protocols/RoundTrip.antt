-- ===== src/Protocols/RoundTrip.antt =====
-- Parse reads back what String printed.
use tailjump.Prelude.{◌≡◌, ◌≢◌, refl, Bool, true, false, ok}
use tailjump.Protocols.{Set, no_protocol, parse, to_string}

round_trip :
    (t u i : Bool)
    → ◌≢◌ {A = Set} (record { tcp = t; udp = u; icmp = i }) no_protocol
    → parse (to_string (record { tcp = t; udp = u; icmp = i }))
      ≡ ok (record { tcp = t; udp = u; icmp = i })
unfolding parse to_string
round_trip false false false h = absurd (h refl)
round_trip false false true h = refl
round_trip false true false h = refl
round_trip false true true h = refl
round_trip true false false h = refl
round_trip true false true h = refl
round_trip true true false h = refl
round_trip true true true h = refl

-- Every set but the empty one is what Parse reads from its String.
pub parse-to_string : (s : Set) → s ≢ no_protocol → parse (to_string s) ≡ ok s
parse-to_string s h = round_trip s.tcp s.udp s.icmp h
