-- ===== src/Session/Routes.antt =====
-- internal/session/plan.go: the prefixes that the session routes. `parse_prefix` and `parse_addr` are
-- netip.ParsePrefix and netip.ParseAddr.
pub mod Cover
mod Tests
use tailjump.Prelude.{
  Bool, true, false, ◌||◌, List, [], ◌∷◌, ◌++◌, Option, none, some, Outcome, ok, err, ◌>>=◌,
  if◌then◌else◌,
}
use tailjump.Text.{Text, text_eq, is_empty}
use tailjump.Net.{Addr}
use tailjump.Net.Prefix.{Prefix, contains, host_prefix}
use tailjump.Dns.{mode_none}
use tailjump.Protocols
use tailjump.Session.Types.{Plan}

pub data RouteError : Type 0 where
  bad_network bad_server : Text → RouteError

unfoldable pub covered_by : Addr → List Prefix → Bool
covered_by addr [] = false
covered_by addr (p ∷ prefixes) = contains p addr || covered_by addr prefixes

abbrev pub add_host : Addr → List Prefix → List Prefix
add_host addr networks =
    if covered_by addr networks then networks else networks ++ (host_prefix addr ∷ [])

-- A parsed network before those that follow.
abbrev pub then_network :
    Text → Option Prefix → Outcome RouteError (List Prefix) → Outcome RouteError (List Prefix)
then_network s none rest = err (bad_network s)
then_network s (some p) rest = rest >>= λ ps. ok (p ∷ ps)

-- The loop of planNetworks.
unfoldable pub parse_networks :
    (Text → Option Prefix) → List Text → Outcome RouteError (List Prefix)
parse_networks parse_prefix [] = ok []
parse_networks parse_prefix (s ∷ rest) =
    then_network s (parse_prefix s) (parse_networks parse_prefix rest)

abbrev pub plan_networks : (Text → Option Prefix) → Plan → Outcome RouteError (List Prefix)
plan_networks parse_prefix plan = parse_networks parse_prefix plan.networks

abbrev pub with_host :
    Text
    → Option Addr
    → (Addr → Outcome RouteError (List Prefix))
    → Outcome RouteError (List Prefix)
with_host s none next = err (bad_server s)
with_host s (some addr) next = next addr

-- The loop of routePrefixes over the DNS servers.
unfoldable pub add_hosts :
    (Text → Option Addr) → List Prefix → List Text → Outcome RouteError (List Prefix)
add_hosts parse_addr networks [] = ok networks
add_hosts parse_addr networks (s ∷ servers) =
    with_host s (parse_addr s) (λ addr. add_hosts parse_addr (add_host addr networks) servers)

unfoldable pub route_prefixes :
    (Text → Option Prefix) → (Text → Option Addr) → Plan → Outcome RouteError (List Prefix)
route_prefixes parse_prefix parse_addr plan = plan_networks parse_prefix plan >>= λ networks.
    if text_eq plan.dns.mode mode_none
    then ok networks
    else add_hosts parse_addr networks plan.dns.servers

-- protocolSet: an empty value is all three.
unfoldable pub protocol_set : Plan → Outcome Protocols.Error Protocols.Set
protocol_set plan =
    if is_empty plan.protocols then ok Protocols.all else Protocols.parse plan.protocols
