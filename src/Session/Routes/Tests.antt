-- ===== src/Session/Routes/Tests.antt =====
-- The routes of a plan with one network and two DNS servers, and the theorems at this plan.
use mathlib.Core.List.{Memᴰ}
use tailjump.Prelude.{◌≡◌, refl, true, List, [], ◌∷◌, ◌++◌, Option, none, some, ok, if◌then◌else◌}
use tailjump.Text.{Text, str, text_eq}
use tailjump.Net.{Addr, v4}
use tailjump.Net.Prefix.{Prefix, contains}
use tailjump.Session.Types.{Plan}
use tailjump.Session.Example.{example_plan}
use tailjump.Session.Routes.{covered_by, route_prefixes, parse_networks, add_hosts}
use tailjump.Session.Routes.Cover.{Hosts, route_prefixes-Hosts, route_prefixes_covers}

abbrev lan : Prefix
lan = record { addr = v4 0x0a000000; bits = 24 }

abbrev outside : Prefix
outside = record { addr = v4 0x09090909; bits = 32 }

abbrev read_prefix : Text → Option Prefix
read_prefix s = if text_eq s (str "10.0.0.0/24") then some lan else none

abbrev read_addr : Text → Option Addr
read_addr s =
    if text_eq s (str "10.0.0.53")
    then some (v4 0x0a000035)
    else if text_eq s (str "9.9.9.9")
    then some (v4 0x09090909)
    else none

abbrev plan : Plan
plan = record example_plan {
  networks = str "10.0.0.0/24" ∷ [];
  dns = record { mode = str "split"; servers = str "10.0.0.53" ∷ str "9.9.9.9" ∷ []; domains = [] };
}

routed_plan : route_prefixes read_prefix read_addr plan ≡ ok (lan ∷ outside ∷ [])
unfolding route_prefixes parse_networks add_hosts text_eq contains covered_by
routed_plan = refl

route_prefixes-Hosts_example :
    (hosts : List Prefix) × (lan ∷ outside ∷ [] ≡ (lan ∷ []) ++ hosts) × Hosts (lan ∷ []) hosts
unfolding parse_networks text_eq
route_prefixes-Hosts_example =
    route_prefixes-Hosts read_addr read_prefix plan (lan ∷ []) (lan ∷ outside ∷ []) refl routed_plan

route_prefixes_covers_example : covered_by (v4 0x09090909) (lan ∷ outside ∷ []) ≡ true
unfolding parse_networks text_eq
route_prefixes_covers_example =
    route_prefixes_covers read_addr read_prefix plan (lan ∷ []) (lan ∷ outside ∷ []) (str "9.9.9.9")
      (v4 0x09090909) refl routed_plan refl (Memᴰ.tail (Memᴰ.head refl)) refl refl refl
