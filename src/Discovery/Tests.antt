-- ===== src/Discovery/Tests.antt =====
-- A discovery result that validate accepts, and the theorem at it.
use tailjump.Prelude.{◌≡◌, refl, [], ◌∷◌, Option, none, some, ok}
use tailjump.Text.{Text, str}
use tailjump.Text.Split.{cut}
use tailjump.Net.{Addr, v4}
use tailjump.Net.Prefix.{Prefix}
use tailjump.Discovery.{Result, validate, bad_link_route, each_parses, fetch_manifest}
use tailjump.Discovery.{cut}

abbrev any_prefix : Text → Option Prefix
any_prefix [] = none
any_prefix (c ∷ s) = some (record { addr = v4 0x0a000000; bits = 8 })

abbrev any_addr : Text → Option Addr
any_addr s = some (v4 0x0a000002)

abbrev same_bytes : Text → Option Text
same_bytes s = some s

abbrev result : Result
result = record {
  version = str "1";
  hostname = str "gw";
  uname_m = str "x86_64";
  exec_dir = str "/run/user/0";
  manifest_path = [];
  manifest = str "version: 1";
  addresses = [];
  link_routes = str "10.0.0.0/8" ∷ [];
  resolvers = str "10.0.0.2" ∷ [];
  search_domains = [];
  cloud = some (record { provider = str "aws"; networks = str "10.0.0.0/16" ∷ [] });
}

empty_route :
    validate any_prefix any_addr same_bytes (record result { link_routes = [] ∷ [] })
    ≡ some (bad_link_route [])
unfolding validate each_parses
empty_route = refl

-- A remote without a manifest prints an empty line.
no_manifest : fetch_manifest (ok (str "\n")) ≡ ok ([], [])
unfolding cut
no_manifest = refl

accepted : validate any_prefix any_addr same_bytes result ≡ none
unfolding validate each_parses
accepted = refl
