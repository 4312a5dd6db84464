-- ===== src/Manifest/Networks/Tests.antt =====
-- ComputeNetworks on two prefixes, over netipx by listing.
use tailjump.Prelude.{◌≡◌, refl, true, false, ◌&&◌, not, List, [], ◌∷◌, ok, arith}
use tailjump.Net.{Addr, v4, addr_eq}
use tailjump.Net.Prefix.{Prefix, contains}
use tailjump.Manifest.Networks.{Inputs, IsPlain, covers, compute_networks}
use tailjump.Manifest.Networks.Covered.{IsInput, included, excluded, compute_networks-covers}
use tailjump.Manifest.Networks.{listed}
use tailjump.Manifest.Networks.Listing.{by_listing}

abbrev office : Prefix
office = record { addr = v4 0x0a000000; bits = 8 }

abbrev lan : Prefix
lan = record { addr = v4 0x0a010000; bits = 16 }

abbrev inputs : Inputs
inputs = record {
  manifest_networks = office ∷ [];
  manifest_exclude = [];
  discovery_link_routes = [];
  discovery_cloud = [];
  remote_addrs = v4 0x64400001 ∷ [];
  client_connected = lan ∷ [];
  local_exclude = [];
}

abbrev server : Addr
server = v4 0x0a020304

abbrev inputs-IsInput : IsInput inputs
inputs-IsInput = record {
  manifest_networks = (refl, tt);
  manifest_exclude = tt;
  discovery_link_routes = tt;
  discovery_cloud = tt;
  remote_addrs = (refl, tt);
  client_connected = (refl, tt);
  local_exclude = tt;
}

abbrev server-IsPlain : IsPlain server
server-IsPlain = record { set = refl; zoneless = refl; fits = omega arith }

server-included : included inputs server && not (excluded inputs server) ≡ true
unfolding included excluded covers listed contains addr_eq
server-included = refl

lan_excluded : included inputs (v4 0x0a010203) && not (excluded inputs (v4 0x0a010203)) ≡ false
unfolding included excluded covers listed contains addr_eq
lan_excluded = refl

compute_networks-covers_example :
    (ps : List Prefix) × (compute_networks by_listing inputs ≡ ok ps)
    × (covers ps server ≡ included inputs server && not (excluded inputs server))
compute_networks-covers_example =
    compute_networks-covers by_listing inputs server inputs-IsInput server-IsPlain
