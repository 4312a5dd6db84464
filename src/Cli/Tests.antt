-- ===== src/Cli/Tests.antt =====
-- buildPlan for a remote with a manifest of one network, and the theorem at it.
use tailjump.Prelude.{
  refl, ℕ, ◌≡◌, ◌∙◌, ◌*◌, ◌^◌, Bool, true, false, Option, none, some, ok, List, [], ◌∷◌, arith,
}
use tailjump.Text.{Text, str, text_eq}
use tailjump.Net.{addr_eq, Addr, v4, v6, invalid}
use tailjump.Net.Prefix.{Prefix, contains}
use tailjump.Manifest
use tailjump.Manifest.{Manifest, parse_prefixes}
use tailjump.Manifest.Networks.{
  Inputs, covers, is_prefix, compute_networks, incl, excl, out, add_prefixes, add_addrs,
}
use tailjump.Manifest.Networks.Listing.{by_listing, all_hosts, all_hosts-covers}
use tailjump.Discovery
use tailjump.Discovery.{Result}
use tailjump.Config
use tailjump.Config.{Config, no_defaults, no_remote}
use tailjump.Protocols
use tailjump.Dns
use tailjump.Transport
use tailjump.Transport.Ports
use tailjump.Tailnet.{Peer}
use tailjump.Session.Types
use tailjump.Cli.Flags.{PlanFlags}
use tailjump.Cli.Remote.{ResolvedRemote}
use tailjump.Cli.Networks.{decode_manifest, session_networks, Host}
use tailjump.Cli.Plan.{
  has_any, plan_of, build_plan, build_rest, run_discovery, resolve_dns, dns_mode, transport_mode,
  check_dns_protocols, controller_knob, single_lane_knob, reconnect_for, arch_for_uname,
}
use tailjump.Cli.Accepted.{Accepted, AreValid, build_plan-Accepted}
use tailjump.Prelude.{◌∷◌, ◌≡◌}
use tailjump.Prelude.{Bool, List, Option, [], none, ok, some, true, ℕ}
use tailjump.Prelude.{false, ◌∙◌}
use tailjump.Prelude.{◌*◌}
use tailjump.Prelude.{if◌then◌else◌}

-- A printed form that keeps every part of a prefix, and what reads it.
abbrev form : Prefix → Text
form p = elim p.addr [
  | invalid ↦ p.bits ∷ []
  | v4 n ↦ p.bits ∷ n ∷ []
  | v6 n zone ↦ p.bits ∷ n ∷ b':' ∷ zone
]

abbrev read_form : Text → Option Prefix
read_form [] = none
read_form (bits ∷ []) = none
read_form (bits ∷ n ∷ []) = some (record { addr = v4 n; bits = bits })
read_form (bits ∷ n ∷ c ∷ zone) = some (record { addr = v6 n zone; bits = bits })

form_read :
    (a : Addr) (bits : ℕ)
    → is_prefix (record { addr = a; bits = bits }) ≡ true
    → read_form (form (record { addr = a; bits = bits })) ≡ some (record { addr = a; bits = bits })
form_read invalid bits h = cc
form_read (v4 n) bits h = refl
form_read (v6 n zone) bits h = refl

abbrev manifest : Manifest
manifest = record Manifest.empty {
  networks = form (record { addr = v4 0x0a000000; bits = 8 }) ∷ [];
}

abbrev host : Host
host = record {
  parse_prefix = read_form;
  prefix_text = form;
  parse_addr =
      λ s. if text_eq s (str "100.64.0.1") then some (v4 0x64400001) else some (v4 0x0a000002);
  addr_text = λ a. str "100.64.0.1";
  sets = by_listing;
  parse_duration = λ s. none;
  base64 = λ s. some s;
  yaml = λ s. ok manifest;
  sha256 = λ s. s;
  env = λ s. [];
  connected = [];
}

abbrev result : Result
result = record {
  version = str "1";
  hostname = str "gw";
  uname_m = str "x86_64";
  exec_dir = str "/run/user/0";
  manifest_path = [];
  manifest = str "version: 1";
  addresses = [];
  link_routes = [];
  resolvers = str "10.0.0.2" ∷ [];
  search_domains = [];
  cloud = none;
}

abbrev peer : Peer
peer = record {
  host_name = str "gw";
  tags = [];
  online = true;
  tailscale_ips = v4 0x64400001 ∷ [];
  active = true;
  cur_addr = [];
  relay = [];
  last_handshake = 0;
}

abbrev remote : ResolvedRemote
remote = record {
  peer = peer;
  addr = v4 0x64400001;
  user = str "root";
  config = no_remote;
  ref = str "gw";
}

abbrev config : Config
config = record Config.no_config { version = 1; defaults = record no_defaults { dns = str "all" } }

abbrev flags : PlanFlags
flags = record {
  dns = [];
  transport = str "ssh";
  protocols = [];
  reconnect_for = [];
  networks = [];
  excludes = [];
  verbose = false;
}

abbrev inputs : Inputs
inputs = record {
  manifest_networks = record { addr = v4 0x0a000000; bits = 8 } ∷ [];
  manifest_exclude = [];
  discovery_link_routes = [];
  discovery_cloud = [];
  remote_addrs = v4 0x64400001 ∷ [];
  client_connected = [];
  local_exclude = [];
}

abbrev routed : Addr → Bool
routed = out by_listing (incl by_listing inputs) (excl by_listing inputs)

abbrev plan : Types.Plan
plan =
    plan_of host remote flags (str "version: 1") (all_hosts routed) (str "amd64")
      (record { mode = str "all"; servers = str "10.0.0.2" ∷ []; domains = [] }) Protocols.all
      Ports.default_ports (0, 0) (str "ssh") [] false (false, 600 * 10 ^ 9)

any_covers : (ps : List Prefix) (a : Addr) → covers ps a ≡ true → has_any ps ≡ true
unfolding covers
any_covers [] a h = cc
any_covers (p ∷ ps) a h = refl

is_routed : routed (v4 0x0a000002) ≡ true
unfolding out incl excl add_prefixes add_addrs contains addr_eq
is_routed = refl

has_networks : has_any (all_hosts routed) ≡ true
has_networks = any_covers (all_hosts routed) (v4 0x0a000002) (
    all_hosts-covers routed (v4 0x0a000002)
      (record { set = refl; zoneless = refl; fits = omega arith })
    ∙ is_routed)

flags-AreValid : AreValid flags
unfolding Dns.valid Transport.valid text_eq
flags-AreValid = record { dns = refl; transport = refl }

config_valid : Config.validate read_form host.parse_duration config ≡ none
unfolding Config.validate Config.validate_values Config.validate_reconnect_for
    Config.validate_remotes Config.keys Config.sort Dns.valid text_eq parse_prefixes
config_valid = refl

built : build_plan host (ok result) remote config (str "gw") flags false ≡ ok plan
unfolding build_plan build_rest run_discovery decode_manifest session_networks compute_networks
    resolve_dns dns_mode transport_mode check_dns_protocols controller_knob single_lane_knob
    reconnect_for arch_for_uname Discovery.validate Discovery.each_parses Discovery.decoded_manifest
    Discovery.link_route_prefixes Discovery.cloud_network_prefixes Discovery.parse_prefixes
    Manifest.check Manifest.quic_ports Manifest.bandwidth Manifest.link_routes_enabled
    Manifest.cloud_enabled parse_prefixes Config.remote_of Protocols.resolve Protocols.resolve_first
    Transport.resolve Transport.resolve_first text_eq
built = rw has_networks refl

build_plan-Accepted_example : Accepted host plan
unfolding text_eq
build_plan-Accepted_example =
    build_plan-Accepted host (ok result) remote config (str "gw") flags false plan
      (λ p. form_read p.addr p.bits) refl config_valid flags-AreValid built
