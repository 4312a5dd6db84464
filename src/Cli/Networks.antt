-- ===== src/Cli/Networks.antt =====
-- internal/cli/networks.go: the manifest of the remote and the networks of a session.
use tailjump.Prelude.{
  ℕ, Bool, Option, none, some, Outcome, ok, ◌>>=◌, wrap, if◌then◌else◌, List, [], ◌++◌,
}
use tailjump.Text.{Text, is_empty}
use tailjump.Net.{Addr}
use tailjump.Net.Prefix.{Prefix}
use tailjump.Manifest.{
  Manifest, ManifestError, check, empty, parse_prefixes, link_routes_enabled, cloud_enabled,
}
use tailjump.Manifest.Networks.{IpSets, compute_networks}
use tailjump.Discovery.{Result, DiscoveryError, link_route_prefixes, cloud_network_prefixes}
use tailjump.Config.{Config}
use tailjump.Protocols
use tailjump.Cli.Remote.{ResolvedRemote}

-- What connect takes from outside: netip, netipx, time, base64, YAML, SHA-256, the environment, and
-- the connected subnets of the client, which are none where the router gives an error. A duration is
-- whether it is below 0, and its nanoseconds.
pub record Host : Type 1 where
  pub parse_prefix : Text → Option Prefix
  pub prefix_text : Prefix → Text
  pub parse_addr : Text → Option Addr
  pub addr_text : Addr → Text
  pub sets : IpSets
  pub parse_duration : Text → Option (Bool × ℕ)
  pub base64 : Text → Option Text
  pub yaml : Text → Outcome Text Manifest
  pub sha256 : Text → Text
  pub env : Text → Text
  pub connected : List Prefix

pub data PlanError : Type 0 where
  no_discovery : Text → PlanError
  discovery : DiscoveryError → PlanError
  manifest_yaml : Text → PlanError
  manifest : ManifestError → PlanError
  bad_networks bad_manifest_exclude bad_exclude : Text → PlanError
  link_routes cloud_networks : DiscoveryError → PlanError
  compute : Text → PlanError
  no_networks : PlanError
  bad_arch : Text → PlanError
  no_domains : PlanError
  bad_protocols : Protocols.Error → PlanError
  needs_udp : Text → PlanError
  bad_controller bad_lanes bad_reconnect_for : Text → PlanError

unfoldable pub decode_manifest : (Text → Outcome Text Manifest) → Text → Outcome PlanError Manifest
decode_manifest yaml body =
    if is_empty body
    then ok empty
    else (wrap manifest_yaml (yaml body) >>= λ m. wrap manifest (check m))

-- The prefixes of a source of the discovery: none without a result, or where the manifest turns the
-- source off.
abbrev pub source_prefixes :
    Option Result
    → Bool
    → (Result → Outcome PlanError (List Prefix))
    → Outcome PlanError (List Prefix)
source_prefixes none on read = ok []
source_prefixes (some res) on read = if on then read res else ok []

unfoldable pub session_networks :
    Host
    → Manifest
    → Option Result
    → Config
    → ResolvedRemote
    → List Text
    → List Text
    → Outcome PlanError (List Prefix)
session_networks host m res cfg rr network_flags exclude_flags =
    wrap bad_networks
      (parse_prefixes host.parse_prefix ((m.networks ++ rr.config.networks) ++ network_flags))
    >>= λ networks.
        wrap bad_manifest_exclude (parse_prefixes host.parse_prefix m.exclude) >>= λ excluded.
        wrap bad_exclude
          (parse_prefixes host.parse_prefix ((cfg.exclude ++ rr.config.exclude) ++ exclude_flags))
        >>= λ local.
            source_prefixes res (link_routes_enabled m)
              (λ r. wrap link_routes (link_route_prefixes host.parse_prefix r))
            >>= λ routes.
                source_prefixes res (cloud_enabled m)
                  (λ r. wrap cloud_networks (cloud_network_prefixes host.parse_prefix r))
                >>= λ cloud. wrap compute (
                    compute_networks host.sets (record {
                      manifest_networks = networks;
                      manifest_exclude = excluded;
                      discovery_link_routes = routes;
                      discovery_cloud = cloud;
                      remote_addrs = rr.peer.tailscale_ips;
                      client_connected = host.connected;
                      local_exclude = local;
                    }))
