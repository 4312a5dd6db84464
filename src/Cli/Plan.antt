-- ===== src/Cli/Plan.antt =====
-- buildPlan of internal/cli/connect.go, and ArchForUname of internal/helper/helper.go.
use tailjump.Prelude.{
  ℕ, ◌/◌, ◌*◌, ◌^◌, Bool, true, false, ◌&&◌, ◌||◌, not, Option, none, some, Outcome, ok, err, ◌>>=◌,
  wrap, if◌then◌else◌, List, [], ◌∷◌, map,
}
use tailjump.Text.{Text, str, is_empty, text_eq}
use tailjump.Net.Prefix.{Prefix}
use tailjump.Dns
use tailjump.Dns.{mode_none, mode_split}
use tailjump.Transport
use tailjump.Transport.Ports
use tailjump.Transport.Controllers.{cubic}
use tailjump.Protocols
use tailjump.Manifest
use tailjump.Manifest.{Manifest, quic_ports, bandwidth}
use tailjump.Discovery
use tailjump.Discovery.{Result, decoded_manifest}
use tailjump.Config.{Config, remote_of}
use tailjump.Session.Types
use tailjump.Session.Types.{PlanDns}
use tailjump.Cli.Flags.{PlanFlags}
use tailjump.Cli.Remote.{ResolvedRemote}
use tailjump.Cli.Networks
use tailjump.Cli.Networks.{Host, PlanError, decode_manifest, session_networks}

unfoldable pub arch_for_uname : Text → Outcome Text Text
unfolding text_eq
arch_for_uname uname =
    if text_eq uname (str "x86_64")
    then ok (str "amd64")
    else if text_eq uname (str "aarch64")
    then ok (str "arm64")
    else err uname

-- The error is the set's text.
unfoldable pub check_dns_protocols : Text → Protocols.Set → Option Text
check_dns_protocols mode set =
    if text_eq mode mode_none || set.udp then none else some (Protocols.to_string set)

-- The knobs, over the value of their variable.
unfoldable pub controller_knob : Text → Outcome Text Text
controller_knob v = if is_empty v || text_eq v cubic then ok v else err v

unfoldable pub single_lane_knob : Text → Outcome Text Bool
unfolding text_eq
single_lane_knob v = if is_empty v then ok false else if text_eq v (str "1") then ok true else err v

unfoldable pub transport_mode : Text → Config → Text → Text
transport_mode flag cfg ref =
    Transport.resolve flag (remote_of cfg.remotes ref).transport cfg.defaults.transport

abbrev pub first_set : Text → Text → Text
first_set s t = if is_empty s then t else s

abbrev pub duration_or : Text → Option (Bool × ℕ) → Outcome Text (Bool × ℕ)
duration_or value none = err value
duration_or value (some d) = ok d

-- Ten minutes where nothing is set.
unfoldable pub reconnect_for :
    (Text → Option (Bool × ℕ)) → Text → Config → Text → Outcome Text (Bool × ℕ)
reconnect_for parse_duration flag cfg ref =
    let value =
      first_set (first_set flag (remote_of cfg.remotes ref).reconnect_for)
        cfg.defaults.reconnect_for in
    if is_empty value then ok (false, 600 * 10 ^ 9) else duration_or value (parse_duration value)

-- The seconds of a window. The plan's window is a natural number: one below 0, which no valid flag
-- or config gives, counts as 0, as the session takes it.
abbrev pub seconds : Bool × ℕ → ℕ
seconds d = if d.0 then 0 else d.1 / 10 ^ 9

unfoldable pub dns_mode : Text → Config → Text → Bool → Text
dns_mode flag cfg ref has_domains =
    first_set (first_set (first_set flag (remote_of cfg.remotes ref).dns) cfg.defaults.dns)
      (Dns.default has_domains)

abbrev pub has_any {ℓ} : {A : Type ℓ} → List A → Bool
has_any [] = false
has_any (a ∷ l) = true

abbrev pub domains_of : Option Manifest.Dns → List Text
domains_of none = []
domains_of (some d) = d.domains

-- The servers of the manifest, or the resolvers that the discovery found.
abbrev pub servers_of : Option Manifest.Dns → Option Result → List Text
servers_of (some d) (some res) = if has_any d.servers then d.servers else res.resolvers
servers_of (some d) none = d.servers
servers_of none (some res) = res.resolvers
servers_of none none = []

unfoldable pub resolve_dns :
    Text → Config → Text → Manifest → Option Result → Outcome PlanError PlanDns
resolve_dns flag cfg ref m res =
    let domains = domains_of m.dns in
    let mode = dns_mode flag cfg ref (has_any domains) in
    if text_eq mode mode_split && not (has_any domains)
    then err Networks.no_domains
    else ok (record { mode = mode; servers = servers_of m.dns res; domains = domains })

abbrev pub refused {ℓ} : {A : Type ℓ} → Option Text → Outcome PlanError A → Outcome PlanError A
refused none next = next
refused (some e) next = err (Networks.needs_udp e)

-- The result of the discovery script behind its run and its JSON decoder.
abbrev pub validated : Host → Result → Outcome PlanError Result
validated host res = elim (Discovery.validate host.parse_prefix host.parse_addr host.base64 res) [
  | none ↦ ok res
  | some e ↦ err (Networks.discovery e)
]

unfoldable pub run_discovery : Host → Outcome Text Result → Outcome PlanError Result
run_discovery host found = wrap Networks.no_discovery found >>= validated host

-- The plan of the values that buildPlan computed; `body` is the manifest's text.
abbrev pub plan_of :
    Host
    → ResolvedRemote
    → PlanFlags
    → Text
    → List Prefix
    → Text
    → PlanDns
    → Protocols.Set
    → Ports.PortRange
    → ℕ × ℕ
    → Text
    → Text
    → Bool
    → Bool × ℕ
    → Types.Plan
plan_of host rr flags body networks goarch dns set ports rates tmode controller lane reconnect =
    record {
      remote = rr.peer.host_name;
      ref = rr.ref;
      addr = host.addr_text rr.addr;
      user = rr.user;
      networks = map host.prefix_text networks;
      dns = dns;
      helper_arch = goarch;
      manifest_sha256 = host.sha256 body;
      transport = tmode;
      quic_ports = Ports.to_string ports;
      bandwidth_up = rates.0;
      bandwidth_down = rates.1;
      controller = controller;
      protocols = Protocols.to_string set;
      single_lane = lane;
      verbose = flags.verbose;
      reconnect_for = seconds reconnect;
    }

-- The steps of buildPlan from the protocol set on.
unfoldable pub build_rest :
    Host
    → ResolvedRemote
    → Config
    → Text
    → PlanFlags
    → Text
    → Manifest
    → List Prefix
    → Text
    → PlanDns
    → Outcome PlanError Types.Plan
build_rest host rr cfg ref flags body m networks goarch dns =
    wrap Networks.bad_protocols (
      Protocols.resolve flags.protocols (remote_of cfg.remotes ref).protocols
        cfg.defaults.protocols)
    >>= λ set. refused (check_dns_protocols dns.mode set) (
        wrap Networks.manifest (quic_ports m) >>= λ ports.
        wrap Networks.manifest (bandwidth m) >>= λ rates.
        wrap Networks.bad_controller (controller_knob (host.env (str "TJ_QUIC_CONTROLLER")))
        >>= λ controller.
            wrap Networks.bad_lanes (single_lane_knob (host.env (str "TJ_SSH_LANES"))) >>= λ lane.
            wrap Networks.bad_reconnect_for
              (reconnect_for host.parse_duration flags.reconnect_for cfg ref)
            >>= λ reconnect. ok (
                plan_of host rr flags body networks goarch dns set ports rates
                  (transport_mode flags.transport cfg ref) controller lane reconnect))

-- --no-discovery drops only the networks of the discovery.
unfoldable pub build_plan :
    Host
    → Outcome Text Result
    → ResolvedRemote
    → Config
    → Text
    → PlanFlags
    → Bool
    → Outcome PlanError Types.Plan
build_plan host found rr cfg ref flags no_discovery = run_discovery host found >>= λ res.
    wrap Networks.discovery (decoded_manifest host.base64 res) >>= λ body.
    decode_manifest host.yaml body >>= λ m.
    session_networks host m (if no_discovery then none else some res) cfg rr flags.networks
      flags.excludes
    >>= λ networks.
        if not (has_any networks)
        then err Networks.no_networks
        else (wrap Networks.bad_arch (arch_for_uname res.uname_m) >>= λ goarch.
            resolve_dns flags.dns cfg ref m (some res) >>= λ dns.
            build_rest host rr cfg ref flags body m networks goarch dns)
