-- ===== src/Cli/Accepted.antt =====
-- The session accepts the plan that buildPlan made from a valid config and valid flags.
use tailjump.Prelude.{
  ◌≡◌, ◌≢◌, Bool, true, false, ◌&&◌, ◌||◌, not, Option, none, some, Outcome, ok, wrap,
  if◌then◌else◌, List, map, refl, subst, All, bind_ok, wrapped_ok, ok-injective,
}
use tailjump.Text.{Text, str, is_empty, text_eq}
use tailjump.Net.Prefix.{Prefix}
use tailjump.Dns
use tailjump.Dns.{mode_none, mode_split}
use tailjump.Transport
use tailjump.Transport.Ports.{PortRange}
use tailjump.Transport.Controllers.{cubic}
use tailjump.Protocols
use tailjump.Protocols.{no_protocol}
use tailjump.Protocols.Sound.{resolve_nonempty}
use tailjump.Manifest.{Manifest, quic_ports, bandwidth}
use tailjump.Manifest.Networks.{is_prefix, compute_networks}
use tailjump.Manifest.Networks.Covered.{compute_networks_valid}
use tailjump.Manifest.{link_routes_enabled, cloud_enabled}
use tailjump.Discovery.{Result, decoded_manifest}
use tailjump.Config.{Config, remote_of}
use tailjump.Config.Valid
use tailjump.Config
use tailjump.Config.Valid.{validate-IsValid, is_value, is_block, is_duration, remote_of_valid}
use tailjump.Session.Types
use tailjump.Session.Types.{PlanDns}
use tailjump.Session.Routes.{parse_networks, plan_networks, protocol_set}
use tailjump.Session.Quic.{quic_ports_of}
use tailjump.Cli.Flags.{PlanFlags}
use tailjump.Cli.Remote.{ResolvedRemote}
use tailjump.Cli.Networks.{Host, PlanError, decode_manifest, session_networks}
use tailjump.Cli.Plan.{
  build_plan, build_rest, run_discovery, resolve_dns, controller_knob, has_any, arch_for_uname,
}
use tailjump.Cli.Networks.{PlanError}
use tailjump.Prelude.{err, wrap_ok, Option-cases, Bool-cases, inl, inr, ap, sym, ◌∙◌, [], ◌∷◌}
use tailjump.Net.{Addr}
use tailjump.Manifest
use tailjump.Discovery
use tailjump.Discovery.Accepted.{validate_reads, is_some}
use tailjump.Session.Lanes.{parse_addrs}
use tailjump.Cli.Plan.{servers_of, validated}
use tailjump.Cli.Networks
use tailjump.Cli.Values.{
  not_refused, udp_or_none, knob_valid, set_read, ports_read_back, networks_read_back,
  resolve_dns-valid, transport_valid,
}
use tailjump.Cli.Plan.{single_lane_knob}
use tailjump.Manifest.{link_routes_enabled, cloud_enabled}
use tailjump.Manifest.{parse_prefixes}
use tailjump.Prelude.{◌++◌}
use tailjump.Cli.Plan.{reconnect_for}
use tailjump.Cli.Networks.{source_prefixes}
use tailjump.Manifest.{link_routes_enabled}
use tailjump.Discovery.{link_route_prefixes}
use tailjump.Discovery.{cloud_network_prefixes}

-- The DNS servers of a plan: addresses, or what the dns block of the manifest says, which nothing that
-- connect does has read as addresses.
pub data Served (host : Host) (p : Types.Plan) : Type 0 where
  addresses :
      {servers : List Addr} → parse_addrs host.parse_addr p.dns.servers ≡ ok servers → Served host p
  of_manifest :
      {body : Text} {m : Manifest} {d : Manifest.Dns}
      → p.manifest_sha256 ≡ host.sha256 body
      → decode_manifest host.yaml body ≡ ok m
      → m.dns ≡ some d
      → p.dns.servers ≡ d.servers
      → Served host p

-- What the session needs of its plan.
pub record Accepted (host : Host) (p : Types.Plan) : Type 0 where
  pub addr : Addr
  pub addr_read : host.parse_addr p.addr ≡ some addr
  pub served : Served host p
  pub set : Protocols.Set
  pub protocols : protocol_set p ≡ ok set
  pub some_protocol : set ≢ no_protocol
  pub mode : Dns.valid p.dns.mode ≡ true
  pub queries : text_eq p.dns.mode mode_none || set.udp ≡ true
  pub domains : text_eq p.dns.mode mode_split && not (has_any p.dns.domains) ≡ false
  pub transport : Transport.valid p.transport ≡ true
  pub ports : PortRange
  pub ports_read : quic_ports_of p ≡ ok ports
  pub networks : List Prefix
  pub networks_read : plan_networks host.parse_prefix p ≡ ok networks
  pub routed : has_any networks ≡ true
  pub controller : is_empty p.controller || text_eq p.controller cubic ≡ true

-- The DNS flag and the transport flag, each not set or a value that its Set took.
pub record AreValid (f : PlanFlags) : Type 0 where
  pub dns : is_value Dns.valid f.dns ≡ true
  pub transport : is_value Transport.valid f.transport ≡ true

module _ (host : Host) where
  session_networks_valid :
      (m : Manifest) (res : Option Result) (cfg : Config) (rr : ResolvedRemote) (nf ef : List Text)
      (ps : List Prefix)
      → session_networks host m res cfg rr nf ef ≡ ok ps
      → All (λ p. is_prefix p ≡ true) ps
  unfolding session_networks
  session_networks_valid m res cfg rr nf ef ps h =
      let (networks, _, h) =
        wrapped_ok Networks.bad_networks
          (parse_prefixes host.parse_prefix ((m.networks ++ rr.config.networks) ++ nf)) _ ps h in
      let (excluded, _, h) =
        wrapped_ok Networks.bad_manifest_exclude (parse_prefixes host.parse_prefix m.exclude) _ ps
          h in
      let (local, _, h) =
        wrapped_ok Networks.bad_exclude
          (parse_prefixes host.parse_prefix ((cfg.exclude ++ rr.config.exclude) ++ ef)) _ ps h in
      let (routes, _, h) =
        bind_ok
          (source_prefixes res (link_routes_enabled m)
            (λ r. wrap Networks.link_routes (link_route_prefixes host.parse_prefix r)))
          _ ps h in
      let (cloud, _, h) =
        bind_ok
          (source_prefixes res (cloud_enabled m)
            (λ r. wrap Networks.cloud_networks (cloud_network_prefixes host.parse_prefix r)))
          _ ps h in
      compute_networks_valid host.sets _ ps
        (wrap_ok Networks.compute (compute_networks host.sets _) ps h)

  all_read :
      (l : List Text)
      → All (λ s. is_some (host.parse_addr s) ≡ true) l
      → (servers : List Addr) × (parse_addrs host.parse_addr l ≡ ok servers)
  unfolding parse_addrs
  all_read [] h = ([], refl)
  all_read (s ∷ l) h = let (servers, k) = all_read l h.1 in first (host.parse_addr s) h.0 k
    where
      first :
          {servers : List Addr} (o : Option Addr)
          → is_some o ≡ true
          → parse_addrs host.parse_addr l ≡ ok servers
          → (servers : List Addr) × (elim o [
            | none ↦ err s
            | some a ↦ elim (parse_addrs host.parse_addr l) [ ok l ↦ ok (a ∷ l) | err e ↦ err e ]
          ]
              ≡ ok servers)
      first none t k = cc
      first {servers} (some a) t k = (a ∷ servers, rw k refl)

  resolve_dns-servers :
      (flag : Text) (cfg : Config) (ref : Text) (m : Manifest) (res : Option Result) (d : PlanDns)
      → resolve_dns flag cfg ref m res ≡ ok d
      → d.servers ≡ servers_of m.dns res
  unfolding resolve_dns
  resolve_dns-servers flag cfg ref m res d h =
      let (split, h) = not_refused _ _ _ d h in sym (ap (λ d. d.servers) (ok-injective _ d h))

  checked :
      (o : Option Discovery.DiscoveryError) (r res : Result)
      → Path
          (Outcome PlanError Result)
          (elim o [ none ↦ ok r | some e ↦ err (Networks.discovery e) ])
          (ok res)
      → (o ≡ none) × (r ≡ res)
  checked none r res h = (refl, ok-injective r res h)
  checked (some e) r res h = cc

  run_discovery-resolvers :
      (found : Outcome Text Result) (res : Result)
      → run_discovery host found ≡ ok res
      → All (λ s. is_some (host.parse_addr s) ≡ true) res.resolvers
  unfolding run_discovery
  run_discovery-resolvers found res h =
      let (r, _, g) = wrapped_ok Networks.no_discovery found (validated host) res h in
      let (accepted, same) =
        checked (Discovery.validate host.parse_prefix host.parse_addr host.base64 r) r res g in
      subst (λ r. All (λ s. is_some (host.parse_addr s) ≡ true) r.resolvers) same
        (validate_reads host.parse_prefix host.parse_addr host.base64 r accepted).3

  served_by :
      (body : Text) (m : Manifest) (res : Result) (p : Types.Plan)
      → p.manifest_sha256 ≡ host.sha256 body
      → decode_manifest host.yaml body ≡ ok m
      → All (λ s. is_some (host.parse_addr s) ≡ true) res.resolvers
      → p.dns.servers ≡ servers_of m.dns (some res)
      → Served host p
  served_by body m res p sha decoded all e = elim (Option-cases m.dns) [
    | inl n ↦ found (e ∙ ap (λ d. servers_of d (some res)) n)
    | inr (d, n) ↦ elim (Bool-cases (has_any d.servers)) [
      | inl t ↦ of_manifest sha decoded n (
          e
          ∙ ap (λ d. servers_of d (some res)) n
          ∙ ap (λ b. if b then d.servers else res.resolvers) t)
      | inr f ↦ found (
          e
          ∙ ap (λ d. servers_of d (some res)) n
          ∙ ap (λ b. if b then d.servers else res.resolvers) f)
    ]
  ]
    where
      found : p.dns.servers ≡ res.resolvers → Served host p
      found e =
          let (servers, k) = all_read res.resolvers all in
          addresses (ap (parse_addrs host.parse_addr) e ∙ k)

  build_rest-Accepted :
      (rr : ResolvedRemote) (cfg : Config) (ref : Text) (flags : PlanFlags) (body : Text)
      (m : Manifest) (networks : List Prefix) (goarch : Text) (dns : PlanDns) (plan : Types.Plan)
      → Valid.IsValid host.parse_prefix host.parse_duration cfg
      → AreValid flags
      → (parse_networks host.parse_prefix (map host.prefix_text networks) ≡ ok networks)
        × (has_any networks ≡ true)
      → (Dns.valid dns.mode ≡ true)
        × (text_eq dns.mode mode_split && not (has_any dns.domains) ≡ false)
      → host.parse_addr (host.addr_text rr.addr) ≡ some rr.addr
      → ((p : Types.Plan)
          → p.manifest_sha256 ≡ host.sha256 body
          → p.dns.servers ≡ dns.servers
          → Served host p)
      → build_rest host rr cfg ref flags body m networks goarch dns ≡ ok plan
      → Accepted host plan
  unfolding build_rest
  build_rest-Accepted rr cfg ref flags body m networks goarch dns plan v f net mode addr served h =
      let (set, parsed, h) =
        wrapped_ok Networks.bad_protocols
          (Protocols.resolve flags.protocols (remote_of cfg.remotes ref).protocols
            cfg.defaults.protocols)
          _ plan h in
      let some_protocol = resolve_nonempty _ _ _ set parsed in
      let (udp, h) = udp_or_none dns.mode set _ plan h in
      let (ports, ports_eq, h) = wrapped_ok Networks.manifest (quic_ports m) _ plan h in
      let (rates, _, h) = wrapped_ok Networks.manifest (bandwidth m) _ plan h in
      let (controller, knob, h) =
        wrapped_ok Networks.bad_controller (controller_knob (host.env (str "TJ_QUIC_CONTROLLER"))) _
          plan h in
      let (lane, _, h) =
        wrapped_ok Networks.bad_lanes (single_lane_knob (host.env (str "TJ_SSH_LANES"))) _ plan h in
      let (reconnect, _, h) =
        wrapped_ok Networks.bad_reconnect_for
          (reconnect_for host.parse_duration flags.reconnect_for cfg ref) _ plan h in
      subst (Accepted host) (ok-injective _ plan h) (record {
        addr = rr.addr;
        addr_read = addr;
        served = served _ refl refl;
        set = set;
        protocols = set_read set _ some_protocol refl;
        some_protocol = some_protocol;
        mode = mode.0;
        queries = udp;
        domains = mode.1;
        transport = transport_valid host flags.transport cfg ref v f.transport;
        ports = ports;
        ports_read = ports_read_back m ports _ ports_eq refl;
        networks = networks;
        networks_read = net.0;
        routed = net.1;
        controller = knob_valid (host.env (str "TJ_QUIC_CONTROLLER")) controller knob;
      })

  -- Of a plan that buildPlan makes from a config that Load accepts and flags that their Set took, the
  -- session reads back the address, the networks, the ports and the protocols; the DNS mode and the
  -- transport are known, and a DNS mode other than none has udp in the set and, for split, domains. The
  -- DNS servers can be read too, unless the dns block of the manifest names them: those are in the plan
  -- as they stand. netip.ParsePrefix reads what Prefix.String printed, and netip.ParseAddr what
  -- Addr.String printed for the address of the remote.
  pub build_plan-Accepted :
      (found : Outcome Text Result) (rr : ResolvedRemote) (cfg : Config) (ref : Text)
      (flags : PlanFlags) (no_discovery : Bool) (plan : Types.Plan)
      → ((p : Prefix) → is_prefix p ≡ true → host.parse_prefix (host.prefix_text p) ≡ some p)
      → host.parse_addr (host.addr_text rr.addr) ≡ some rr.addr
      → Config.validate host.parse_prefix host.parse_duration cfg ≡ none
      → AreValid flags
      → build_plan host found rr cfg ref flags no_discovery ≡ ok plan
      → Accepted host plan
  unfolding build_plan
  build_plan-Accepted found rr cfg ref flags no_discovery plan law addr c f h =
      let v = (validate-IsValid host.parse_prefix host.parse_duration cfg).0 c in
      let (res, ran, h) = bind_ok (run_discovery host found) _ plan h in
      let (body, _, h) =
        wrapped_ok Networks.discovery (decoded_manifest host.base64 res) _ plan h in
      let (m, decoded, h) = bind_ok (decode_manifest host.yaml body) _ plan h in
      let (networks, net, h) =
        bind_ok
          (session_networks host m (if no_discovery then none else some res) cfg rr flags.networks
            flags.excludes)
          _ plan h in
      let (any, h) = not_refused (not (has_any networks)) _ _ plan h in
      let (goarch, _, h) = wrapped_ok Networks.bad_arch (arch_for_uname res.uname_m) _ plan h in
      let (dns, dns_eq, h) = bind_ok (resolve_dns flags.dns cfg ref m (some res)) _ plan h in
      build_rest-Accepted rr cfg ref flags body m networks goarch dns plan v f
        (
          networks_read_back host law networks
              (session_networks_valid m _ cfg rr flags.networks flags.excludes networks net),
          not_not (has_any networks) any,
        )
        (resolve_dns-valid host flags.dns cfg ref m (some res) dns v f.dns dns_eq) addr
        (λ p sha e.
          served_by body m res p sha decoded (run_discovery-resolvers found res ran)
            (e ∙ resolve_dns-servers flags.dns cfg ref m (some res) dns dns_eq))
        h
    where
      not_not : (b : Bool) → not b ≡ false → b ≡ true
      not_not true h = refl
      not_not false h = cc
