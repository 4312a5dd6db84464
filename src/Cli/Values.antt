-- ===== src/Cli/Values.antt =====
-- The values of a plan: what is valid where it is chosen is valid in the plan, and the session reads
-- it back.
use tailjump.Prelude.{
  ◌≡◌, ◌≢◌, Bool, true, false, ◌&&◌, ◌||◌, not, Option, some, Outcome, ok, err, if◌then◌else◌, List,
  [], ◌∷◌, map, refl, sym, subst, All, Bool-cases, inl, inr, ok-injective,
}
use tailjump.Text.{Text, is_empty, text_eq}
use tailjump.Net.Prefix.{Prefix}
use tailjump.Dns
use tailjump.Dns.{mode_none, mode_split}
use tailjump.Transport
use tailjump.Transport.Ports
use tailjump.Transport.Ports.{PortRange}
use tailjump.Transport.Controllers.{cubic}
use tailjump.Protocols
use tailjump.Protocols.{no_protocol}
use tailjump.Protocols.RoundTrip.{parse-to_string}
use tailjump.Manifest.{Manifest, quic_ports}
use tailjump.Manifest.Networks.{is_prefix}
use tailjump.Manifest.Settings.{quic_ports-IsValid, ports_nonempty}
use tailjump.Text.Split.{join}
use tailjump.Discovery.{Result}
use tailjump.Config.{Config, remote_of}
use tailjump.Config.Valid
use tailjump.Config.Valid.{is_value, is_block, is_duration, remote_of_valid}
use tailjump.Session.Types
use tailjump.Session.Types.{PlanDns}
use tailjump.Session.Routes.{parse_networks, protocol_set}
use tailjump.Session.Quic.{quic_ports_of}
use tailjump.Cli.Networks.{Host, PlanError}
use tailjump.Cli.Plan.{
  resolve_dns, dns_mode, transport_mode, check_dns_protocols, controller_knob, first_set, has_any,
  refused, domains_of,
}

first_valid :
    (valid : Text → Bool) (s t : Text)
    → is_value valid s ≡ true
    → valid t ≡ true
    → valid (first_set s t) ≡ true
first_valid valid [] t h k = k
first_valid valid (c ∷ s) t h k = h

first_value :
    (valid : Text → Bool) (s t : Text)
    → is_value valid s ≡ true
    → is_value valid t ≡ true
    → is_value valid (first_set s t) ≡ true
first_value valid [] t h k = k
first_value valid (c ∷ s) t h k = h

default-valid : (b : Bool) → Dns.valid (Dns.default b) ≡ true
unfolding Dns.default Dns.valid text_eq
default-valid true = refl
default-valid false = refl

-- Transport.Resolve, as a chain of values.
resolve_chain :
    (flag remote defaults : Text)
    → Transport.resolve flag remote defaults
      ≡ first_set (first_set (first_set flag remote) defaults) Transport.mode_auto
unfolding Transport.resolve Transport.resolve_first
resolve_chain [] [] [] = refl
resolve_chain [] [] (c ∷ s) = refl
resolve_chain [] (c ∷ s) defaults = refl
resolve_chain (c ∷ s) remote defaults = refl

auto_valid : Transport.valid Transport.mode_auto ≡ true
unfolding Transport.valid text_eq
auto_valid = refl

both_first : (a b c : Bool) → a && (b && c) ≡ true → (a ≡ true) × (b ≡ true)
both_first true true c h = (refl, refl)
both_first true false c h = cc
both_first false b c h = cc

block_parts :
    (dns transport protocols : Text)
    → is_block dns transport protocols ≡ true
    → (is_value Dns.valid dns ≡ true) × (is_value Transport.valid transport ≡ true)
block_parts dns transport protocols h =
    both_first (is_value Dns.valid dns) (is_value Transport.valid transport) _ h

pub udp_or_none :
    (mode : Text) (set : Protocols.Set) (o : Outcome PlanError Types.Plan) (p : Types.Plan)
    → refused (check_dns_protocols mode set) o ≡ ok p
    → (text_eq mode mode_none || set.udp ≡ true) × (o ≡ ok p)
unfolding check_dns_protocols
udp_or_none mode set o p h = elim (Bool-cases (text_eq mode mode_none || set.udp)) [
  | inl e ↦ (e, rw e at h)
  | inr e ↦ cc (rw e at h)
]

pub not_refused {ℓ} :
    {A : Type ℓ} (b : Bool) (e : PlanError) (o : Outcome PlanError A) (a : A)
    → (if b then err e else o) ≡ ok a
    → (b ≡ false) × (o ≡ ok a)
not_refused true e o a h = cc
not_refused false e o a h = (refl, h)

pub knob_valid : (v c : Text) → controller_knob v ≡ ok c → is_empty c || text_eq c cubic ≡ true
unfolding controller_knob
knob_valid v c h = elim (Bool-cases (is_empty v || text_eq v cubic)) [
  | inl e ↦ subst (λ t. is_empty t || text_eq t cubic ≡ true) (ok-injective v c (rw e at h)) e
  | inr e ↦ cc (rw e at h)
]

printed_nonempty :
    (a b c : Bool)
    → (record { tcp = a; udp = b; icmp = c }) ≢ no_protocol
    → is_empty (Protocols.to_string (record { tcp = a; udp = b; icmp = c })) ≡ false
unfolding Protocols.to_string join
printed_nonempty false false false h = absurd (h refl)
printed_nonempty true false false h = refl
printed_nonempty true false true h = refl
printed_nonempty true true false h = refl
printed_nonempty true true true h = refl
printed_nonempty false true false h = refl
printed_nonempty false true true h = refl
printed_nonempty false false true h = refl

pub set_read :
    (set : Protocols.Set) (p : Types.Plan)
    → set ≢ no_protocol
    → p.protocols ≡ Protocols.to_string set
    → protocol_set p ≡ ok set
unfolding protocol_set
set_read set p h e = rw (e, printed_nonempty set.tcp set.udp set.icmp h) (parse-to_string set h)

pub ports_read_back :
    (m : Manifest) (r : PortRange) (p : Types.Plan)
    → quic_ports m ≡ ok r
    → p.quic_ports ≡ Ports.to_string r
    → quic_ports_of p ≡ ok r
unfolding quic_ports_of
ports_read_back m r p h e = rw (e, ports_nonempty r, (quic_ports-IsValid m r h).1) refl

module _ (host : Host) where
  pub networks_read_back :
      ((p : Prefix) → is_prefix p ≡ true → host.parse_prefix (host.prefix_text p) ≡ some p)
      → (ps : List Prefix) → All (λ p. is_prefix p ≡ true) ps
      → parse_networks host.parse_prefix (map host.prefix_text ps) ≡ ok ps
  unfolding parse_networks
  networks_read_back law [] h = refl
  networks_read_back law (p ∷ ps) h = rw (law p h.0, networks_read_back law ps h.1) refl

  pub resolve_dns-valid :
      (flag : Text) (cfg : Config) (ref : Text) (m : Manifest) (res : Option Result) (d : PlanDns)
      → Valid.IsValid host.parse_prefix host.parse_duration cfg
      → is_value Dns.valid flag ≡ true
      → resolve_dns flag cfg ref m res ≡ ok d
      → (Dns.valid d.mode ≡ true) × (text_eq d.mode mode_split && not (has_any d.domains) ≡ false)
  unfolding resolve_dns dns_mode
  resolve_dns-valid flag cfg ref m res d v f h =
      let rc = remote_of cfg.remotes ref in
      let remote = (remote_of_valid host.parse_prefix host.parse_duration cfg ref v).0 in
      let (split, h) = not_refused _ _ _ d h in
      let any = has_any (domains_of m.dns) in
      let valid =
        first_valid Dns.valid (first_set (first_set flag rc.dns) cfg.defaults.dns) (Dns.default any)
          (first_value Dns.valid (first_set flag rc.dns) cfg.defaults.dns
            (first_value Dns.valid flag rc.dns f
              (block_parts rc.dns rc.transport rc.protocols remote).0)
            (block_parts cfg.defaults.dns cfg.defaults.transport cfg.defaults.protocols
              v.defaults).0)
          (default-valid any) in
      let same = ok-injective _ d h in
      subst
        (λ e.
          (Dns.valid e.mode ≡ true)
          × (text_eq e.mode mode_split && not (has_any e.domains) ≡ false))
        same (valid, split)

  pub transport_valid :
      (flag : Text) (cfg : Config) (ref : Text)
      → Valid.IsValid host.parse_prefix host.parse_duration cfg
      → is_value Transport.valid flag ≡ true
      → Transport.valid (transport_mode flag cfg ref) ≡ true
  unfolding transport_mode
  transport_valid flag cfg ref v f =
      let rc = remote_of cfg.remotes ref in
      let remote = (remote_of_valid host.parse_prefix host.parse_duration cfg ref v).0 in
      subst (λ t. Transport.valid t ≡ true)
        (sym (resolve_chain flag rc.transport cfg.defaults.transport))
        (first_valid Transport.valid _ Transport.mode_auto
          (first_value Transport.valid (first_set flag rc.transport) cfg.defaults.transport
            (first_value Transport.valid flag rc.transport f
              (block_parts rc.dns rc.transport rc.protocols remote).1)
            (block_parts cfg.defaults.dns cfg.defaults.transport cfg.defaults.protocols
              v.defaults).1)
          auto_valid)
