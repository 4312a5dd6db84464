-- ===== src/Manifest.antt =====
-- internal/manifest/manifest.go: the document that a remote advertises, decoded from its YAML.
pub mod Networks
pub mod Settings
mod Tests
use tailjump.Prelude.{
  ℕ, ◌==◌, Bool, true, false, ◌||◌, not, List, [], ◌∷◌, Option, none, some, Outcome, ok, err, ◌>>=◌,
  wrap, if◌then◌else◌,
}
use tailjump.Text.{Text, is_empty}
use tailjump.Net.{Addr}
use tailjump.Net.Prefix.{Prefix, masked}
use tailjump.Transport.Ports.{PortRange, RangeError, default_ports, parse_port_range}
use tailjump.Transport.Rate.{RateError, parse_rate}

pub record Bandwidth : Type 0 where
  pub up : Text
  pub down : Text

pub record Transport : Type 0 where
  pub quic_ports : Text
  pub bandwidth : Option Bandwidth

pub record Discovery : Type 0 where
  pub link_routes : Option Bool
  pub cloud_metadata : Option Bool

pub record Dns : Type 0 where
  pub servers : List Text
  pub domains : List Text

pub record Check : Type 0 where
  pub name : Text
  pub tcp : Text

-- A version below 0 is left out; it is refused like every other but 1.
pub record Manifest : Type 0 where
  pub version : ℕ
  pub name : Text
  pub description : Text
  pub discovery : Option Discovery
  pub networks : List Text
  pub exclude : List Text
  pub dns : Option Dns
  pub checks : List Check
  pub transport : Option Transport

pub data ManifestError : Type 0 where
  bad_version : ℕ → ManifestError
  bad_ports : RangeError → ManifestError
  needs_both : ManifestError
  bad_up bad_down : RateError → ManifestError

abbrev pub ports_of : Option Transport → Outcome ManifestError PortRange
ports_of none = ok default_ports
ports_of (some t) =
    if is_empty t.quic_ports
    then ok default_ports
    else wrap bad_ports (parse_port_range t.quic_ports)

unfoldable pub quic_ports : Manifest → Outcome ManifestError PortRange
quic_ports m = ports_of m.transport

abbrev pub rates : Bandwidth → Outcome ManifestError (ℕ × ℕ)
rates b = wrap bad_up (parse_rate b.up) >>= λ up.
    wrap bad_down (parse_rate b.down) >>= λ down. ok (up, down)

abbrev pub rates_of : Option Bandwidth → Outcome ManifestError (ℕ × ℕ)
rates_of none = ok (0, 0)
rates_of (some b) = if is_empty b.up || is_empty b.down then err needs_both else rates b

abbrev pub bandwidth_of : Option Transport → Outcome ManifestError (ℕ × ℕ)
bandwidth_of none = ok (0, 0)
bandwidth_of (some t) = rates_of t.bandwidth

-- The rates up and down in bytes per second.
unfoldable pub bandwidth : Manifest → Outcome ManifestError (ℕ × ℕ)
bandwidth m = bandwidth_of m.transport

-- Parse behind the YAML decoder.
unfoldable pub check : Manifest → Outcome ManifestError Manifest
check m =
    if not (m.version == 1)
    then err (bad_version m.version)
    else (quic_ports m >>= λ ports. bandwidth m >>= λ rates. ok m)

abbrev pub empty : Manifest
empty = record {
  version = 1;
  name = [];
  description = [];
  discovery = none;
  networks = [];
  exclude = [];
  dns = none;
  checks = [];
  transport = none;
}

abbrev pub on_unless_off : Option Bool → Bool
on_unless_off none = true
on_unless_off (some b) = b

abbrev pub source_on : (Discovery → Option Bool) → Option Discovery → Bool
source_on source none = true
source_on source (some d) = on_unless_off (source d)

unfoldable pub link_routes_enabled : Manifest → Bool
link_routes_enabled m = source_on (λ d. d.link_routes) m.discovery

unfoldable pub cloud_enabled : Manifest → Bool
cloud_enabled m = source_on (λ d. d.cloud_metadata) m.discovery

abbrev pub then_parsed {ℓ κ} :
    {A : Type ℓ} {B : Type κ}
    → Text
    → Option A
    → (A → B)
    → Outcome Text (List B)
    → Outcome Text (List B)
then_parsed s none f rest = err s
then_parsed s (some a) f rest = rest >>= λ l. ok (f a ∷ l)

-- ParsePrefixes over netip.ParsePrefix, and ParseAddrs over netip.ParseAddr.
unfoldable pub parse_prefixes : (Text → Option Prefix) → List Text → Outcome Text (List Prefix)
parse_prefixes parse_prefix [] = ok []
parse_prefixes parse_prefix (s ∷ rest) =
    then_parsed s (parse_prefix s) masked (parse_prefixes parse_prefix rest)

unfoldable pub parse_addrs : (Text → Option Addr) → List Text → Outcome Text (List Addr)
parse_addrs parse_addr [] = ok []
parse_addrs parse_addr (s ∷ rest) =
    then_parsed s (parse_addr s) (λ a. a) (parse_addrs parse_addr rest)
