-- ===== src/Manifest/Settings.antt =====
-- The transport settings of a manifest, as the plan carries them on.
use tailjump.Prelude.{
  ◌≡◌, false, Option, none, some, ok, ◌++◌, refl, subst, Bool-cases, inl, inr, arith, ok-injective,
  wrap_ok,
}
use tailjump.Text.{str, is_empty}
use tailjump.Text.Decimal.{decimal, decimal_elim}
use tailjump.Transport.Ports
use tailjump.Transport.Ports.{
  PortRange, default_ports, parse_port_range, parse_port_range-to_string, parse_port_range-IsValid,
}
use tailjump.Manifest.{Manifest, Transport, ports_of, quic_ports, bad_ports}

default_ports-IsValid : Ports.IsValid default_ports
default_ports-IsValid = record { positive = omega arith; ordered = omega arith; fits = omega arith }

ports_of-IsValid : (t : Option Transport) (r : PortRange) → ports_of t ≡ ok r → Ports.IsValid r
ports_of-IsValid none r h =
    subst Ports.IsValid (ok-injective default_ports r h) default_ports-IsValid
ports_of-IsValid (some t) r h = elim (Bool-cases (is_empty t.quic_ports)) [
  | inl e ↦ subst Ports.IsValid (ok-injective default_ports r (rw e at h)) default_ports-IsValid
  | inr e ↦ (parse_port_range-IsValid t.quic_ports r (wrap_ok bad_ports _ r (rw e at h))).0
]

-- The ports that a manifest sets are a valid range, so they print and are read back.
pub quic_ports-IsValid :
    (m : Manifest) (r : PortRange)
    → quic_ports m ≡ ok r
    → Ports.IsValid r × (parse_port_range (Ports.to_string r) ≡ ok r)
unfolding quic_ports
quic_ports-IsValid m r h =
    let v = ports_of-IsValid m.transport r h in (v, parse_port_range-to_string r v)

pub ports_nonempty : (r : PortRange) → is_empty (Ports.to_string r) ≡ false
unfolding Ports.to_string
ports_nonempty r =
    decimal_elim r.first (λ t. is_empty (t ++ (str "-" ++ decimal r.last)) ≡ false) (λ c s. refl)
