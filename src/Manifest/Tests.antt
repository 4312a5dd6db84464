-- ===== src/Manifest/Tests.antt =====
-- The transport settings of a manifest.
use tailjump.Prelude.{◌≡◌, refl, some, ok, err}
use tailjump.Text.{str}
use tailjump.Manifest.{
  Manifest, Transport, needs_both, bad_version, empty, check, quic_ports, bandwidth,
}
use tailjump.Manifest.{[]}

abbrev with_transport : Transport → Manifest
with_transport t = record empty { transport = some t }

-- One rate alone is refused.
up_alone :
    check (
      with_transport
        (record { quic_ports = []; bandwidth = some (record { up = str "10 mbps"; down = [] }) }))
    ≡ err needs_both
unfolding check quic_ports bandwidth
up_alone = refl

version_2 : check (record empty { version = 2 }) ≡ err (bad_version 2)
unfolding check
version_2 = refl

default_range : quic_ports empty ≡ ok (record { first = 7443; last = 7452 })
unfolding quic_ports
default_range = refl
