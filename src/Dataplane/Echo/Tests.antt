-- ===== src/Dataplane/Echo/Tests.antt =====
-- The echo flow of a ping, and the theorem at it.
use tailjump.Prelude.{ℕ, ◌≡◌, refl, true, false, List, [], ◌∷◌}
use tailjump.Net.{v4, addr_eq}
use tailjump.Dataplane.Packet.{icmp_of, parse_echo_request}
use tailjump.Dataplane.Packet.Built.{quoted}
use tailjump.Dataplane.Packet.Plain.{headers}
use tailjump.Dataplane.Echo.{
  EchoState, packet, written, no_socket, key_eq, push, send, capture_echo, take_request, run,
}
use tailjump.Dataplane.Echo.Bounded.{Flows, run-Flows}

abbrev ping : List ℕ
ping =
    64
    ∷ 0x0a000001
    ∷ 0x08080808
    ∷ 1
    ∷ 0
    ∷ 0
    ∷ 0
    ∷ 0
    ∷ 0
    ∷ 0
    ∷ 0
    ∷ 0
    ∷ 0
    ∷ 0
    ∷ 0
    ∷ 0
    ∷ 0
    ∷ 0
    ∷ 0
    ∷ 0
    ∷ quoted 8 0 7 1 []

abbrev idle : EchoState
idle = record { set_icmp = true; unsupported = false; flows = [] }

-- The second request waits in the queue of the flow.
one_waits :
    run headers
      (packet ping ∷ packet ping ∷ written (record { dst = v4 0x08080808; ident = 7 }) ∷ [])
      idle
    ≡ record idle {
      flows =
          record {
            key = record { dst = v4 0x08080808; ident = 7 };
            queue = record { src = v4 0x0a000001; seq = 1; ttl = 64; payload = [] } ∷ [];
            src = v4 0x0a000001;
          }
          ∷ [];
    }
unfolding run capture_echo parse_echo_request icmp_of send push key_eq addr_eq take_request
one_waits = refl

-- Without an echo socket on the remote, requests are dropped.
dropped : run headers (no_socket ∷ packet ping ∷ []) idle ≡ record idle { unsupported = true }
unfolding run capture_echo parse_echo_request icmp_of
dropped = refl

run-Flows_example :
    Flows
      (run headers
        (packet ping ∷ packet ping ∷ written (record { dst = v4 0x08080808; ident = 7 }) ∷ [])
        idle).flows
run-Flows_example =
    run-Flows headers
      (packet ping ∷ packet ping ∷ written (record { dst = v4 0x08080808; ident = 7 }) ∷ []) idle tt
