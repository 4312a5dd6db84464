-- ===== src/Dataplane/Packet/Tests.antt =====
-- The theorems at packets with plain headers.
use tailjump.Prelude.{ℕ, List, some, ◌≡◌, false, [], ◌∷◌, arith}
use tailjump.Net.{Addr, v4}
use tailjump.Mux.Frames.{IcmpError}
use tailjump.Dataplane.Packet.{
  build_icmp_error, inner_icmp, patch_quoted_echo_ident, parse_echo_request,
}
use tailjump.Dataplane.Packet.Built.{both4, quoted, request}
use tailjump.Dataplane.Packet.Quoted.{quoted_packet, build_icmp_error-request}
use tailjump.Dataplane.Packet.Plain.{headers, headers-IsHeaders}

abbrev client : Addr
client = v4 0x0a000001

abbrev far : Addr
far = v4 0x08080808

-- A hop reports that the TTL of a request ran out.
abbrev exceeded : IcmpError
exceeded = record { type = 11; code = 0; info = 0; from = v4 0x0a0000fe; inner = [] }

build_icmp_error-request_example :
    (inner : List ℕ) × (quoted_packet headers (
        build_icmp_error headers exceeded client (
          inner_icmp headers client far
            (patch_quoted_echo_ident (quoted 8 0 999 3 (1 ∷ 2 ∷ [])) 7 false)))
      ≡ some inner)
    × (parse_echo_request headers inner ≡ request client far 7 3 (1 ∷ 2 ∷ []))
build_icmp_error-request_example =
    build_icmp_error-request headers 11 0 0 (v4 0x0a0000fe) client far [] 0 999 7 3 (1 ∷ 2 ∷ [])
      headers-IsHeaders (both4 (omega arith) (omega arith)) (both4 (omega arith) (omega arith))
      (omega arith) (omega arith) (omega arith)
