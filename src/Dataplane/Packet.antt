-- ===== src/Dataplane/Packet.antt =====
-- internal/dataplane/packet.go, and parseEchoRequest of icmp.go. The IP headers are those of gVisor's
-- package header.
pub mod Built
pub mod Plain
pub mod Quoted
mod Tests
use tailjump.Prelude.{
  ℕ, ◌+◌, ◌-◌, ◌*◌, ◌/◌, ◌%◌, ◌^◌, ◌<◌, ◌≡◌, ◌==◌, Bool, true, false, ◌&&◌, ◌||◌, not, Option, none,
  some, if◌then◌else◌, List, [], ◌∷◌, ◌++◌, length, take,
}
use tailjump.Net.{Addr, is4, unmap}
use tailjump.Net.Bytes.{u16_bytes, u32_bytes, u16}
use tailjump.Mux.Frames.{IcmpError}

-- A valid IP packet, as the methods of header.IPv4 and header.IPv6 read it; `whole` is no fragment.
pub record View : Type 0 where
  pub src : Addr
  pub dst : Addr
  pub protocol : ℕ
  pub ttl : ℕ
  pub whole : Bool
  pub body : List ℕ

-- An IPv4 header with its total length, an IPv6 header with its payload length, each with the TTL 64,
-- and the checksums of ICMP.
pub record Headers : Type 0 where
  pub view4 : List ℕ → Option View
  pub view6 : List ℕ → Option View
  pub encode4 : Addr → Addr → ℕ → ℕ → List ℕ
  pub encode6 : Addr → Addr → ℕ → ℕ → List ℕ
  pub checksum4 : List ℕ → ℕ
  pub checksum6 : Addr → Addr → List ℕ → ℕ

abbrev pub default_ttl : ℕ
default_ttl = 64

abbrev pub icmpv4_protocol : ℕ
icmpv4_protocol = 1

abbrev pub icmpv6_protocol : ℕ
icmpv6_protocol = 58

-- An ICMP message with its checksum; `rest` is what stands behind the checksum.
abbrev pub message : ℕ → ℕ → ℕ → List ℕ → List ℕ
message type code sum rest = type ∷ code ∷ u16_bytes sum rest

abbrev pub summed : (List ℕ → ℕ) → ℕ → ℕ → List ℕ → List ℕ
summed checksum type code rest = message type code (checksum (message type code 0 rest)) rest

-- encodeIPv4 and encodeIPv6 in front of what follows the header.
unfoldable pub encode_ipv4 : Headers → Addr → Addr → ℕ → List ℕ → List ℕ
encode_ipv4 h src dst protocol body =
    h.encode4 (unmap src) (unmap dst) protocol ((20 + length body) % 2 ^ 16) ++ body

unfoldable pub encode_ipv6 : Headers → Addr → Addr → ℕ → List ℕ → List ℕ
encode_ipv6 h src dst protocol body =
    h.encode6 (unmap src) (unmap dst) protocol (length body % 2 ^ 16) ++ body

unfoldable pub build_echo_reply : Headers → Addr → Addr → ℕ → ℕ → List ℕ → List ℕ
build_echo_reply h pinged to ident seq payload =
    let rest = u16_bytes ident (u16_bytes seq payload) in
    if is4 to
    then encode_ipv4 h pinged to icmpv4_protocol (summed h.checksum4 0 0 rest)
    else encode_ipv6 h pinged to icmpv6_protocol
        (summed (h.checksum6 (unmap pinged) (unmap to)) 129 0 rest)

-- The packet quoted, cut to the size cap of the family: 576 bytes, or 1280.
unfoldable pub build_icmp_error : Headers → IcmpError → Addr → List ℕ → List ℕ
build_icmp_error h e to inner =
    if is4 to
    then encode_ipv4 h e.from to icmpv4_protocol
        (summed h.checksum4 e.type e.code (u32_bytes e.info (take (576 - 20 - 8) inner)))
    else encode_ipv6 h e.from to icmpv6_protocol (
        summed (h.checksum6 (unmap e.from) (unmap to)) e.type e.code
          (u32_bytes e.info (take (1280 - 40 - 8) inner)))

unfoldable pub inner_icmp : Headers → Addr → Addr → List ℕ → List ℕ
inner_icmp h src dst icmp =
    if is4 src
    then encode_ipv4 h src dst icmpv4_protocol icmp
    else encode_ipv6 h src dst icmpv6_protocol icmp

-- The identifier of a quoted echo request becomes the client's.
unfoldable pub patch_quoted_echo_ident : List ℕ → ℕ → Bool → List ℕ
patch_quoted_echo_ident (t ∷ c ∷ s ∷ u ∷ i ∷ j ∷ rest) ident v6 =
    if t == (if v6 then 128 else 8)
    then t ∷ c ∷ s ∷ u ∷ u16_bytes ident rest
    else t ∷ c ∷ s ∷ u ∷ i ∷ j ∷ rest
patch_quoted_echo_ident [] ident v6 = []
patch_quoted_echo_ident (a ∷ []) ident v6 = a ∷ []
patch_quoted_echo_ident (a ∷ b ∷ []) ident v6 = a ∷ b ∷ []
patch_quoted_echo_ident (a ∷ b ∷ c ∷ []) ident v6 = a ∷ b ∷ c ∷ []
patch_quoted_echo_ident (a ∷ b ∷ c ∷ d ∷ []) ident v6 = a ∷ b ∷ c ∷ d ∷ []
patch_quoted_echo_ident (a ∷ b ∷ c ∷ d ∷ e ∷ []) ident v6 = a ∷ b ∷ c ∷ d ∷ e ∷ []

-- The fields of an ICMP message of eight bytes at least.
pub record Icmp : Type 0 where
  pub type : ℕ
  pub code : ℕ
  pub ident : ℕ
  pub seq : ℕ
  pub payload : List ℕ

unfoldable pub icmp_of : List ℕ → Option Icmp
icmp_of (t ∷ c ∷ s ∷ u ∷ i ∷ j ∷ k ∷ l ∷ payload) =
    some (record { type = t; code = c; ident = u16 i j; seq = u16 k l; payload = payload })
icmp_of _ = none

-- The flow of an echo request, and the request.
pub record EchoKey : Type 0 where
  pub dst : Addr
  pub ident : ℕ

pub record EchoRequest : Type 0 where
  pub src : Addr
  pub seq : ℕ
  pub ttl : ℕ
  pub payload : List ℕ

abbrev request_of : ℕ → View → Option Icmp → Option (EchoKey × EchoRequest)
request_of type v none = none
request_of type v (some m) =
    if m.type == type && m.code == 0
    then some (
      record { dst = v.dst; ident = m.ident },
      record { src = v.src; seq = m.seq; ttl = v.ttl; payload = m.payload },
    )
    else none

abbrev viewed : ℕ → ℕ → Option View → Option (EchoKey × EchoRequest)
viewed protocol type none = none
viewed protocol type (some v) =
    if v.protocol == protocol && v.whole then request_of type v (icmp_of v.body) else none

unfoldable pub parse_echo_request : Headers → List ℕ → Option (EchoKey × EchoRequest)
parse_echo_request h [] = none
parse_echo_request h (b ∷ rest) =
    if b / 16 == 4
    then viewed icmpv4_protocol 8 (h.view4 (b ∷ rest))
    else if b / 16 == 6
    then viewed icmpv6_protocol 128 (h.view6 (b ∷ rest))
    else none
