-- ===== src/Dataplane/Packet/Built.antt =====
-- The packets that the client builds are those that an application expects.
use tailjump.Prelude.{
  ℕ, ◌+◌, ◌-◌, ◌/◌, ◌%◌, ◌^◌, ◌<◌, ◌≡◌, refl, ap, ◌∙◌, Bool, true, false, Option, some,
  if◌then◌else◌, List, [], ◌∷◌, ◌++◌, length, length-append, length-take, min, arith,
}
use tailjump.Net.{Addr, invalid, v4, v6, is4, is6, unmap}
use tailjump.Net.Bytes.{u16_bytes, u16}
use tailjump.Mux.Frames.{IcmpError}
use tailjump.Dataplane.Packet.{
  Headers, Icmp, icmp_of, message, encode_ipv4, encode_ipv6, build_icmp_error, inner_icmp,
  patch_quoted_echo_ident, EchoKey, EchoRequest, viewed, parse_echo_request, icmpv4_protocol,
  icmpv6_protocol, default_ttl,
}
use tailjump.Prelude.{==_refl}

-- A header is never empty, and its first byte has the version.
pub record Starts (version : ℕ) (bytes : List ℕ) : Type 0 where
  pub byte : ℕ
  pub rest : List ℕ
  pub shape : bytes ≡ byte ∷ rest
  pub version_eq : byte / 16 ≡ version

-- What gVisor's headers do: they have 20 and 40 bytes, and a packet that they head reads as it was
-- written.
pub record IsHeaders (h : Headers) : Type 0 where
  pub length4 : (src dst : Addr) (p n : ℕ) → length (h.encode4 src dst p n) ≡ 20
  pub length6 : (src dst : Addr) (p n : ℕ) → length (h.encode6 src dst p n) ≡ 40
  pub starts4 : (src dst : Addr) (p n : ℕ) → Starts 4 (h.encode4 src dst p n)
  pub starts6 : (src dst : Addr) (p n : ℕ) → Starts 6 (h.encode6 src dst p n)
  pub read4 :
      (m n p : ℕ) (body : List ℕ)
      → m < 2 ^ 32
      → n < 2 ^ 32
      → p < 256
      → 20 + length body < 2 ^ 16
      → h.view4 (h.encode4 (v4 m) (v4 n) p (20 + length body) ++ body)
        ≡ some (record {
          src = v4 m;
          dst = v4 n;
          protocol = p;
          ttl = default_ttl;
          whole = true;
          body = body;
        })
  pub read6 :
      (m n p : ℕ) (body : List ℕ)
      → m < 2 ^ 128
      → n < 2 ^ 128
      → p < 256
      → length body < 2 ^ 16
      → h.view6 (h.encode6 (v6 m []) (v6 n []) p (length body) ++ body)
        ≡ some (record {
          src = v6 m [];
          dst = v6 n [];
          protocol = p;
          ttl = default_ttl;
          whole = true;
          body = body;
        })

-- The packet of an ICMP error has its IP and ICMP headers and the quoted packet, cut to 576 bytes for
-- IPv4 and to 1280 for IPv6.
pub length-build_icmp_error :
    (h : Headers) (e : IcmpError) (to : Addr) (inner : List ℕ)
    → IsHeaders h
    → length (build_icmp_error h e to inner)
      ≡ (if is4 to then min 576 (28 + length inner) else min 1280 (48 + length inner))
unfolding build_icmp_error encode_ipv4 encode_ipv6
length-build_icmp_error h e (v4 n) inner v =
    length-append (h.encode4 _ _ _ _) _
    ∙ rw (v.length4 _ _ _ _) (omega (arith, length-take (576 - 20 - 8) inner))
length-build_icmp_error h e invalid inner v =
    length-append (h.encode6 _ _ _ _) _
    ∙ rw (v.length6 _ _ _ _) (omega (arith, length-take (1280 - 40 - 8) inner))
length-build_icmp_error h e (v6 n zone) inner v =
    length-append (h.encode6 _ _ _ _) _
    ∙ rw (v.length6 _ _ _ _) (omega (arith, length-take (1280 - 40 - 8) inner))

-- The client's view of a request that a remote's socket sent under its own identifier.
abbrev pub quoted : ℕ → ℕ → ℕ → ℕ → List ℕ → List ℕ
quoted type sum ident seq payload = message type 0 sum (u16_bytes ident (u16_bytes seq payload))

pub patched :
    (type sum own ident seq : ℕ) (payload : List ℕ) (six : Bool)
    → (if six then 128 else 8) ≡ type
    → patch_quoted_echo_ident (quoted type sum own seq payload) ident six
      ≡ quoted type sum ident seq payload
unfolding patch_quoted_echo_ident
patched type sum own ident seq payload six h = rw h (rw (==_refl type) refl)

u16_back : (n : ℕ) → n < 2 ^ 16 → u16 (n / 2 ^ 8 % 256) (n % 256) ≡ n
u16_back n h = omega arith

read_quoted :
    (type sum ident seq : ℕ) (payload : List ℕ)
    → ident < 2 ^ 16
    → seq < 2 ^ 16
    → icmp_of (quoted type sum ident seq payload)
      ≡ some (record { type = type; code = 0; ident = ident; seq = seq; payload = payload })
unfolding icmp_of
read_quoted type sum ident seq payload h k = rw (u16_back ident h, u16_back seq k) refl

echo_request_view4 :
    (h : Headers) (head body : List ℕ)
    → Starts 4 head
    → parse_echo_request h (head ++ body) ≡ viewed icmpv4_protocol 8 (h.view4 (head ++ body))
unfolding parse_echo_request
echo_request_view4 h head body s = rw s.shape (rw s.version_eq refl)

echo_request_view6 :
    (h : Headers) (head body : List ℕ)
    → Starts 6 head
    → parse_echo_request h (head ++ body) ≡ viewed icmpv6_protocol 128 (h.view6 (head ++ body))
unfolding parse_echo_request
echo_request_view6 h head body s = rw s.shape (rw s.version_eq refl)

viewed_whole :
    (protocol type : ℕ) (src dst : Addr) (body : List ℕ) (m : Icmp)
    → icmp_of body ≡ some m
    → m.type ≡ type
    → m.code ≡ 0
    → viewed protocol type (
        some (record {
          src = src;
          dst = dst;
          protocol = protocol;
          ttl = default_ttl;
          whole = true;
          body = body;
        }))
      ≡ some (
        record { dst = dst; ident = m.ident },
        record { src = src; seq = m.seq; ttl = default_ttl; payload = m.payload },
      )
viewed_whole protocol type src dst body m e t c =
    rw (==_refl protocol, e) (rw (t, c, ==_refl type) refl)

-- The request of the flow, as the pump captured it, but for its TTL.
abbrev pub request : Addr → Addr → ℕ → ℕ → List ℕ → Option (EchoKey × EchoRequest)
request src dst ident seq payload = some (
  record { dst = dst; ident = ident },
  record { src = src; seq = seq; ttl = default_ttl; payload = payload },
)

pub small : (n : ℕ) → n < 2 ^ 16 → n % 2 ^ 16 ≡ n
small n h = omega arith

read_ipv4 :
    (h : Headers) (m n : ℕ) (body : List ℕ)
    → IsHeaders h
    → m < 2 ^ 32
    → n < 2 ^ 32
    → 20 + length body < 2 ^ 16
    → parse_echo_request h (encode_ipv4 h (v4 m) (v4 n) icmpv4_protocol body)
      ≡ viewed icmpv4_protocol 8 (
          some (record {
            src = v4 m;
            dst = v4 n;
            protocol = icmpv4_protocol;
            ttl = default_ttl;
            whole = true;
            body = body;
          }))
unfolding encode_ipv4 unmap
read_ipv4 h m n body v a b l =
    ap (λ k. parse_echo_request h (h.encode4 (v4 m) (v4 n) icmpv4_protocol k ++ body))
      (small (20 + length body) l)
    ∙ echo_request_view4 h _ body (v.starts4 (v4 m) (v4 n) icmpv4_protocol (20 + length body))
    ∙ ap (viewed icmpv4_protocol 8) (v.read4 m n icmpv4_protocol body a b (omega arith) l)

-- An address without a zone that is not IPv4-mapped.
abbrev pub IsPlain6 : ℕ → Type 0
IsPlain6 n = (n < 2 ^ 128) × (unmap (v6 n []) ≡ v6 n [])

read_ipv6 :
    (h : Headers) (m n : ℕ) (body : List ℕ)
    → IsHeaders h
    → IsPlain6 m
    → IsPlain6 n
    → length body < 2 ^ 16
    → parse_echo_request h (encode_ipv6 h (v6 m []) (v6 n []) icmpv6_protocol body)
      ≡ viewed icmpv6_protocol 128 (
          some (record {
            src = v6 m [];
            dst = v6 n [];
            protocol = icmpv6_protocol;
            ttl = default_ttl;
            whole = true;
            body = body;
          }))
unfolding encode_ipv6
read_ipv6 h m n body v a b l =
    ap
      (λ x.
        parse_echo_request h
          (h.encode6 x (unmap (v6 n [])) icmpv6_protocol (length body % 2 ^ 16) ++ body))
      a.1
    ∙ ap
        (λ x.
          parse_echo_request h
            (h.encode6 (v6 m []) x icmpv6_protocol (length body % 2 ^ 16) ++ body))
        b.1
    ∙ ap (λ k. parse_echo_request h (h.encode6 (v6 m []) (v6 n []) icmpv6_protocol k ++ body))
        (small (length body) l)
    ∙ echo_request_view6 h _ body (v.starts6 (v6 m []) (v6 n []) icmpv6_protocol (length body))
    ∙ ap (viewed icmpv6_protocol 128) (v.read6 m n icmpv6_protocol body a.0 b.0 (omega arith) l)

-- The ends of a flow: two IPv4 addresses, or two plain IPv6 addresses.
pub data Ends : Addr → Addr → Type 0 where
  both4 : {m n : ℕ} → m < 2 ^ 32 → n < 2 ^ 32 → Ends (v4 m) (v4 n)
  both6 : {m n : ℕ} → IsPlain6 m → IsPlain6 n → Ends (v6 m []) (v6 n [])

-- The packet that the client puts into an ICMP error is, before it is cut, its own request again, but
-- for the TTL, whatever identifier the remote's socket sent it under.
pub inner_icmp-request :
    (h : Headers) (src dst : Addr) (sum own ident seq : ℕ) (payload : List ℕ)
    → IsHeaders h
    → Ends src dst
    → ident < 2 ^ 16
    → seq < 2 ^ 16
    → 28 + length payload < 2 ^ 16
    → parse_echo_request h (
        inner_icmp h src dst (
          patch_quoted_echo_ident
            (quoted (if is6 dst then 128 else 8) sum own seq payload)
            ident
            (is6 dst)))
      ≡ request src dst ident seq payload
unfolding inner_icmp
inner_icmp-request h src dst sum own ident seq payload v (both4 {m} {n} a b) i s l =
    ap (λ b. parse_echo_request h (encode_ipv4 h (v4 m) (v4 n) icmpv4_protocol b))
      (patched 8 sum own ident seq payload false refl)
    ∙ read_ipv4 h m n (quoted 8 sum ident seq payload) v a b (omega arith)
    ∙ viewed_whole icmpv4_protocol 8 (v4 m) (v4 n) (quoted 8 sum ident seq payload) _
        (read_quoted 8 sum ident seq payload i s) refl refl
inner_icmp-request h src dst sum own ident seq payload v (both6 {m} {n} a b) i s l =
    ap (λ b. parse_echo_request h (encode_ipv6 h (v6 m []) (v6 n []) icmpv6_protocol b))
      (patched 128 sum own ident seq payload true refl)
    ∙ read_ipv6 h m n (quoted 128 sum ident seq payload) v a b (omega arith)
    ∙ viewed_whole icmpv6_protocol 128 (v6 m []) (v6 n []) (quoted 128 sum ident seq payload) _
        (read_quoted 128 sum ident seq payload i s) refl refl
