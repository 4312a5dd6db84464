-- ===== src/Dataplane/Packet/Quoted.antt =====
-- What the application that sent a request reads in an ICMP error packet of the client.
use tailjump.Prelude.{
  ℕ, zero, suc, ◌+◌, ◌/◌, ◌^◌, ◌≤◌, ◌<◌, ◌≡◌, ◌==◌, ◌&&◌, refl, ap, ◌∙◌, true, false, Option, none,
  some, if◌then◌else◌, List, [], ◌∷◌, ◌++◌, length, length-append, take, drop, arith,
}
use tailjump.Net.{Addr, v4, v6, is4, is6, unmap}
use tailjump.Net.Bytes.{u32_bytes}
use tailjump.Dataplane.Packet.{
  Headers, View, encode_ipv4, encode_ipv6, build_icmp_error, inner_icmp, patch_quoted_echo_ident,
  parse_echo_request, icmpv4_protocol, icmpv6_protocol, summed,
}
use tailjump.Dataplane.Packet.Built.{
  IsHeaders, Starts, Ends, both4, both6, IsPlain6, quoted, request, small, patched,
  inner_icmp-request,
}

-- The packet that an ICMP error quotes stands behind the eight bytes of its ICMP header.
abbrev quoted_body : ℕ → Option View → Option (List ℕ)
quoted_body protocol none = none
quoted_body protocol (some v) =
    if v.protocol == protocol && v.whole then some (drop 8 v.body) else none

unfoldable pub quoted_packet : Headers → List ℕ → Option (List ℕ)
quoted_packet h [] = none
quoted_packet h (b ∷ rest) =
    if b / 16 == 4
    then quoted_body icmpv4_protocol (h.view4 (b ∷ rest))
    else if b / 16 == 6
    then quoted_body icmpv6_protocol (h.view6 (b ∷ rest))
    else none

take_all : (n : ℕ) (l : List ℕ) → length l ≤ n → take n l ≡ l
take_all zero [] h = refl
take_all (suc n) [] h = refl
take_all zero (x ∷ l) h = absurd (omega (arith, h))
take_all (suc n) (x ∷ l) h = ap (λ l. x ∷ l) (take_all n l (omega (arith, h)))

-- A packet of each family with a body reads as its body.
seen4 :
    (h : Headers) (m n : ℕ) (body : List ℕ)
    → IsHeaders h
    → m < 2 ^ 32
    → n < 2 ^ 32
    → 20 + length body < 2 ^ 16
    → quoted_packet h (encode_ipv4 h (v4 m) (v4 n) icmpv4_protocol body) ≡ some (drop 8 body)
unfolding encode_ipv4 unmap quoted_packet
seen4 h m n body v a b l =
    ap (λ k. quoted_packet h (h.encode4 (v4 m) (v4 n) icmpv4_protocol k ++ body))
      (small (20 + length body) l)
    ∙ version (v.starts4 (v4 m) (v4 n) icmpv4_protocol (20 + length body))
    ∙ ap (quoted_body icmpv4_protocol) (v.read4 m n icmpv4_protocol body a b (omega arith) l)
  where
    version :
        {head : List ℕ}
        → Starts 4 head
        → quoted_packet h (head ++ body) ≡ quoted_body icmpv4_protocol (h.view4 (head ++ body))
    version s = rw s.shape (rw s.version_eq refl)

seen6 :
    (h : Headers) (m n : ℕ) (body : List ℕ)
    → IsHeaders h
    → IsPlain6 m
    → IsPlain6 n
    → length body < 2 ^ 16
    → quoted_packet h (encode_ipv6 h (v6 m []) (v6 n []) icmpv6_protocol body) ≡ some (drop 8 body)
unfolding encode_ipv6 quoted_packet
seen6 h m n body v a b l =
    (λ i.
      quoted_packet h (h.encode6 (a.1 i) (b.1 i) icmpv6_protocol (small (length body) l i) ++ body))
    ∙ version (v.starts6 (v6 m []) (v6 n []) icmpv6_protocol (length body))
    ∙ ap (quoted_body icmpv6_protocol) (v.read6 m n icmpv6_protocol body a.0 b.0 (omega arith) l)
  where
    version :
        {head : List ℕ}
        → Starts 6 head
        → quoted_packet h (head ++ body) ≡ quoted_body icmpv6_protocol (h.view6 (head ++ body))
    version s = rw s.shape (rw s.version_eq refl)

-- An error packet quotes what it was given, up to 548 bytes on IPv4 and 1232 on IPv6.
build_icmp_error-quoted :
    (h : Headers) (type code info : ℕ) (from to : Addr) (raw inner : List ℕ)
    → IsHeaders h
    → Ends from to
    → length inner ≤ (if is4 to then 548 else 1232)
    → quoted_packet h (
        build_icmp_error h
          (record { type = type; code = code; info = info; from = from; inner = raw })
          to
          inner)
      ≡ some inner
unfolding build_icmp_error
build_icmp_error-quoted h type code info from to raw inner v (both4 {m} {n} a b) l =
    rw (take_all 548 inner l)
      (seen4 h m n (summed h.checksum4 type code (u32_bytes info inner)) v a b (omega (arith, l)))
build_icmp_error-quoted h type code info from to raw inner v (both6 {m} {n} a b) l =
    rw (take_all 1232 inner l) (
      seen6 h m n
        (summed (h.checksum6 (unmap (v6 m [])) (unmap (v6 n []))) type code (u32_bytes info inner))
        v a b (omega (arith, l)))

-- The length of the packet that is quoted.
length-inner :
    (h : Headers) (src dst : Addr) (sum own ident seq : ℕ) (payload : List ℕ)
    → IsHeaders h
    → Ends src dst
    → length (
        inner_icmp h src dst (
          patch_quoted_echo_ident
            (quoted (if is6 dst then 128 else 8) sum own seq payload)
            ident
            (is6 dst)))
      ≡ (if is4 src then 28 else 48) + length payload
unfolding inner_icmp encode_ipv4 encode_ipv6
length-inner h src dst sum own ident seq payload v (both4 {m} {n} a b) =
    rw (patched 8 sum own ident seq payload false refl)
      (length-append (h.encode4 _ _ _ _) _ ∙ rw (v.length4 _ _ _ _) (omega arith))
length-inner h src dst sum own ident seq payload v (both6 {m} {n} a b) =
    rw (patched 128 sum own ident seq payload true refl)
      (length-append (h.encode6 _ _ _ _) _ ∙ rw (v.length6 _ _ _ _) (omega arith))

fits :
    (src dst : Addr) (n p : ℕ)
    → Ends src dst
    → n ≡ (if is4 src then 28 else 48) + p
    → p ≤ (if is4 src then 520 else 1184)
    → n ≤ (if is4 src then 548 else 1232)
fits src dst n p (both4 a b) e l = omega (arith, e, l)
fits src dst n p (both6 a b) e l = omega (arith, e, l)

short :
    (src dst : Addr) (p : ℕ) → Ends src dst → p ≤ (if is4 src then 520 else 1184) → 28 + p < 2 ^ 16
short src dst p (both4 a b) l = omega (arith, l)
short src dst p (both6 a b) l = omega (arith, l)

-- The ICMP error packet of the client, from a hop to the source of a request, quotes a packet in which
-- the application reads its own request again: its addresses, its identifier, its sequence and its
-- payload, with the TTL 64, whatever identifier the remote's socket sent it under. The payload has at
-- most 520 bytes on IPv4 and 1184 on IPv6, so that the packet is not cut.
pub build_icmp_error-request :
    (h : Headers) (type code info : ℕ) (from src dst : Addr) (raw : List ℕ) (sum own ident seq : ℕ)
    (payload : List ℕ)
    → IsHeaders h
    → Ends from src
    → Ends src dst
    → ident < 2 ^ 16
    → seq < 2 ^ 16
    → length payload ≤ (if is4 src then 520 else 1184)
    → (inner : List ℕ) × (quoted_packet h (
          build_icmp_error h
            (record { type = type; code = code; info = info; from = from; inner = raw })
            src
            (inner_icmp h src dst (
              patch_quoted_echo_ident
                (quoted (if is6 dst then 128 else 8) sum own seq payload)
                ident
                (is6 dst))))
        ≡ some inner)
      × (parse_echo_request h inner ≡ request src dst ident seq payload)
build_icmp_error-request h type code info from src dst raw sum own ident seq payload v hop ends i s
      l =
    (
      _,
      build_icmp_error-quoted h type code info from src raw _ v hop (
          fits src dst _ (length payload) ends
            (length-inner h src dst sum own ident seq payload v ends) l),
      inner_icmp-request h src dst sum own ident seq payload v ends i s
          (short src dst (length payload) ends l),
    )
