-- ===== src/Mux/Frames.antt =====
-- internal/mux/frames.go: the request and reply frames of the UDP and the ICMP echo flows.
-- A decoder matches on the bytes that its length test asks for.
pub mod RoundTrip
mod Tests
use tailjump.Prelude.{ℕ, ◌+◌, ◌*◌, ◌/◌, ◌%◌, ◌^◌, Bool, true, false, ◌&&◌, ◌||◌, not, min}
use tailjump.Prelude.{List, [], ◌∷◌, ◌++◌, Option, none, some, Outcome, ok, err, ltb, ◌==◌}
use tailjump.Prelude.{if◌then◌else◌, length, take, drop}
use tailjump.Net.{Addr, unmap, as_slice, addr_from_slice}
use tailjump.Net.Bytes.{bytes_of, number_of, u16_bytes, u32_bytes, u16, u32}
use tailjump.Prelude.{◌-◌}

-- An ICMP error that the remote received for a packet of a flow.
pub record IcmpError : Type 0 where
  pub type : ℕ  -- uint8
  pub code : ℕ  -- uint8
  pub info : ℕ  -- uint32
  pub from : Addr
  pub inner : List ℕ

pub record UdpReply : Type 0 where
  pub payload : List ℕ
  pub error : Option IcmpError

-- The round-trip time is in nanoseconds, as a time.Duration is.
pub record EchoReply : Type 0 where
  pub seq : ℕ
  pub rtt : ℕ
  pub payload : List ℕ
  pub error : Option IcmpError

pub data FrameError : Type 0 where
  too_short empty_frame : FrameError
  unknown_kind bad_address_length : ℕ → FrameError

abbrev pub reply_data : ℕ
reply_data = 0

abbrev pub reply_error : ℕ
reply_error = 1

unfoldable pub encode_udp_request : ℕ → List ℕ → List ℕ
encode_udp_request ttl payload = ttl ∷ payload

unfoldable pub decode_udp_request : List ℕ → Outcome FrameError (ℕ × List ℕ)
decode_udp_request (ttl ∷ payload) = ok (ttl, payload)
decode_udp_request [] = err too_short

-- `ICMPError.append`.
unfoldable pub append_error : List ℕ → IcmpError → List ℕ
append_error buf e =
    let raw = as_slice (unmap e.from) in
    buf ++ (e.type ∷ e.code ∷ u32_bytes e.info ((length raw % 256) ∷ (raw ++ e.inner)))

unfoldable pub decode_icmp_error : List ℕ → Outcome FrameError IcmpError
decode_icmp_error (type ∷ code ∷ i0 ∷ i1 ∷ i2 ∷ i3 ∷ n ∷ rest) =
    if (not (n == 4) && not (n == 16)) || ltb (length rest) n
    then err (bad_address_length n)
    else ok (record {
      type = type;
      code = code;
      info = u32 i0 i1 i2 i3;
      from = addr_from_slice (take n rest);
      inner = drop n rest;
    })
decode_icmp_error _ = err too_short

unfoldable pub encode_udp_data : List ℕ → List ℕ
encode_udp_data payload = reply_data ∷ payload

unfoldable pub encode_udp_error : IcmpError → List ℕ
encode_udp_error e = append_error (reply_error ∷ []) e

abbrev udp_error_reply : Outcome FrameError IcmpError → Outcome FrameError UdpReply
udp_error_reply (ok e) = ok (record { payload = []; error = some e })
udp_error_reply (err x) = err x

unfoldable pub decode_udp_reply : List ℕ → Outcome FrameError UdpReply
decode_udp_reply [] = err empty_frame
decode_udp_reply (kind ∷ body) =
    if kind == reply_data
    then ok (record { payload = body; error = none })
    else if kind == reply_error
    then udp_error_reply (decode_icmp_error body)
    else err (unknown_kind kind)

unfoldable pub encode_echo_request : ℕ → ℕ → List ℕ → List ℕ
encode_echo_request seq ttl payload = u16_bytes seq (ttl ∷ payload)

unfoldable pub decode_echo_request : List ℕ → Outcome FrameError (ℕ × ℕ × List ℕ)
decode_echo_request (s0 ∷ s1 ∷ ttl ∷ payload) = ok (u16 s0 s1, ttl, payload)
decode_echo_request _ = err too_short

-- The round-trip time is sent in microseconds, cut to the largest uint32.
unfoldable pub encode_echo_data : ℕ → ℕ → List ℕ → List ℕ
encode_echo_data seq rtt payload =
    reply_data ∷ u16_bytes seq (u32_bytes (min (rtt / 1000) (2 ^ 32 - 1)) payload)

unfoldable pub encode_echo_error : IcmpError → List ℕ
encode_echo_error e = append_error (reply_error ∷ []) e

abbrev echo_data_reply : List ℕ → Outcome FrameError EchoReply
echo_data_reply (s0 ∷ s1 ∷ r0 ∷ r1 ∷ r2 ∷ r3 ∷ payload) =
    ok (record { seq = u16 s0 s1; rtt = u32 r0 r1 r2 r3 * 1000; payload = payload; error = none })
echo_data_reply _ = err too_short

abbrev echo_error_reply : Outcome FrameError IcmpError → Outcome FrameError EchoReply
echo_error_reply (ok e) = ok (record { seq = 0; rtt = 0; payload = []; error = some e })
echo_error_reply (err x) = err x

unfoldable pub decode_echo_reply : List ℕ → Outcome FrameError EchoReply
decode_echo_reply [] = err empty_frame
decode_echo_reply (kind ∷ body) =
    if kind == reply_data
    then echo_data_reply body
    else if kind == reply_error
    then echo_error_reply (decode_icmp_error body)
    else err (unknown_kind kind)
