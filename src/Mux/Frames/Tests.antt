-- ===== src/Mux/Frames/Tests.antt =====
-- Frames of the two flows, and the theorems at concrete inputs.
use tailjump.Prelude.{◌≡◌, refl, arith, [], ◌∷◌, none, some, ok, err}
use tailjump.Text.{str}
use tailjump.Net.{Addr, v6, unmap, as_slice}
use tailjump.Net.Bytes.{bytes_of}
use tailjump.Mux.Frames.{IcmpError, bad_address_length}
use tailjump.Mux.Frames.{append_error, decode_icmp_error, encode_udp_data, encode_udp_error}
use tailjump.Mux.Frames.{decode_udp_reply}
use tailjump.Mux.Frames.{encode_echo_data, encode_echo_error, decode_echo_reply}
use tailjump.Mux.Frames.RoundTrip.{sent, decode_udp_reply-encode, decode_echo_reply-encode}

abbrev loopback : Addr
loopback = v6 1 (str "eth0")

abbrev time_exceeded : IcmpError
time_exceeded = record {
  type = 3;
  code = 0;
  info = 0x01020304;
  from = loopback;
  inner = 7 ∷ 8 ∷ [];
}

-- The sender 10.0.0.1 as an IPv4-mapped IPv6 address.
abbrev mapped : IcmpError
mapped = record { type = 11; code = 0; info = 1500; from = v6 0xffff0a000001 []; inner = 9 ∷ [] }

mapped_frame : encode_udp_error mapped ≡ 1 ∷ 11 ∷ 0 ∷ 0 ∷ 0 ∷ 5 ∷ 0xdc ∷ 4 ∷ 10 ∷ 0 ∷ 0 ∷ 1 ∷ 9 ∷ []
unfolding encode_udp_error append_error unmap as_slice bytes_of
mapped_frame = refl

bad_length : decode_icmp_error (3 ∷ 1 ∷ 0 ∷ 0 ∷ 0 ∷ 0 ∷ 5 ∷ []) ≡ err (bad_address_length 5)
unfolding decode_icmp_error
bad_length = refl

decode_udp_reply-encode_example :
    (decode_udp_reply (encode_udp_data (1 ∷ [])) ≡ ok (record { payload = 1 ∷ []; error = none }))
    × (decode_udp_reply (encode_udp_error mapped)
        ≡ ok (record { payload = []; error = some (sent mapped) }))
decode_udp_reply-encode_example = decode_udp_reply-encode (1 ∷ []) mapped (omega arith) refl

decode_echo_reply-encode_example :
    (decode_echo_reply (encode_echo_data 7 1_234_567 (1 ∷ []))
      ≡ ok (record { seq = 7; rtt = 1_234_000; payload = 1 ∷ []; error = none }))
    × (decode_echo_reply (encode_echo_error time_exceeded)
        ≡ ok (record { seq = 0; rtt = 0; payload = []; error = some (sent time_exceeded) }))
decode_echo_reply-encode_example =
    decode_echo_reply-encode 7 1_234_567 (1 ∷ []) time_exceeded (omega arith) (omega arith) refl
