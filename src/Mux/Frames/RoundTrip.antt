-- ===== src/Mux/Frames/RoundTrip.antt =====
-- The decoders read back what the encoders wrote, and accept nothing else.
use tailjump.Prelude.{ℕ, ◌-◌, ◌*◌, ◌/◌, ◌%◌, ◌^◌, ◌<◌, ◌≡◌, refl, ◌∙◌, arith, true, false}
use tailjump.Prelude.{List, [], ◌∷◌, ◌++◌, none, some, ok, ◌⊎◌, min}
use tailjump.Prelude.{length, length-append, take-append, drop-append, ◌&&◌, ◌||◌, not, ltb, ◌==◌}
use tailjump.Net.{IsAddr, is_set, unmap, as_slice, addr_from_slice, on_wire}
use tailjump.Net.{addr_from_slice-as_slice, length-as_slice, is_set-unmap}
use tailjump.Net.Bytes.{IsBytes, u32_bytes, u32}
use tailjump.Mux.Frames.{IcmpError}
use tailjump.Mux.Frames.{encode_udp_request, decode_udp_request, append_error, decode_icmp_error}
use tailjump.Mux.Frames.{encode_udp_data, encode_udp_error, decode_udp_reply, encode_echo_request}
use tailjump.Mux.Frames.{
  decode_echo_request, encode_echo_data, encode_echo_error, decode_echo_reply,
}

-- The fields are in the range of their types.
pub record IsError (e : IcmpError) : Type 0 where
  pub type_byte : e.type < 256
  pub code_byte : e.code < 256
  pub info_word : e.info < 2 ^ 32
  pub from_addr : IsAddr e.from

-- What is left of an error on the wire: the sender is unmapped and has no zone.
abbrev pub sent : IcmpError → IcmpError
sent e = record e { from = on_wire e.from }

-- The test of the address length passes, for 4 and for 16 bytes that are there.
length_test :
    (raw inner : List ℕ)
    → (length raw ≡ 4) ⊎ (length raw ≡ 16)
    → ((not (length raw % 256 == 4) && not (length raw % 256 == 16))
        || ltb (length (raw ++ inner)) (length raw % 256))
      ≡ false
length_test raw inner h = ground (arith, length-append raw inner)

decode_bytes :
    (type code info : ℕ) (raw inner : List ℕ)
    → info < 2 ^ 32
    → (length raw ≡ 4) ⊎ (length raw ≡ 16)
    → decode_icmp_error (type ∷ code ∷ u32_bytes info ((length raw % 256) ∷ (raw ++ inner)))
      ≡ ok (record {
        type = type;
        code = code;
        info = info;
        from = addr_from_slice raw;
        inner = inner;
      })
unfolding decode_icmp_error
decode_bytes type code info raw inner hi h =
    rw (length_test raw inner h, small, word, take-append raw inner, drop-append raw inner)
  where
    small : length raw % 256 ≡ length raw
    small = omega arith

    word : u32 (info / 2 ^ 24 % 256) (info / 2 ^ 16 % 256) (info / 2 ^ 8 % 256) (info % 256) ≡ info
    word = omega arith

decode-append :
    (e : IcmpError)
    → IsError e
    → is_set e.from ≡ true
    → decode_icmp_error (append_error [] e) ≡ ok (sent e)
unfolding append_error
decode-append e v s =
    decode_bytes e.type e.code e.info (as_slice (unmap e.from)) e.inner v.info_word
      (length-as_slice (unmap e.from) (is_set-unmap e.from ∙ s))
    ∙ rw (addr_from_slice-as_slice e.from v.from_addr)

append_error_kind : (e : IcmpError) → append_error (1 ∷ []) e ≡ 1 ∷ append_error [] e
unfolding append_error
append_error_kind e = refl

-- A datagram and an ICMP error come out of their reply frames: the datagram whole, and the error
-- with its sender unmapped and without a zone. An error needs a sender.
pub decode_udp_reply-encode :
    (payload : List ℕ) (e : IcmpError)
    → IsError e
    → is_set e.from ≡ true
    → (decode_udp_reply (encode_udp_data payload) ≡ ok (record { payload = payload; error = none }))
      × (decode_udp_reply (encode_udp_error e)
          ≡ ok (record { payload = []; error = some (sent e) }))
unfolding decode_udp_reply encode_udp_data encode_udp_error
decode_udp_reply-encode payload e v s = (refl, rw (append_error_kind e, decode-append e v s))

-- An echo reply comes out with its time cut to whole microseconds and to the largest uint32 of
-- them, and an error as on a UDP flow.
pub decode_echo_reply-encode :
    (seq rtt : ℕ) (payload : List ℕ) (e : IcmpError)
    → seq < 2 ^ 16
    → IsError e
    → is_set e.from ≡ true
    → (decode_echo_reply (encode_echo_data seq rtt payload)
        ≡ ok (record {
          seq = seq;
          rtt = min (rtt / 1000) (2 ^ 32 - 1) * 1000;
          payload = payload;
          error = none;
        }))
      × (decode_echo_reply (encode_echo_error e)
          ≡ ok (record { seq = 0; rtt = 0; payload = []; error = some (sent e) }))
unfolding decode_echo_reply encode_echo_data encode_echo_error
decode_echo_reply-encode seq rtt payload e h v s =
    (ground arith, rw (append_error_kind e, decode-append e v s))

-- A UDP request comes out of its frame as it went in, and a frame that the decoder accepts is the
-- one that the encoder writes for what was read.
pub udp_request_bijection :
    (ttl : ℕ) (payload frame : List ℕ)
    → (decode_udp_request (encode_udp_request ttl payload) ≡ ok (ttl, payload))
      × (decode_udp_request frame ≡ ok (ttl, payload) → encode_udp_request ttl payload ≡ frame)
unfolding decode_udp_request encode_udp_request
udp_request_bijection ttl payload [] = (refl, λ h. cc)
udp_request_bijection ttl payload (b ∷ frame) = (refl, λ h. ground arith)

echo_request_back :
    (seq ttl : ℕ) (payload frame : List ℕ)
    → IsBytes frame
    → decode_echo_request frame ≡ ok (seq, ttl, payload)
    → encode_echo_request seq ttl payload ≡ frame
unfolding decode_echo_request encode_echo_request
echo_request_back seq ttl payload (a ∷ b ∷ c ∷ frame) h e = ground arith
echo_request_back seq ttl payload _ h e = cc

-- An echo request with a uint16 sequence number comes out of its frame as it went in, and a frame
-- of bytes that the decoder accepts is the one that the encoder writes for what was read.
pub echo_request_bijection :
    (seq ttl : ℕ) (payload frame : List ℕ)
    → seq < 2 ^ 16
    → IsBytes frame
    → (decode_echo_request (encode_echo_request seq ttl payload) ≡ ok (seq, ttl, payload))
      × (decode_echo_request frame ≡ ok (seq, ttl, payload)
          → encode_echo_request seq ttl payload ≡ frame)
echo_request_bijection seq ttl payload frame h b = (
  unfold decode_echo_request encode_echo_request in ground arith,
  echo_request_back seq ttl payload frame b,
)
