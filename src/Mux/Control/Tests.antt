-- ===== src/Mux/Control/Tests.antt =====
-- A helper whose first port is taken, and the theorems at it.
use tailjump.Prelude.{
  ◌==◌, ◌≡◌, refl, true, false, none, some, ok, err, [], arith, if◌then◌else◌, inl,
}
use tailjump.Text.{Text, str, text_eq}
use tailjump.Text.Decimal.{decimal}
use tailjump.Transport.Ports
use tailjump.Transport.Controllers
use tailjump.Text.Space.{is_space}
use tailjump.Prelude.{subst, ok-injective}
use tailjump.Net.{v4, as_slice}
use tailjump.Transport.Controllers.{bbr}
use tailjump.Mux.Echo.{socket_raw}
use tailjump.Mux.Negotiate.{QuicRequest, check_fingerprint}
use tailjump.Mux.Negotiate.Lines.{IsRequest}
use tailjump.Mux.Control.{Sockets, Server, bind_from, bind_in_range, start_quic, negotiate_quic}
use tailjump.Mux.Control.Answered.{IsFirst, bind_in_range-IsFirst, learned, negotiate_quic-answered}
use tailjump.Prelude.{ℕ, zero, suc, ◌∷◌}
use tailjump.Text.Trim.{replace}
use tailjump.Mux.Negotiate.{request_line, unavailable_line}
use tailjump.Mux.Control.{Wire, byte_length, reply_too_long}

abbrev fingerprint : Text
fingerprint = str "sha256:0123456789abcdef0123456789abcdef0123456789abcdef0123456789abcdef"

abbrev helper : Sockets
helper = record {
  certificate = ok fingerprint;
  bind = λ ip p. if p == 7443 then some (str "address already in use") else none;
  listen = λ p. none;
  unlink = none;
  echo = record { socket = socket_raw; ping_group_range = [] };
  ip_text = λ ip. str "100.64.0.1";
  addr_text = λ a. str "100.64.0.1";
  parse_addr = λ s. some (v4 0x64400001);
  request_text = λ e. [];
}

abbrev idle : Server
idle = record { quic = none; stopped = false }

abbrev request : QuicRequest
request = record {
  bind_addr = v4 0x64400001;
  ports = record { first = 7443; last = 7452 };
  controller = record { name = bbr; bps = 0 };
  fingerprint = fingerprint;
}

fingerprint_valid : check_fingerprint fingerprint ≡ true
unfolding check_fingerprint
fingerprint_valid = refl

second_port : bind_in_range helper (as_slice request.bind_addr) request.ports ≡ ok 7444
unfolding bind_in_range bind_from
second_port = refl

bind_in_range-IsFirst_example : IsFirst (helper.bind (as_slice request.bind_addr)) 10 7443 7444
bind_in_range-IsFirst_example =
    bind_in_range-IsFirst helper (as_slice request.bind_addr) request.ports 7444 second_port

request-IsRequest : IsRequest helper.addr_text helper.parse_addr request
unfolding is_space
request-IsRequest = record {
  addr_word = (refl, (refl, (refl, (refl, (refl, (refl, (refl, (refl, (refl, (refl, tt))))))))));
  addr_read = refl;
  ports = record { positive = omega arith; ordered = omega arith; fits = omega arith };
  controller = inl refl;
  fingerprint = fingerprint_valid;
}

abbrev quiet : Wire
quiet = record { write = none; read = none }

fp_valid : (fp : Text) → helper.certificate ≡ ok fp → check_fingerprint fp ≡ true
fp_valid fp h =
    subst (λ t. check_fingerprint t ≡ true) (ok-injective fingerprint fp h) fingerprint_valid

negotiate_quic-answered_example :
    negotiate_quic helper quiet idle request
    ≡ (learned none (start_quic helper idle request).0, (start_quic helper idle request).1)
unfolding request_line byte_length Ports.to_string decimal Controllers.to_string text_eq
negotiate_quic-answered_example =
    negotiate_quic-answered helper quiet idle request request-IsRequest fp_valid refl (omega arith)

-- A reason of more than 4096 bytes does not arrive.
abbrev long : ℕ → Text
long zero = []
long (suc n) = b'x' ∷ long n

too_long : learned none (err (long 4096)) ≡ err reply_too_long
unfolding unavailable_line byte_length replace
too_long = refl

-- A helper that listens already.
twice :
    (start_quic helper
      (record idle {
        quic =
            some
              (record { port = 7444; controller = request.controller; fingerprint = fingerprint });
      })
      request).0
    ≡ err (str "a quic listener already exists")
unfolding start_quic
twice = refl
