-- ===== src/Mux/Control.antt =====
-- The control stream of the helper, internal/mux/server.go and quic_server.go, and the calls of the
-- client that use it.
pub mod Answered
mod Tests
use tailjump.Prelude.{
  ℕ, zero, suc, ◌+◌, ◌-◌, ◌≡◌, Bool, true, false, Option, none, some, Outcome, ok, err, wrap,
  if◌then◌else◌, List, [], ◌∷◌, ◌++◌,
}
use tailjump.Prelude.{◌^◌, ltb, leb, not}
use tailjump.Mux.Stream.{drop_cr}
use tailjump.Text.{Text, str, text_eq}
use tailjump.Text.Split.{fields}
use tailjump.Net.{Addr, as_slice}
use tailjump.Transport.Ports
use tailjump.Transport.Ports.{PortRange}
use tailjump.Transport.Controllers.{Controller}
use tailjump.Mux.Echo.{EchoSocketInfo, info_line}
use tailjump.Mux.Negotiate.{
  QuicRequest, QuicReply, RequestError, ReplyError, UnlinkError, parse_quic_request, request_line,
  reply_line, unavailable_line, unlink_line, unlink_ok, parse_unlink_reply, parse_quic_reply,
  verb_quit, verb_quic, verb_abandon, verb_icmp, verb_unlink,
}

-- The results of the helper's calls: the certificate with its fingerprint, net.ListenUDP on a port,
-- quic.Listen on the port that was bound, the removal of the helper's file where there is one, the
-- echo socket, and the texts of addresses and of errors.
pub record Sockets : Type 0 where
  pub certificate : Outcome Text Text
  pub bind : List ℕ → ℕ → Option Text
  pub listen : ℕ → Option Text
  pub unlink : Option (Option Text)
  pub echo : EchoSocketInfo
  pub ip_text : List ℕ → Text
  pub addr_text : Addr → Text
  pub parse_addr : Text → Option Addr
  pub request_text : RequestError → Text

-- The helper's QUIC listener, and whether the helper stops.
pub record Listener : Type 0 where
  pub port : ℕ
  pub controller : Controller
  pub fingerprint : Text

pub record Server : Type 0 where
  pub quic : Option Listener
  pub stopped : Bool

-- The loop of bindInRange over `n` ports from `p`, with the last error.
abbrev pub bound : ℕ → Option Text → (Text → Outcome Text ℕ) → Outcome Text ℕ
bound p none next = ok p
bound p (some e) next = next e

unfoldable pub bind_from : (ℕ → Option Text) → ℕ → ℕ → Text → Outcome Text ℕ
bind_from bind zero p last = err last
bind_from bind (suc n) p last = bound p (bind p) (λ e. bind_from bind n (p + 1) e)

unfoldable pub bind_in_range : Sockets → List ℕ → PortRange → Outcome Text ℕ
bind_in_range s ip ports =
    wrap
      (λ e.
        str "no free udp port in "
        ++ (Ports.to_string ports ++ (str " on " ++ (s.ip_text ip ++ (str ": " ++ e)))))
      (bind_from (s.bind ip) (ports.last + 1 - ports.first) ports.first (str "<nil>"))

abbrev pub listening :
    Server → QuicRequest → ℕ → Text → Option Text → Outcome Text QuicReply × Server
listening server r port fp (some e) = (err (str "listen: " ++ e), server)
listening server r port fp none = (
  ok (record { port = port; fingerprint = fp }),
  record server {
    quic = some (record { port = port; controller = r.controller; fingerprint = r.fingerprint });
  },
)

abbrev pub listen_on :
    Sockets → Server → QuicRequest → Text → Outcome Text ℕ → Outcome Text QuicReply × Server
listen_on s server r fp (err e) = (err e, server)
listen_on s server r fp (ok port) = listening server r port fp (s.listen port)

abbrev pub certified :
    Sockets → Server → QuicRequest → Outcome Text Text → Outcome Text QuicReply × Server
certified s server r (err e) = (err (str "certificate: " ++ e), server)
certified s server r (ok fp) =
    listen_on s server r fp (bind_in_range s (as_slice r.bind_addr) r.ports)

abbrev pub start_on :
    Sockets → Server → QuicRequest → Option Listener → Outcome Text QuicReply × Server
start_on s server r (some q) = (err (str "a quic listener already exists"), server)
start_on s server r none = certified s server r s.certificate

unfoldable pub start_quic : Sockets → Server → QuicRequest → Outcome Text QuicReply × Server
start_quic s server r = start_on s server r server.quic

abbrev pub stop_quic : Server → Server
stop_quic server = record server { quic = none }

abbrev pub started_line : Outcome Text QuicReply × Server → Text × Server
started_line (ok reply, server) = (reply_line reply, server)
started_line (err e, server) = (unavailable_line e, server)

abbrev pub answer_request : Sockets → Server → Outcome RequestError QuicRequest → Text × Server
answer_request s server (err e) = (unavailable_line (s.request_text e), server)
answer_request s server (ok r) = started_line (start_quic s server r)

-- The answer line and the server after it.
unfoldable pub answer_quic : Sockets → Server → List Text → Text × Server
answer_quic s server args = answer_request s server (parse_quic_request s.parse_addr args)

abbrev pub unlink_answer : Option (Option Text) → Text
unlink_answer none = unlink_line unlink_ok
unlink_answer (some none) = unlink_line unlink_ok
unlink_answer (some (some e)) = unlink_line e

unfoldable pub answer_unlink : Sockets → Text
answer_unlink s = unlink_answer s.unlink

-- One line of handleControl: the server after it, and the answer where there is one.
abbrev pub control_fields : Sockets → Server → List Text → Server × Option Text
control_fields s server [] = (server, none)
control_fields s server (verb ∷ args) =
    if text_eq verb verb_quit
    then (record (stop_quic server) { stopped = true }, none)
    else if text_eq verb verb_quic
    then (let answer = answer_quic s server args in (answer.1, some answer.0))
    else if text_eq verb verb_abandon
    then (stop_quic server, none)
    else if text_eq verb verb_icmp
    then (server, some (info_line s.echo))
    else if text_eq verb verb_unlink
    then (server, some (answer_unlink s))
    else (server, none)

unfoldable pub control_line : Sockets → Server → Text → Server × Option Text
control_line s server line = control_fields s server (fields line)

-- The bytes of a text, which is UTF-8 on the stream.
abbrev pub rune_length : ℕ → ℕ
rune_length c =
    if ltb c 128 then 1 else if ltb c (2 ^ 11) then 2 else if ltb c (2 ^ 16) then 3 else 4

unfoldable pub byte_length : Text → ℕ
byte_length [] = 0
byte_length (c ∷ s) = rune_length c + byte_length s

abbrev pub max_line_len : ℕ
max_line_len = 4096

-- readLine with maxLineLen on a line that comes with its newline; none where it is too long.
unfoldable pub read_line : Text → Option Text
read_line line = if leb (byte_length line) max_line_len then some (drop_cr line) else none

-- The loop of handleControl over the lines that the client sends.
unfoldable pub handle_control : Sockets → Server → List Text → Server × List Text
handle_control s server [] = (server, [])
handle_control s server (line ∷ lines) =
    let step = control_line s server (drop_cr line) in
    let rest = handle_control s step.0 lines in
    if not (leb (byte_length line) max_line_len)
    then (server, [])
    else if step.0.stopped
    then (step.0, [])
    else (rest.0, elim step.1 [ none ↦ rest.1 | some answer ↦ answer ∷ rest.1 ])

-- The errors of the client's control stream: of the write of the request, and of the read of the
-- answer, its deadline of quicReplyTimeout among them.
pub record Wire : Type 0 where
  pub write : Option Text
  pub read : Option Text

pub data NegotiateError : Type 0 where
  not_written not_read : Text → NegotiateError
  reply_too_long no_reply : NegotiateError
  refused : ReplyError → NegotiateError

-- NegotiateQUIC from the read of the reply on.
abbrev pub parsed_reply : Option Text → Outcome NegotiateError QuicReply
parsed_reply none = err reply_too_long
parsed_reply (some line) = wrap refused (parse_quic_reply line)

abbrev pub read_reply : Option Text → Option Text → Outcome NegotiateError QuicReply
read_reply (some e) answer = err (not_read e)
read_reply none none = err no_reply
read_reply none (some line) = parsed_reply (read_line line)

-- What the helper does with a line: it ends the control stream on one that is too long.
abbrev pub served : Sockets → Server → Option Text → Server × Option Text
served s server none = (server, none)
served s server (some line) = control_line s server line

abbrev pub negotiated :
    Sockets → Server → QuicRequest → Wire → Option Text → Outcome NegotiateError QuicReply × Server
negotiated s server r wire (some e) = (err (not_written e), server)
negotiated s server r wire none =
    let step = served s server (read_line (request_line s.addr_text r)) in
    (read_reply wire.read step.1, step.0)

-- NegotiateQUIC, over the helper at the other end of the stream.
unfoldable pub negotiate_quic :
    Sockets → Wire → Server → QuicRequest → Outcome NegotiateError QuicReply × Server
negotiate_quic s wire server r = negotiated s server r wire wire.write
