-- ===== src/Mux/Negotiate.antt =====
-- internal/mux/negotiate.go: the lines of the control stream. `addr_text` is Addr.String, and
-- `parse_addr` netip.ParseAddr.
pub mod Lines
use tailjump.Prelude.{
  ℕ, Bool, true, false, ◌&&◌, ◌||◌, not, Option, none, some, Outcome, ok, err, ◌>>=◌, wrap,
  if◌then◌else◌, List, [], ◌∷◌, ◌++◌, leb, ◌==◌, length,
}
use tailjump.Text.{Text, str, text_eq, cut_prefix, is_digit}
use tailjump.Text.Space.{trim_space}
use tailjump.Text.Split.{cut, fields}
use tailjump.Text.Trim.{replace, after_verb}
use tailjump.Text.Decimal.{NumError, decimal, parse_uint}
use tailjump.Net.{Addr}
use tailjump.Transport.Ports
use tailjump.Transport.Ports.{PortRange, RangeError, parse_port_range}
use tailjump.Transport.Controllers
use tailjump.Transport.Controllers.{Controller, ControllerError, parse_controller}

-- The verbs of the control stream.
abbrev pub verb_quit : Text
verb_quit = str "quit"

abbrev pub verb_quic : Text
verb_quic = str "quic"

abbrev pub verb_unavailable : Text
verb_unavailable = str "quic-unavailable"

abbrev pub verb_abandon : Text
verb_abandon = str "quic-abandon"

abbrev pub verb_icmp : Text
verb_icmp = str "icmp"

abbrev pub verb_unlink : Text
verb_unlink = str "unlink"

pub record QuicRequest : Type 0 where
  pub bind_addr : Addr
  pub ports : PortRange
  pub controller : Controller
  pub fingerprint : Text

pub record QuicReply : Type 0 where
  pub port : ℕ
  pub fingerprint : Text

pub data RequestError : Type 0 where
  request_fields : ℕ → RequestError
  bad_bind_addr : Text → RequestError
  bad_ports : RangeError → RequestError
  bad_controller : ControllerError → RequestError
  bad_fingerprint : RequestError

pub data ReplyError : Type 0 where
  unavailable : Text → ReplyError
  reply_fields : ℕ → ReplyError
  bad_port : Text → ReplyError
  bad_reply_fingerprint : ReplyError
  unexpected : Text → ReplyError

abbrev pub fingerprint_prefix : Text
fingerprint_prefix = str "sha256:"

abbrev is_hex : ℕ → Bool
is_hex c = is_digit c || (leb b'a' c && leb c b'f')

abbrev all_hex : Text → Bool
all_hex [] = true
all_hex (c ∷ s) = is_hex c && all_hex s

-- checkFingerprint gives no error. A length in bytes is one in runes here, where every rune must be
-- a hex digit.
unfoldable pub check_fingerprint : Text → Bool
check_fingerprint s =
    let hex = cut_prefix s fingerprint_prefix in hex.1 && (length hex.0 == 64 && all_hex hex.0)

abbrev pub parsed_addr : Text → Option Addr → Outcome RequestError Addr
parsed_addr s none = err (bad_bind_addr s)
parsed_addr s (some a) = ok a

-- parseQUICRequest on four fields.
abbrev pub request_of :
    (Text → Option Addr) → Text → Text → Text → Text → Outcome RequestError QuicRequest
request_of parse_addr bind ports controller fingerprint =
    parsed_addr bind (parse_addr bind) >>= λ a. wrap bad_ports (parse_port_range ports) >>= λ range.
    wrap bad_controller (parse_controller controller) >>= λ c.
    if check_fingerprint fingerprint
    then ok (record { bind_addr = a; ports = range; controller = c; fingerprint = fingerprint })
    else err bad_fingerprint

unfoldable pub parse_quic_request :
    (Text → Option Addr) → List Text → Outcome RequestError QuicRequest
parse_quic_request parse_addr (bind ∷ ports ∷ controller ∷ fingerprint ∷ []) =
    request_of parse_addr bind ports controller fingerprint
parse_quic_request parse_addr [] = err (request_fields 0)
parse_quic_request parse_addr (a ∷ []) = err (request_fields 1)
parse_quic_request parse_addr (a ∷ b ∷ []) = err (request_fields 2)
parse_quic_request parse_addr (a ∷ b ∷ c ∷ []) = err (request_fields 3)
parse_quic_request parse_addr (a ∷ b ∷ c ∷ d ∷ e ∷ l) =
    err (request_fields (length (a ∷ b ∷ c ∷ d ∷ e ∷ l)))

-- The lines without their newline.
unfoldable pub request_line : (Addr → Text) → QuicRequest → Text
request_line addr_text r =
    verb_quic
    ++ (b' '
        ∷ (addr_text r.bind_addr
            ++ (b' '
                ∷ (Ports.to_string r.ports
                    ++ (b' ' ∷ (Controllers.to_string r.controller ++ (b' ' ∷ r.fingerprint)))))))

unfoldable pub reply_line : QuicReply → Text
reply_line r = verb_quic ++ (b' ' ∷ (decimal r.port ++ (b' ' ∷ r.fingerprint)))

unfoldable pub unavailable_line : Text → Text
unavailable_line reason = verb_unavailable ++ (b' ' ∷ replace b'\n' b' ' reason)

abbrev pub unlink_ok : Text
unlink_ok = str "ok"

unfoldable pub unlink_line : Text → Text
unlink_line result = verb_unlink ++ (b' ' ∷ replace b'\n' b' ' result)

-- What the client makes of the answer to unlink: none is no error.
pub data UnlinkError : Type 0 where
  unlink_failed unexpected_line : Text → UnlinkError

unfoldable pub parse_unlink_reply : Text → Option UnlinkError
parse_unlink_reply line =
    let parts = after_verb line in
    let rest = trim_space parts.1 in
    if not (text_eq parts.0 verb_unlink)
    then some (unexpected_line line)
    else if text_eq rest unlink_ok
    then none
    else some (unlink_failed rest)

abbrev pub reply_port : Text → Text → Outcome NumError ℕ → Outcome ReplyError QuicReply
reply_port s fingerprint (err e) = err (bad_port s)
reply_port s fingerprint (ok port) =
    if port == 0
    then err (bad_port s)
    else if check_fingerprint fingerprint
    then ok (record { port = port; fingerprint = fingerprint })
    else err bad_reply_fingerprint

abbrev pub reply_of : List Text → Outcome ReplyError QuicReply
reply_of (port ∷ fingerprint ∷ []) = reply_port port fingerprint (parse_uint 16 port)
reply_of [] = err (reply_fields 0)
reply_of (a ∷ []) = err (reply_fields 1)
reply_of (a ∷ b ∷ c ∷ l) = err (reply_fields (length (a ∷ b ∷ c ∷ l)))

unfoldable pub parse_quic_reply : Text → Outcome ReplyError QuicReply
parse_quic_reply line =
    let parts = after_verb line in
    if text_eq parts.0 verb_unavailable
    then err (unavailable (trim_space parts.1))
    else if text_eq parts.0 verb_quic
    then reply_of (fields parts.1)
    else err (unexpected line)
