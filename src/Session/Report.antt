-- ===== src/Session/Report.antt =====
-- What tj status and tj connect read from the state: TransportLine of internal/session/status.go and
-- alreadyUp of internal/session/connect.go.
mod Tests
use tailjump.Prelude.{
  ℕ, Bool, true, false, ◌&&◌, not, List, [], ◌∷◌, ◌++◌, Option, none, some, Outcome, ok, err,
  if◌then◌else◌,
}
use tailjump.Text.{Text, str, text_eq, is_empty}
use tailjump.Text.Decimal.{decimal}
use tailjump.Session.Types.{
  Plan, State, Status, TransportKind, Unavailable, quic, ssh, refused, no_handshake, reconnecting,
}

-- The text of a fallback reason.
abbrev pub unavailable_text : Unavailable → Text
unavailable_text (refused reason) = reason
unavailable_text (no_handshake port e) =
    str "the handshake to udp port " ++ (decimal port ++ (str " did not complete: " ++ e))

abbrev pub fallback_part : Text → Text
fallback_part reason = if is_empty reason then [] else str " (fallback: " ++ (reason ++ str ")")

abbrev pub fallback_text : Option Unavailable → Text
fallback_text none = []
fallback_text (some reason) = unavailable_text reason

abbrev pub lanes_part : Text → Text
lanes_part lanes = if is_empty lanes then [] else str ", lanes " ++ lanes

abbrev pub line_of : Option TransportKind → State → Text
line_of (some quic) st = str "quic (port " ++ (decimal st.quic_port ++ str ")")
line_of (some ssh) st =
    str "ssh" ++ (fallback_part (fallback_text st.fallback) ++ lanes_part st.lanes)
line_of none st = str "unknown"

unfoldable pub transport_line : State → Text
transport_line st = line_of st.transport st

abbrev pub is_reconnecting : Status → Bool
is_reconnecting reconnecting = true
is_reconnecting _ = false

abbrev pub same_session : Plan → State → Option State
same_session plan st =
    if text_eq st.addr plan.addr
    then some st
    else if is_reconnecting st.status && not (is_empty st.ref) && text_eq st.ref plan.ref
    then some st
    else none

-- alreadyUp, from what ReadState gives.
unfoldable pub already_up : Outcome Text State → Plan → Option State
already_up (err e) plan = none
already_up (ok st) plan = same_session plan st
