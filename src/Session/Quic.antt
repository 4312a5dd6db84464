-- ===== src/Session/Quic.antt =====
-- internal/session/quic.go and openTransport of internal/session/run.go: the choice of the
-- transport. `D` is the type of a dialer; what the mux, the certificate and the lanes give is the
-- argument of type `Calls`.
pub mod Choice
mod Tests
use tailjump.Prelude.{ℕ, Bool, Option, none, some, Outcome, ok, err, wrap, if◌then◌else◌, ◌≡◌, refl}
use tailjump.Text.{Text, str, text_eq, is_empty}
use tailjump.Transport.{mode_auto, mode_quic, mode_ssh}
use tailjump.Transport.Ports.{PortRange, default_ports, parse_port_range}
use tailjump.Transport.Controllers.{Controller, controller_named}
use tailjump.Net.{Addr}
use tailjump.Protocols.{Set}
use tailjump.Session.Types.{
  Plan, State, TransportKind, Unavailable, SessionError, quic, ssh, refused,
}
use tailjump.Session.Lanes.{LaneSet, open_lane_set}
use tailjump.Session.Types.{quic_negotiation}
use tailjump.Session.Types.{
  bad_server, no_handshake, quic_certificate, quic_ports, quic_unavailable,
}

-- What NegotiateQUIC gives: the helper's port, its refusal, or a broken control stream.
pub data Negotiated : Type 0 where
  replied : ℕ → Negotiated
  declined broken : Text → Negotiated

-- The results of the calls of one attempt, on its own mux.
pub record Calls (D : Type 0) : Type 0 where
  pub certificate : Option Text
  pub negotiate : PortRange → Controller → Negotiated
  pub dial : ℕ → Controller → Outcome Text D
  pub open_lane : Text → Option D
  pub parse_addr : Text → Option Addr

-- dialQUIC: a client with its port, the reason there is none, or an error.
pub data Dialed (D : Type 0) : Type 0 where
  came_up : D → ℕ → Dialed D
  unavailable : Unavailable → Dialed D
  broke : SessionError → Dialed D

unfoldable pub quic_ports_of : Plan → Outcome SessionError PortRange
quic_ports_of plan =
    if is_empty plan.quic_ports
    then ok default_ports
    else wrap quic_ports (parse_port_range plan.quic_ports)

-- The transport mode; an empty value means auto.
abbrev pub mode_of : Plan → Text
mode_of plan = if is_empty plan.transport then mode_auto else plan.transport

module _ {D : Type 0} where
  abbrev pub handshake : ℕ → Outcome Text D → Dialed D
  handshake port (ok client) = came_up client port
  handshake port (err e) = unavailable (no_handshake port e)

  abbrev pub negotiated : Calls D → Controller → Negotiated → Dialed D
  negotiated calls ctl (replied port) = handshake port (calls.dial port ctl)
  negotiated calls ctl (declined reason) = unavailable (refused reason)
  negotiated calls ctl (broken e) = broke (quic_negotiation e)

  abbrev pub certified : Calls D → PortRange → Controller → Controller → Option Text → Dialed D
  certified calls ports client_ctl helper_ctl (some e) = broke (quic_certificate e)
  certified calls ports client_ctl helper_ctl none =
      negotiated calls client_ctl (calls.negotiate ports helper_ctl)

  unfoldable pub dial_quic : Calls D → PortRange → Controller → Controller → Dialed D
  dial_quic calls ports client_ctl helper_ctl =
      certified calls ports client_ctl helper_ctl calls.certificate

  -- dialQUIC with the ports and the controllers of the plan.
  abbrev pub dial_plan : Calls D → Plan → Outcome SessionError PortRange → Dialed D
  dial_plan calls plan (err e) = broke e
  dial_plan calls plan (ok ports) =
      dial_quic calls ports (controller_named plan.controller plan.bandwidth_up)
        (controller_named plan.controller plan.bandwidth_down)

  -- selectTransport after the dial, in a mode other than ssh.
  abbrev pub selected : Text → State → Dialed D → State × Outcome SessionError (Option D)
  selected mode st (broke e) = (st, err e)
  selected mode st (came_up client port) =
      (record st { transport = some quic; quic_port = port }, ok (some client))
  selected mode st (unavailable reason) =
      if text_eq mode mode_quic
      then (st, err (quic_unavailable reason))
      else (record st { transport = some ssh; fallback = some reason }, ok none)

  unfoldable pub select_transport : Calls D → Plan → State → State × Outcome SessionError (Option D)
  select_transport calls plan st =
      if text_eq (mode_of plan) mode_ssh
      then (record st { transport = some ssh }, ok none)
      else selected (mode_of plan) st (dial_plan calls plan (quic_ports_of plan))

  abbrev pub redialed : Dialed D → Outcome SessionError (D × ℕ)
  redialed (broke e) = err e
  redialed (unavailable reason) = err (quic_unavailable reason)
  redialed (came_up client port) = ok (client, port)

  unfoldable pub redial_quic : Calls D → Plan → Outcome SessionError (D × ℕ)
  redial_quic calls plan = redialed (dial_plan calls plan (quic_ports_of plan))

-- An open transport: the QUIC client, or the lanes over the primary.
pub data Carrier (D : Type 0) : Type 0 where
  on_quic : D → Carrier D
  on_ssh : LaneSet D → Carrier D

module _ {D : Type 0} where
  abbrev pub opened : State → Outcome Text (LaneSet D) → State × Outcome SessionError (Carrier D)
  opened st (ok lanes) = (st, ok (on_ssh lanes))
  opened st (err server) = (st, err (bad_server server))

  abbrev pub over_ssh : Calls D → D → Plan → Set → State → State × Outcome SessionError (Carrier D)
  over_ssh calls client plan set st =
      opened st (open_lane_set calls.open_lane calls.parse_addr client plan set)

  abbrev pub first_open :
      Calls D
      → D
      → Plan
      → Set
      → State × Outcome SessionError (Option D)
      → State × Outcome SessionError (Carrier D)
  first_open calls client plan set (st, err e) = (st, err e)
  first_open calls client plan set (st, ok (some q)) = (st, ok (on_quic q))
  first_open calls client plan set (st, ok none) = over_ssh calls client plan set st

  abbrev pub reopen_quic :
      State → Outcome SessionError (D × ℕ) → State × Outcome SessionError (Carrier D)
  reopen_quic st (err e) = (st, err e)
  reopen_quic st (ok (q, port)) = (record st { quic_port = port }, ok (on_quic q))

  -- openTransport, by the transport of the state.
  abbrev pub open_as :
      Option TransportKind
      → Calls D
      → D
      → Plan
      → Set
      → State
      → State × Outcome SessionError (Carrier D)
  open_as none calls client plan set st =
      first_open calls client plan set (select_transport calls plan st)
  open_as (some quic) calls client plan set st = reopen_quic st (redial_quic calls plan)
  open_as (some ssh) calls client plan set st = over_ssh calls client plan set st

  unfoldable pub open_transport :
      Calls D → D → Plan → Set → State → State × Outcome SessionError (Carrier D)
  open_transport calls client plan set st = open_as st.transport calls client plan set st
