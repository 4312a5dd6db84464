-- ===== src/Session/Types.antt =====
-- internal/session/types.go: the plan that connect hands to the session, and the session's state.
-- A time is a number of nanoseconds; a measured rate or time is a number too.
use tailjump.Prelude.{ℕ, Bool, List, Option}
use tailjump.Text.{Text}
use tailjump.Transport.Ports.{RangeError}
use tailjump.Tailnet.{ResolveError}

pub record PlanDns : Type 0 where
  pub mode : Text
  pub servers : List Text
  pub domains : List Text

pub record Plan : Type 0 where
  pub remote : Text
  pub ref : Text
  pub addr : Text
  pub user : Text
  pub networks : List Text
  pub dns : PlanDns
  pub helper_arch : Text
  pub manifest_sha256 : Text
  pub transport : Text
  pub quic_ports : Text
  pub bandwidth_up : ℕ
  pub bandwidth_down : ℕ
  pub controller : Text
  pub protocols : Text
  pub single_lane : Bool
  pub verbose : Bool
  pub reconnect_for : ℕ

pub data Status : Type 0 where
  starting up reconnecting stopping : Status

pub data TransportKind : Type 0 where
  quic ssh : TransportKind

-- Why the QUIC transport did not come up: the helper's reason, or the handshake to the port.
pub data Unavailable : Type 0 where
  refused : Text → Unavailable
  no_handshake : ℕ → Text → Unavailable

-- The errors of an attempt to open the transport. A text is the error of code outside the session.
pub data SessionError : Type 0 where
  ssh_dial manifest_fetch helper_start : Text → SessionError
  remote_changed : SessionError
  quic_ports : RangeError → SessionError
  quic_certificate quic_negotiation : Text → SessionError
  quic_unavailable : Unavailable → SessionError
  bad_server bad_dns_mode dns_change : Text → SessionError

-- The reason of a loss, or why an attempt failed.
pub data Reason : Type 0 where
  lost_by : Text → Reason
  status_error : Text → Reason
  offline : Reason
  no_peer : ResolveError → Reason
  no_address : Text → Reason
  failed : SessionError → Reason

pub record ReconnectState : Type 0 where
  pub since : ℕ
  pub attempts : ℕ
  pub reason : Reason

pub record Metrics : Type 0 where
  pub updated_at : ℕ
  pub rtt_ms : ℕ
  pub up_bytes : ℕ
  pub down_bytes : ℕ
  pub up_rate : ℕ
  pub down_rate : ℕ

-- The user, networks, DNS, start time, process and protocols of the session are left out.
pub record State : Type 0 where
  pub remote : Text
  pub ref : Text
  pub addr : Text
  pub status : Status
  pub transport : Option TransportKind
  pub quic_port : ℕ
  pub fallback : Option Unavailable
  pub lanes : Text
  pub reconnect : Option ReconnectState
  pub reconnects : ℕ
  pub metrics : Option Metrics
