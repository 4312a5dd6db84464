-- ===== src/Session/Report/Tests.antt =====
-- The lines of example states, and the session that a plan asks for.
use tailjump.Prelude.{◌≡◌, refl, none, some, ok}
use tailjump.Text.{str, text_eq}
use tailjump.Text.Decimal.{decimal}
use tailjump.Session.Types.{State, ssh, no_handshake, reconnecting, up}
use tailjump.Session.Example.{first_state, example_plan}
use tailjump.Session.Report.{transport_line, already_up}

abbrev fallback_state : State
fallback_state = record first_state {
  transport = some ssh;
  fallback = some (no_handshake 7443 (str "timeout"));
  lanes = str "tcp,dns";
}

fallback_line :
    transport_line fallback_state
    ≡ str "ssh (fallback: the handshake to udp port 7443 did not complete: timeout), lanes tcp,dns"
unfolding transport_line decimal
fallback_line = refl

abbrev moved_state : State
moved_state = record first_state { addr = str "100.64.0.9"; status = reconnecting }

-- A session that moved is the plan's while it reconnects, and not when it is up.
moved_up : already_up (ok moved_state) example_plan ≡ some moved_state
unfolding already_up text_eq
moved_up = refl

moved_elsewhere : already_up (ok (record moved_state { status = up })) example_plan ≡ none
unfolding already_up text_eq
moved_elsewhere = refl
