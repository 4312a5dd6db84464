-- ===== src/Session/Quic/Tests.antt =====
-- The choice of the transport in the example session, and the theorems at concrete inputs.
use tailjump.Prelude.{◌≡◌, refl, some, ok}
use tailjump.Text.{str, text_eq}
use tailjump.Session.Types.{State, quic}
use tailjump.Session.Example.{example_plan, example_set, first_state, calls, blocked_calls}
use tailjump.Session.Quic.{open_transport, on_quic}
use tailjump.Session.Quic.Choice.{Keeps, Records, open_transport-Keeps, open_transport-Records}
use tailjump.Session.Quic.{dial_quic, redial_quic, select_transport}
use tailjump.Session.Quic.{quic_ports_of}

abbrev quic_state : State
quic_state = record first_state { transport = some quic; quic_port = 7450 }

-- A first connect in the mode auto takes QUIC, and a reconnect takes the port of the new helper.
first_quic :
    open_transport calls 0 example_plan example_set first_state
    ≡ (record first_state { transport = some quic; quic_port = 7443 }, ok (on_quic 9))
unfolding open_transport select_transport dial_quic quic_ports_of text_eq
first_quic = refl

again_quic :
    open_transport calls 0 example_plan example_set quic_state
    ≡ (record quic_state { quic_port = 7443 }, ok (on_quic 9))
unfolding open_transport redial_quic dial_quic quic_ports_of
again_quic = refl

open_transport-Keeps_example :
    Keeps quic quic_state
      (open_transport blocked_calls 0 example_plan example_set quic_state).0
      (open_transport blocked_calls 0 example_plan example_set quic_state).1
open_transport-Keeps_example =
    open_transport-Keeps blocked_calls 0 example_plan example_set quic_state quic refl

open_transport-Records_example :
    Records (str "auto") (open_transport calls 0 example_plan example_set first_state)
open_transport-Records_example =
    open_transport-Records calls 0 example_plan example_set first_state refl
