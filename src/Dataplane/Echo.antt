-- ===== src/Dataplane/Echo.antt =====
-- The echo flows of internal/dataplane/icmp.go: the pump queues requests, a goroutine of each flow
-- takes them. What a flow does that the map no longer holds changes nothing here. A flow is its key,
-- its queue and the source of the last request taken.
pub mod Bounded
mod Tests
use tailjump.Prelude.{
  ℕ, ◌==◌, Bool, true, false, ◌&&◌, ◌||◌, not, Option, none, some, if◌then◌else◌, List, [], ◌∷◌,
  ◌++◌, length, ltb,
}
use tailjump.Net.{Addr, addr_eq, invalid}
use tailjump.Dataplane.Packet.{Headers, EchoKey, EchoRequest, parse_echo_request}

abbrev pub echo_queue_len : ℕ
echo_queue_len = 64

pub record EchoFlow : Type 0 where
  pub key : EchoKey
  pub queue : List EchoRequest
  pub src : Addr

-- `set_icmp` is the ICMP of the protocol set.
pub record EchoState : Type 0 where
  pub set_icmp : Bool
  pub unsupported : Bool
  pub flows : List EchoFlow

unfoldable pub key_eq : EchoKey → EchoKey → Bool
key_eq k l = addr_eq k.dst l.dst && k.ident == l.ident

-- The send on the channel of a flow, which drops the request where the queue is full.
unfoldable pub push : EchoRequest → EchoFlow → EchoFlow
push req f =
    if ltb (length f.queue) echo_queue_len then record f { queue = f.queue ++ (req ∷ []) } else f

abbrev pub new_flow : EchoKey → EchoFlow
new_flow key = record { key = key; queue = []; src = invalid }

-- echoFlow finds or makes the flow, and captureEcho sends to it.
unfoldable pub send : EchoKey → EchoRequest → List EchoFlow → List EchoFlow
send key req [] = push req (new_flow key) ∷ []
send key req (f ∷ flows) =
    let rest = send key req flows in if key_eq f.key key then push req f ∷ flows else f ∷ rest

abbrev pub captured : EchoState → Option (EchoKey × EchoRequest) → EchoState × Bool
captured s none = (s, false)
captured s (some e) =
    if not s.set_icmp || s.unsupported
    then (s, true)
    else (record s { flows = send e.0 e.1 s.flows }, true)

-- The state after a packet of the pump, and whether it was consumed.
unfoldable pub capture_echo : Headers → List ℕ → EchoState → EchoState × Bool
capture_echo h pkt s = captured s (parse_echo_request h pkt)

-- The goroutine of a flow takes a request off the queue.
abbrev pub taken : EchoFlow → List EchoRequest → EchoFlow
taken f [] = f
taken f (req ∷ queue) = record f { queue = queue; src = req.src }

unfoldable pub take_request : EchoKey → List EchoFlow → List EchoFlow
take_request key [] = []
take_request key (f ∷ flows) =
    let rest = take_request key flows in
    if key_eq f.key key then taken f f.queue ∷ flows else f ∷ rest

unfoldable pub drop_echo_flow : EchoKey → List EchoFlow → List EchoFlow
drop_echo_flow key [] = []
drop_echo_flow key (f ∷ flows) =
    let rest = drop_echo_flow key flows in if key_eq f.key key then flows else f ∷ rest

-- What the pump and the goroutines do: a packet, a request taken, the end of a flow, the status that
-- the helper has no echo socket, and the close of the netstack.
pub data EchoEvent : Type 0 where
  packet : List ℕ → EchoEvent
  written ended : EchoKey → EchoEvent
  no_socket closed : EchoEvent

abbrev pub step : Headers → EchoEvent → EchoState → EchoState
step h (packet pkt) s = (capture_echo h pkt s).0
step h (written key) s = record s { flows = take_request key s.flows }
step h (ended key) s = record s { flows = drop_echo_flow key s.flows }
step h no_socket s = record s { unsupported = true }
step h closed s = record s { flows = [] }

unfoldable pub run : Headers → List EchoEvent → EchoState → EchoState
run h [] s = s
run h (e ∷ events) s = run h events (step h e s)
