-- ===== src/Session/Quic/Choice.antt =====
-- The transport that a session takes, and that it keeps.
use tailjump.Prelude.{
  ℕ, Bool, true, false, not, Option, none, some, Outcome, ok, err, ◌≡◌, refl, ap,
}
use tailjump.Text.{Text, text_eq}
use tailjump.Net.{Addr}
use tailjump.Transport.{mode_quic, mode_ssh}
use tailjump.Protocols.{Set}
use tailjump.Session.Types.{Plan, State, TransportKind, Unavailable, SessionError, quic, ssh}
use tailjump.Session.Lanes.{LaneSet, open_lane_set, plan_servers}
use tailjump.Session.Lanes.Routing.{open_lane_set-Routes}
use tailjump.Session.Quic.{Calls, Carrier, Dialed, came_up, unavailable, broke, on_quic, on_ssh}
use tailjump.Session.Quic.{open_transport, open_as, select_transport, redial_quic, quic_ports_of}
use tailjump.Session.Quic.{selected, first_open, reopen_quic, opened, dial_plan, mode_of}
use tailjump.Prelude.{List}
use tailjump.Text.{text_eq_iff}

-- Whether a mode allows a transport.
abbrev pub allowed : Text → TransportKind → Bool
allowed mode quic = not (text_eq mode mode_ssh)
allowed mode ssh = not (text_eq mode mode_quic)

ssh_not_quic : (mode : Text) → text_eq mode mode_ssh ≡ true → text_eq mode mode_quic ≡ false
unfolding text_eq
ssh_not_quic mode h = rw ((text_eq_iff mode mode_ssh).0 h) refl

module _ {D : Type 0} where
  -- The transport of the carrier.
  abbrev pub kind_of : Carrier D → TransportKind
  kind_of (on_quic q) = quic
  kind_of (on_ssh lanes) = ssh

  -- A result that keeps the transport `k`: the state changes in its port at most.
  abbrev pub Keeps : TransportKind → State → State → Outcome SessionError (Carrier D) → Type 0
  Keeps k st st' (err e) = st' ≡ record st { quic_port = st'.quic_port }
  Keeps k st st' (ok c) = (st' ≡ record st { quic_port = st'.quic_port }) × (kind_of c ≡ k)

  reopen-Keeps :
      (st : State) (r : Outcome SessionError (D × ℕ))
      → Keeps quic st (reopen_quic st r).0 (reopen_quic st r).1
  reopen-Keeps st (err e) = refl
  reopen-Keeps st (ok (q, port)) = (refl, refl)

  opened-Keeps :
      (st : State) (r : Outcome Text (LaneSet D)) → Keeps ssh st (opened st r).0 (opened st r).1
  opened-Keeps st (ok lanes) = (refl, refl)
  opened-Keeps st (err server) = refl

  open_as-Keeps :
      (calls : Calls D) (client : D) (plan : Plan) (set : Set) (st : State) (k : TransportKind)
      → Keeps k st
          (open_as (some k) calls client plan set st).0
          (open_as (some k) calls client plan set st).1
  open_as-Keeps calls client plan set st quic = reopen-Keeps st (redial_quic calls plan)
  open_as-Keeps calls client plan set st ssh =
      opened-Keeps st (open_lane_set calls.open_lane calls.parse_addr client plan set)

  open_transport-as :
      (calls : Calls D) (client : D) (plan : Plan) (set : Set) (st : State)
      (k : Option TransportKind)
      → st.transport ≡ k
      → open_transport calls client plan set st ≡ open_as k calls client plan set st
  unfolding open_transport
  open_transport-as calls client plan set st k h = ap (λ t. open_as t calls client plan set st) h

  -- Once the state names a transport, openTransport opens that one or fails, and it changes nothing
  -- of the state but the QUIC port.
  pub open_transport-Keeps :
      (calls : Calls D) (client : D) (plan : Plan) (set : Set) (st : State) (k : TransportKind)
      → st.transport ≡ some k
      → Keeps k st
          (open_transport calls client plan set st).0
          (open_transport calls client plan set st).1
  open_transport-Keeps calls client plan set st k h =
      rw (open_transport-as calls client plan set st (some k) h)
        (open_as-Keeps calls client plan set st k)

  -- A first result: what came up is recorded, and the mode allows it.
  abbrev pub Records : Text → State × Outcome SessionError (Carrier D) → Type 0
  Records mode (st, err e) = Unit
  Records mode (st, ok c) = (st.transport ≡ some (kind_of c)) × (allowed mode (kind_of c) ≡ true)

  over_ssh-Records :
      (mode : Text) (st : State) (r : Outcome Text (LaneSet D))
      → st.transport ≡ some ssh
      → text_eq mode mode_quic ≡ false
      → Records mode (opened st r)
  over_ssh-Records mode st (ok lanes) h m = (h, rw m refl)
  over_ssh-Records mode st (err server) h m = tt

  module _ (calls : Calls D) (client : D) (plan : Plan) (set : Set) where
    fallback_Records :
        (mode : Text) (st : State) (u : Unavailable) (b : Bool)
        → text_eq mode mode_quic ≡ b
        → Records mode (first_open calls client plan set (selected mode st (unavailable u)))
    fallback_Records mode st u true h = rw h tt
    fallback_Records mode st u false h = rw h (
        over_ssh-Records mode (record st { transport = some ssh; fallback = some u })
          (open_lane_set calls.open_lane calls.parse_addr client plan set) refl h)

    selected-Records :
        (mode : Text) (st : State) (d : Dialed D)
        → text_eq mode mode_ssh ≡ false
        → Records mode (first_open calls client plan set (selected mode st d))
    selected-Records mode st (broke e) h = tt
    selected-Records mode st (came_up q port) h = (refl, rw h refl)
    selected-Records mode st (unavailable u) h =
        fallback_Records mode st u (text_eq mode mode_quic) refl

    chosen-Records :
        (st : State) (b : Bool)
        → text_eq (mode_of plan) mode_ssh ≡ b
        → Records (mode_of plan) (first_open calls client plan set (select_transport calls plan st))
    unfolding select_transport
    chosen-Records st true h = rw h (
        over_ssh-Records (mode_of plan) (record st { transport = some ssh })
          (open_lane_set calls.open_lane calls.parse_addr client plan set) refl
          (ssh_not_quic (mode_of plan) h))
    chosen-Records st false h =
        rw h (selected-Records (mode_of plan) st (dial_plan calls plan (quic_ports_of plan)) h)

    -- On a first connect, the transport that comes up is the one that the state records, and it is
    -- not one that the mode of the plan excludes: never QUIC on `ssh`, never SSH on `quic`.
    pub open_transport-Records :
        (st : State)
        → st.transport ≡ none
        → Records (mode_of plan) (open_transport calls client plan set st)
    open_transport-Records st h =
        rw (open_transport-as calls client plan set st none h)
          (chosen-Records st (text_eq (mode_of plan) mode_ssh) refl)

    -- On a first connect in a mode that is neither `ssh` nor `quic`, where QUIC is unavailable and
    -- the servers of the plan parse, the session runs on SSH, and the state records the reason.
    pub open_transport_falls_back :
        (st : State) (u : Unavailable) (servers : List Addr)
        → st.transport ≡ none
        → text_eq (mode_of plan) mode_ssh ≡ false
        → text_eq (mode_of plan) mode_quic ≡ false
        → dial_plan calls plan (quic_ports_of plan) ≡ unavailable u
        → plan_servers calls.parse_addr plan ≡ ok servers
        → (lanes : LaneSet D) × (open_transport calls client plan set st
            ≡ (record st { transport = some ssh; fallback = some u }, ok (on_ssh lanes)))
    unfolding select_transport
    open_transport_falls_back st u servers h s q d p =
        let b = open_lane_set-Routes calls.open_lane client calls.parse_addr plan set servers p in
        (
          b.0,
          rw (open_transport-as calls client plan set st none h) (
              rw s (
                rw d (
                  rw q (
                    ap (λ r. opened (record st { transport = some ssh; fallback = some u }) r)
                      b.1)))),
        )
