-- ===== src/Session/Reconnect.antt =====
-- internal/session/reconnect.go: the loss of the transport and the loop that rebuilds it; loop and
-- wait of internal/session/run.go. A time is a number of nanoseconds.
pub mod Window
pub mod Recovery
mod Tests
use tailjump.Prelude.{
  ℕ, zero, suc, ◌+◌, ◌-◌, ◌*◌, ltb, leb, Bool, true, false, not, ◌&&◌, Option, none, some,
  if◌then◌else◌,
}
use tailjump.Text.{Text}
use tailjump.Session.Types.{
  Plan, State, Metrics, ReconnectState, Status, Reason, up, starting, reconnecting, stopping,
}
use tailjump.Session.Backoff.{second, backoff_after}
use tailjump.Session.Runner.{Runner, Remote, attempt, DnsState, no_dns}
use tailjump.Session.Types.{lost_by}

-- The metrics of a session without a transport: the totals stay.
abbrev pub stilled : ℕ → Option Metrics → Option Metrics
stilled at none = none
stilled at (some m) = some (record m { updated_at = at; rtt_ms = 0; up_rate = 0; down_rate = 0 })

-- One turn of the loop of reconnect: whether the wait before it finished, how much longer than the
-- backoff it took, how long the attempt took, whether a signal came by its end, and what the calls
-- of the attempt gave.
pub record Round (D : Type 0) : Type 0 where
  pub woke : Bool
  pub overslept : ℕ
  pub took : ℕ
  pub signalled : Bool
  pub remote : Remote D

-- How reconnect returns: the session is up, it stops, or an error ends it.
pub data Returned : Type 0 where
  is_up stops : Returned
  ends : Reason → Returned

-- The writes to state.Reconnect, which is set by lost.
abbrev pub counted : ℕ → Option ReconnectState → Option ReconnectState
counted n none = none
counted n (some p) = some (record p { attempts = n })

abbrev pub reasoned : Reason → Option ReconnectState → Option ReconnectState
reasoned reason none = none
reasoned reason (some p) = some (record p { reason = reason })

-- The wait before attempt n: none before the first.
abbrev pub wait_before : ℕ → ℕ
wait_before n = if ltb 1 n then backoff_after (n - 1) else 0

-- The settings that Revert leaves: none where it succeeds, else any.
abbrev pub reverted : Option DnsState → DnsState
reverted none = no_dns
reverted (some left) = left

module _ {D : Type 0} where
  unfoldable pub lost : ℕ → Text → Option DnsState → Runner D → Runner D
  lost now reason left r = record r {
    lost_at = now;
    dialer = none;
    dns = reverted left;
    state = record r.state {
      status = reconnecting;
      reconnect = some (record { since = now; attempts = 0; reason = lost_by reason });
      metrics = stilled now r.state.metrics;
    };
  }

  unfoldable pub mark_up : Runner D → Runner D
  mark_up r = record r { state = record r.state { status = up; reconnect = none } }

  abbrev pub count : ℕ → Runner D → Runner D
  count n r = record r { state = record r.state { reconnect = counted n r.state.reconnect } }

  abbrev pub give_reason : Reason → Runner D → Runner D
  give_reason reason r = record r {
    state = record r.state { reconnect = reasoned reason r.state.reconnect };
  }

  abbrev pub recovered : Runner D → Runner D
  recovered r =
      mark_up (record r { state = record r.state { reconnects = suc r.state.reconnects } })

  -- The end of a turn: reconnect returns, or goes on to the next attempt.
  abbrev pub judged : Bool → Runner D × Option (Reason × Bool) → Runner D × Option Returned
  judged signalled (r, none) = (recovered r, some is_up)
  judged signalled (r, some (reason, true)) = (give_reason reason r, some (ends reason))
  judged signalled (r, some (reason, false)) =
      if signalled then (r, some stops) else (give_reason reason r, none)

  abbrev pub deadline_of : Runner D → ℕ
  deadline_of r = r.lost_at + r.plan.reconnect_for * second

  -- A turn from the time after its wait.
  unfoldable pub turn : Round D → ℕ → ℕ → ℕ → Runner D → Runner D × Option Returned
  turn round deadline n now r =
      if ltb 1 n && not round.woke
      then (r, some stops)
      else if leb deadline now
      then (r, some stops)
      else judged round.signalled (attempt round.remote (count n r))

  abbrev pub time_after : Round D → ℕ → ℕ → ℕ
  time_after round n now = now + wait_before n + round.overslept

  abbrev pub concluded :
      Runner D × Option Returned
      → (Runner D → Option (Runner D × Returned))
      → Option (Runner D × Returned)
  concluded (r, some result) next = some (r, result)
  concluded (r, none) next = next r

  -- The loop from attempt n at the time `now`; `none` is a loop that ran out of fuel.
  unfoldable pub reconnect_from :
      (ℕ → Round D) → ℕ → ℕ → ℕ → ℕ → Runner D → Option (Runner D × Returned)
  reconnect_from rounds deadline zero n now r = none
  reconnect_from rounds deadline (suc fuel) n now r =
      let at = time_after (rounds n) n now in
      concluded (turn (rounds n) deadline n at r)
        (reconnect_from rounds deadline fuel (suc n) (at + (rounds n).took))

  -- reconnect, with a turn for each second of the window and one more.
  unfoldable pub reconnect : (ℕ → Round D) → ℕ → Runner D → Option (Runner D × Returned)
  unfolding reconnect_from
  reconnect rounds now r = reconnect_from rounds (deadline_of r) (suc r.plan.reconnect_for) 1 now r
