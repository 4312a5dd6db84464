-- ===== src/Session/Loop.antt =====
-- loop and wait of internal/session/run.go: the life of a session that is up, as the sequence of
-- what its channels report.
mod Tests
use tailjump.Prelude.{
  ℕ, zero, suc, ◌+◌, ◌==◌, Bool, true, false, Option, none, some, List, [], ◌∷◌, if◌then◌else◌,
  Bool-cases, inl, inr, ◌⊎◌, ◌≡◌, refl, ap, sym, ◌∙◌, ◌++◌, arith,
}
use tailjump.Text.{Text, str}
use tailjump.Session.Types.{State, TransportKind, Metrics, Reason}
use tailjump.Net.{Addr}
use tailjump.Session.Runner.{Runner, DnsState}
use tailjump.Session.Runner.Attempts.{Parses}
use tailjump.Session.Reconnect.{Round, Returned, is_up, stops, ends, lost, reconnect}
use tailjump.Session.Reconnect.Recovery.{IsUp, IsLost, Left, reconnect-Left}
use tailjump.Prelude.{subst}

-- What ended the transport.
pub data Loss : Type 0 where
  mux_closed quic_closed : Loss
  lane_closed resume_failed : Text → Loss

unfoldable pub loss_reason : Loss → Text
loss_reason mux_closed = str "mux closed"
loss_reason quic_closed = str "quic connection closed"
loss_reason (lane_closed lane) = str "lane mux closed (" ++ (lane ++ str ")")
loss_reason (resume_failed reason) = reason

-- A report on the channels: a loss comes with its time, the delay until reconnect starts, what a
-- Revert of the DNS settings that fails leaves of them, and the rounds of reconnect.
pub data Report (D : Type 0) : Type 0 where
  signal : Report D
  sampled : Metrics → Report D
  transport_lost : Loss → ℕ → ℕ → Option DnsState → (ℕ → Round D) → Report D

-- Where the session is after the reports: it waits for the next one, or the loop has returned.
pub data Life (D : Type 0) : Type 0 where
  waits : Runner D → Life D
  returned : Runner D → Option Reason → Life D

module _ {D : Type 0} where
  unfoldable pub store_sample : Metrics → Runner D → Runner D
  store_sample m r = record r { state = record r.state { metrics = some m } }

  -- What loop does with the result of reconnect.
  abbrev pub resumed : (Runner D → Option (Life D)) → Option (Runner D × Returned) → Option (Life D)
  resumed next none = none
  resumed next (some (r, is_up)) = next r
  resumed next (some (r, stops)) = some (returned r none)
  resumed next (some (r, ends reason)) = some (returned r (some reason))

  unfoldable pub loop : List (Report D) → Runner D → Option (Life D)
  unfolding loss_reason
  loop [] r = some (waits r)
  loop (signal ∷ reports) r = some (returned r none)
  loop (sampled m ∷ reports) r = loop reports (store_sample m r)
  loop (transport_lost loss now delay left rounds ∷ reports) r =
      let rebuilt =
        resumed (loop reports)
          (reconnect rounds (now + delay) (lost now (loss_reason loss) left r)) in
      if r.plan.reconnect_for == 0 then some (returned r none) else rebuilt

  abbrev pub losses : List (Report D) → ℕ
  losses [] = 0
  losses (transport_lost _ _ _ _ _ ∷ reports) = suc (losses reports)
  losses (_ ∷ reports) = losses reports

  -- netip.ParseAddr is the function `parse` in the rounds of every loss.
  abbrev pub ParsesAll : (Text → Option Addr) → List (Report D) → Type 0
  ParsesAll parse [] = Unit
  ParsesAll parse (transport_lost loss now delay left rounds ∷ reports) =
      ((n : ℕ) → Parses parse (rounds n).remote) × ParsesAll parse reports
  ParsesAll parse (_ ∷ reports) = ParsesAll parse reports

  -- A life: a session that waits is up on its transport and has recovered from every loss; one that
  -- returned was up or lost, on the transport it had.
  abbrev pub Lives : (Text → Option Addr) → TransportKind → ℕ → Life D → Type 0
  Lives parse k n (waits r) = IsUp parse k r × (r.state.reconnects ≡ n)
  Lives parse k n (returned r reason) = IsUp parse k r ⊎ IsLost k r

  abbrev Lived : (Text → Option Addr) → TransportKind → ℕ → Option (Life D) → Type 0
  Lived parse k n o = (life : Life D) × (o ≡ some life) × Lives parse k n life

  resumed-Lived :
      (parse : Text → Option Addr) (k : TransportKind) (n : ℕ) (next : Runner D → Option (Life D))
      (r r' : Runner D) (result : Returned)
      → Left parse k r (r', some result)
      → (IsUp parse k r' → r'.state.reconnects ≡ suc r.state.reconnects → Lived parse k n (next r'))
      → Lived parse k n (resumed next (some (r', result)))
  resumed-Lived parse k n next r r' is_up h f = f h.0 h.2
  resumed-Lived parse k n next r r' stops h f = (_, refl, inr h.0)
  resumed-Lived parse k n next r r' (ends reason) h f = (_, refl, inr h.0)

  -- A loss with a window: reconnect returns, and the loop goes on where the session is up again.
  lost-Lived :
      (loss : Loss) (now delay : ℕ) (left : Option DnsState) (rounds : ℕ → Round D)
      (reports : List (Report D)) (parse : Text → Option Addr) (k : TransportKind) (r : Runner D)
      → ((n : ℕ) → Parses parse (rounds n).remote)
      → IsUp parse k r
      → ((r' : Runner D)
          → IsUp parse k r'
          → Lived parse k (r'.state.reconnects + losses reports) (loop reports r'))
      → Lived parse k (r.state.reconnects + suc (losses reports)) (
          resumed
            (loop reports)
            (reconnect rounds (now + delay) (lost now (loss_reason loss) left r)))
  unfolding lost
  lost-Lived loss now delay left rounds reports parse k r p h rest =
      let b =
        reconnect-Left rounds parse k now (now + delay) (loss_reason loss) left r p h.2
          (omega arith) in
      rw b.2 (
        resumed-Lived parse k _ (loop reports) (lost now (loss_reason loss) left r) b.0 b.1 b.3
          (λ u e. subst (λ n. Lived parse k n (loop reports b.0)) (omega (arith, e)) (rest b.0 u)))

  -- The loop gives a life for every sequence of reports: no reconnect hangs. A session that waits
  -- again has its status up, its dialer set on the transport it came up with, and one recovered loss
  -- for each loss reported; the resolver has set the servers and the domains of the plan on its device,
  -- if there is one, as a DNS mode other than none asks, also where a Revert failed. A session that
  -- returned was up, or was lost and has no dialer. netip.ParseAddr is `parse` in all calls.
  pub loop-Lives :
      (reports : List (Report D)) (parse : Text → Option Addr) (k : TransportKind) (r : Runner D)
      → ParsesAll parse reports
      → IsUp parse k r
      → (life : Life D) × (loop reports r ≡ some life)
        × Lives parse k (r.state.reconnects + losses reports) life
  unfolding loop store_sample lost
  loop-Lives [] parse k r p h = (waits r, refl, (h, omega arith))
  loop-Lives (signal ∷ reports) parse k r p h = (returned r none, refl, inl h)
  loop-Lives (sampled m ∷ reports) parse k r p h = loop-Lives reports parse k (store_sample m r) p h
  loop-Lives (transport_lost loss now delay left rounds ∷ reports) parse k r p h =
      elim (Bool-cases (r.plan.reconnect_for == 0)) [
        | inl e ↦ rw e (returned r none, refl, inl h)
        | inr e ↦ rw e (
            lost-Lived loss now delay left rounds reports parse k r p.0 h
              (λ r' u. loop-Lives reports parse k r' p.1 u))
      ]
