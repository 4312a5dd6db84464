-- ===== src/Session/Reconnect/Recovery.antt =====
-- What reconnect leaves when it returns.
use tailjump.Prelude.{
  ℕ, zero, suc, Bool, true, false, not, ◌&&◌, ltb, leb, Bool-cases, inl, inr, Option, none, some,
  ◌≡◌, refl, ap, ◌∙◌,
}
use tailjump.Text.{Text}
use tailjump.Session.Types.{TransportKind, reconnecting, up, ReconnectState, Reason}
use tailjump.Net.{Addr}
use tailjump.Session.Runner.{Runner, attempt, DnsState}
use tailjump.Session.Runner.Attempts.{HasDnsOn, Parses, After, attempt-After, Carries, Same}
use tailjump.Session.Reconnect.Window.{reconnect-Returns}
use tailjump.Session.Reconnect.{
  Round, Returned, is_up, lost, turn, judged, mark_up, count, give_reason, concluded, reconnect,
  reconnect_from, time_after, deadline_of, reasoned, counted,
}
use tailjump.Prelude.{subst, ◌≤◌}

module _ {D : Type 0} where
  -- A session without a transport: no dial succeeds, and the state says that it reconnects.
  abbrev pub IsLost : TransportKind → Runner D → Type 0
  IsLost k r =
      (r.state.status ≡ reconnecting)
      × (r.dialer ≡ none)
      × (r.state.transport ≡ some k)
      × ((p : ReconnectState) × (r.state.reconnect ≡ some p))

  -- A session with its transport, and with the DNS settings of its plan on its device.
  abbrev pub IsUp : (Text → Option Addr) → TransportKind → Runner D → Type 0
  IsUp parse k r =
      (r.state.status ≡ up)
      × Carries k r.dialer
      × (r.state.transport ≡ some k)
      × (r.state.reconnect ≡ none)
      × HasDnsOn parse r

  -- What the session keeps over a loss: its plan, its device, and its metrics and fallback.
  abbrev pub Kept : Runner D → Runner D → Type 0
  Kept r r' =
      (r'.plan ≡ r.plan)
      × (r'.has_device ≡ r.has_device)
      × (r'.state.fallback ≡ r.state.fallback)
      × (r'.state.metrics ≡ r.state.metrics)

  abbrev pub Left :
      (Text → Option Addr) → TransportKind → Runner D → Runner D × Option Returned → Type 0
  Left parse k r (r', some is_up) =
      IsUp parse k r' × Kept r r' × (r'.state.reconnects ≡ suc r.state.reconnects)
  Left parse k r (r', _) = IsLost k r' × Kept r r' × (r'.state.reconnects ≡ r.state.reconnects)

  still-IsLost :
      (k : TransportKind) (n : ℕ) (r r' : Runner D)
      → IsLost k r
      → r'.dialer ≡ r.dialer
      → Same (count n r) r'
      → IsLost k r' × Kept r r' × (r'.state.reconnects ≡ r.state.reconnects)
  still-IsLost k n r r' l d s = (
    (s.3.0 ∙ l.0, d ∙ l.1, s.3.1 ∙ l.2, (_, s.3.3 ∙ ap (counted n) l.3.1)),
    (s.0, s.1, s.3.2, s.3.5),
    s.3.4,
  )

  reasoned-IsLost :
      (k : TransportKind) (reason : Reason) (r r' : Runner D)
      → IsLost k r' × Kept r r' × (r'.state.reconnects ≡ r.state.reconnects)
      → IsLost k (give_reason reason r')
        × Kept r (give_reason reason r')
        × ((give_reason reason r').state.reconnects ≡ r.state.reconnects)
  reasoned-IsLost k reason r r' h =
      ((h.0.0, h.0.1, h.0.2, (_, ap (reasoned reason) h.0.3.1)), h.1, h.2)

  judged-Left :
      (parse : Text → Option Addr) (k : TransportKind) (n : ℕ) (signalled : Bool) (r : Runner D)
      (t : Runner D × Option (Reason × Bool))
      → IsLost k r
      → After parse k (count n r) t
      → Left parse k r (judged signalled t)
  unfolding mark_up
  judged-Left parse k n signalled r (r', none) l a =
      ((refl, a.0, a.1.3.1 ∙ l.2, refl, a.2), (a.1.0, a.1.1, a.1.3.2, a.1.3.5), ap suc a.1.3.4)
  judged-Left parse k n signalled r (r', some (reason, true)) l a =
      reasoned-IsLost k reason r r' (still-IsLost k n r r' l a.0 a.1)
  judged-Left parse k n true r (r', some (reason, false)) l a = still-IsLost k n r r' l a.0 a.1
  judged-Left parse k n false r (r', some (reason, false)) l a =
      reasoned-IsLost k reason r r' (still-IsLost k n r r' l a.0 a.1)

  turn-Left :
      (parse : Text → Option Addr) (k : TransportKind) (round : Round D) (deadline n now : ℕ)
      (r : Runner D)
      → Parses parse round.remote
      → IsLost k r
      → Left parse k r (turn round deadline n now r)
  unfolding turn
  turn-Left parse k round deadline n now r p l = elim (Bool-cases (ltb 1 n && not round.woke)) [
    | inl e ↦ rw e (l, kept, refl)
    | inr e ↦ elim (Bool-cases (leb deadline now)) [
      | inl f ↦ rw e (rw f (l, kept, refl))
      | inr f ↦ rw e (
          rw f (
            judged-Left parse k n round.signalled r (attempt round.remote (count n r)) l
              (attempt-After parse k round.remote (count n r) p l.2)))
    ]
  ]
    where
      kept : Kept r r
      kept = (refl, refl, refl, refl)

  Kept-trans : (r r' r'' : Runner D) → Kept r r' → Kept r' r'' → Kept r r''
  Kept-trans r r' r'' a b = (b.0 ∙ a.0, b.1 ∙ a.1, b.2 ∙ a.2, b.3 ∙ a.3)

  -- Where `r` is kept from `r0`, what a later turn leaves of `r` it leaves of `r0`.
  Left-trans :
      (parse : Text → Option Addr) (k : TransportKind) (r0 r : Runner D)
      (t : Runner D × Option Returned)
      → Kept r0 r
      → r.state.reconnects ≡ r0.state.reconnects
      → Left parse k r t
      → Left parse k r0 t
  Left-trans parse k r0 r (r', none) q e h = (h.0, Kept-trans r0 r r' q h.1, h.2 ∙ e)
  Left-trans parse k r0 r (r', some is_up) q e h = (h.0, Kept-trans r0 r r' q h.1, h.2 ∙ ap suc e)
  Left-trans parse k r0 r (r', some _) q e h = (h.0, Kept-trans r0 r r' q h.1, h.2 ∙ e)

  abbrev Ended :
      (Text → Option Addr) → TransportKind → Runner D → Option (Runner D × Returned) → Type 0
  Ended parse k r none = Unit
  Ended parse k r (some (r', result)) = Left parse k r (r', some result)

  Ended-trans :
      (parse : Text → Option Addr) (k : TransportKind) (r0 r : Runner D)
      (o : Option (Runner D × Returned))
      → Kept r0 r
      → r.state.reconnects ≡ r0.state.reconnects
      → Ended parse k r o
      → Ended parse k r0 o
  Ended-trans parse k r0 r none q e h = tt
  Ended-trans parse k r0 r (some (r', result)) q e h =
      Left-trans parse k r0 r (r', some result) q e h

  Ended-as :
      (parse : Text → Option Addr) (k : TransportKind) (r : Runner D)
      (o : Option (Runner D × Returned)) (t : Runner D × Returned)
      → o ≡ some t
      → Ended parse k r o
      → Left parse k r (t.0, some t.1)
  Ended-as parse k r o t e h = subst (λ o. Ended parse k r o) e h

  concluded-Ended :
      (parse : Text → Option Addr) (k : TransportKind) (r : Runner D)
      (t : Runner D × Option Returned) (next : Runner D → Option (Runner D × Returned))
      → Left parse k r t
      → ((r' : Runner D) → IsLost k r' → Ended parse k r' (next r'))
      → Ended parse k r (concluded t next)
  concluded-Ended parse k r (r', some result) next h n = h
  concluded-Ended parse k r (r', none) next h n =
      Ended-trans parse k r r' (next r') h.1 h.2 (n r' h.0)

  reconnect_from-Ended :
      (rounds : ℕ → Round D) (parse : Text → Option Addr) (k : TransportKind)
      (deadline fuel n now : ℕ) (r : Runner D)
      → ((n : ℕ) → Parses parse (rounds n).remote)
      → IsLost k r
      → Ended parse k r (reconnect_from rounds deadline fuel n now r)
  unfolding reconnect_from
  reconnect_from-Ended rounds parse k deadline zero n now r p l = tt
  reconnect_from-Ended rounds parse k deadline (suc fuel) n now r p l =
      concluded-Ended parse k r (turn (rounds n) deadline n (time_after (rounds n) n now) r) _
        (turn-Left parse k (rounds n) deadline n (time_after (rounds n) n now) r (p n) l)
        (λ r' l'. reconnect_from-Ended rounds parse k deadline fuel (suc n) _ r' p l')

  -- After a loss, reconnect returns. Where the session is up again its dialer and its state have the
  -- transport it had before the loss, its progress is dropped, one more loss is counted as recovered,
  -- and the resolver has set the servers and the domains of the plan on the device, if there is one,
  -- as a DNS mode other than none asks, whatever Revert left. Where it stops or ends, there is no
  -- dialer, and the state still says that it reconnects. In every case the plan, the device and the
  -- metrics of the loss are kept. netip.ParseAddr is `parse` in all calls.
  pub reconnect-Left :
      (rounds : ℕ → Round D) (parse : Text → Option Addr) (k : TransportKind) (now later : ℕ)
      (reason : Text) (left : Option DnsState) (r : Runner D)
      → ((n : ℕ) → Parses parse (rounds n).remote)
      → r.state.transport ≡ some k
      → now ≤ later
      → (r' : Runner D) × (result : Returned) × (reconnect rounds later (lost now reason left r)
          ≡ some (r', result))
        × Left parse k (lost now reason left r) (r', some result)
  unfolding reconnect lost
  reconnect-Left rounds parse k now later reason left r reads h le =
      let returns = reconnect-Returns rounds later (lost now reason left r) le in
      (
        returns.0.0,
        returns.0.1,
        returns.1,
        Ended-as parse k (lost now reason left r) _ returns.0 returns.1 (
            reconnect_from-Ended rounds parse k (deadline_of (lost now reason left r))
              (suc r.plan.reconnect_for) 1 later (lost now reason left r) reads
              (refl, refl, h, (_, refl))),
      )
