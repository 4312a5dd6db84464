-- ===== src/Session/Reconnect/Window.antt =====
-- The loop of reconnect ends by the end of its window.
use tailjump.Prelude.{
  ℕ, zero, suc, ◌+◌, ◌-◌, ◌*◌, ◌≤◌, ◌<◌, ◌≡◌, refl, arith, le→leb, Option, none, some,
}
use tailjump.Session.Backoff.{second, backoff_after_bounds}
use tailjump.Session.Runner.{Runner}
use tailjump.Session.Reconnect.{Round, Returned, stops, turn, time_after, reconnect, reconnect_from}
use tailjump.Session.Reconnect.{concluded}
use tailjump.Session.Reconnect.{deadline_of}

module _ {D : Type 0} where
  turn_late :
      (round : Round D) (deadline n now : ℕ) (r : Runner D)
      → deadline ≤ now
      → (turn round deadline n now r).1 ≡ some stops
  unfolding turn
  turn_late round deadline n now r h = ground (arith, le→leb deadline now h)

  -- An attempt after the first starts a second later at least.
  time_after-le : (round : Round D) (n now : ℕ) → now + second ≤ time_after round (suc (suc n)) now
  time_after-le round n now = ground (arith, backoff_after_bounds (suc (suc n) - 1))

  abbrev Returns : Option (Runner D × Returned) → Type 0
  Returns o = (result : Runner D × Returned) × (o ≡ some result)

  concluded-Returns :
      (t : Runner D × Option Returned) (next : Runner D → Option (Runner D × Returned))
      → ((r : Runner D) → t.1 ≡ none → Returns (next r))
      → Returns (concluded t next)
  concluded-Returns (r, some result) next h = ((r, result), refl)
  concluded-Returns (r, none) next h = h r refl

  -- A turn that goes on stands before the deadline.
  turn_early :
      (round : Round D) (deadline n now : ℕ) (r : Runner D)
      → (turn round deadline n now r).1 ≡ none
      → now < deadline
  turn_early round deadline n now r h = ground (arith, turn_late round deadline n now r)

  -- The window that is left after a turn that goes on.
  window_left :
      (round : Round D) (deadline fuel n now : ℕ) (r : Runner D)
      → deadline ≤ now + suc fuel * second
      → (turn round deadline (suc (suc n)) (time_after round (suc (suc n)) now) r).1 ≡ none
      → (deadline ≤ time_after round (suc (suc n)) now + round.took + fuel * second) × (0 < fuel)
  window_left round deadline fuel n now r h e = (
    omega (arith, time_after-le round n now),
    omega (arith, time_after-le round n now, turn_early round deadline _ _ r e),
  )

  later-Returns :
      (rounds : ℕ → Round D) (deadline fuel n now : ℕ) (r : Runner D)
      → deadline ≤ now + fuel * second
      → 0 < fuel
      → Returns (reconnect_from rounds deadline fuel (suc (suc n)) now r)
  unfolding reconnect_from
  later-Returns rounds deadline zero n now r h p = ground arith
  later-Returns rounds deadline (suc fuel) n now r h p =
      concluded-Returns
        (turn (rounds (suc (suc n))) deadline (suc (suc n))
          (time_after (rounds (suc (suc n))) (suc (suc n)) now) r)
        _
        (λ r' e.
          let w = window_left (rounds (suc (suc n))) deadline fuel n now r h e in
          later-Returns rounds deadline fuel (suc n) _ r' w.0 w.1)

  -- The first turn, without a wait, at or after the loss.
  first_left :
      (round : Round D) (now window : ℕ) (r : Runner D)
      → r.lost_at ≤ now
      → (turn round (r.lost_at + window * second) 1 (time_after round 1 now) r).1 ≡ none
      → (r.lost_at + window * second ≤ time_after round 1 now + round.took + window * second)
        × (0 < window)
  first_left round now window r h e = (
    ground arith,
    ground (arith, turn_early round (r.lost_at + window * second) 1 (time_after round 1 now) r e),
  )

  -- The loop of reconnect returns, whatever its attempts give and however long they take: with
  -- a window of w seconds it has w + 1 turns at most, since each wait but the first is a second or
  -- longer and no attempt starts after the window.
  pub reconnect-Returns :
      (rounds : ℕ → Round D) (now : ℕ) (r : Runner D)
      → r.lost_at ≤ now
      → (result : Runner D × Returned) × (reconnect rounds now r ≡ some result)
  unfolding reconnect reconnect_from
  reconnect-Returns rounds now r h =
      concluded-Returns (turn (rounds 1) (deadline_of r) 1 (time_after (rounds 1) 1 now) r) _
        (λ r' e.
          let w = first_left (rounds 1) now r.plan.reconnect_for r h e in
          later-Returns rounds (deadline_of r) r.plan.reconnect_for 0 _ r' w.0 w.1)
