-- ===== src/Session/Watch.antt =====
-- internal/session/watch.go: the samples of the path to the remote, and the warning on a flap.
pub mod Warnings
mod Tests
use tailjump.Prelude.{
  ℕ, zero, suc, ◌+◌, ◌-◌, ltb, leb, ◌==◌, Bool, true, false, not, ◌&&◌, ◌||◌, List, [], ◌∷◌, ◌++◌,
  length, drop, Option, none, some, Outcome, ok, err, if◌then◌else◌,
}
use tailjump.Text.{Text, text_eq}
use tailjump.Net.{Addr, addr_eq}
use tailjump.Tailnet.{Peer}
use tailjump.Session.Runner.{TailStatus}

abbrev pub watch_samples : ℕ
watch_samples = 12

abbrev pub watch_flaps : ℕ
watch_flaps = 3

unfoldable pub has_addr : List Addr → Addr → Bool
has_addr [] addr = false
has_addr (a ∷ rest) addr = addr_eq a addr || has_addr rest addr

unfoldable pub endpoint_in : List Peer → Addr → Text
endpoint_in [] addr = []
endpoint_in (p ∷ peers) addr =
    if has_addr p.tailscale_ips addr then p.cur_addr else endpoint_in peers addr

unfoldable pub endpoint_of : TailStatus → Addr → Text
unfolding endpoint_in
endpoint_of st addr = endpoint_in st.peers addr

unfoldable pub path_changes : List Text → ℕ
path_changes [] = 0
path_changes (s ∷ []) = 0
path_changes (s ∷ t ∷ rest) =
    let more = path_changes (t ∷ rest) in if text_eq t s then more else suc more

-- The state of the watch: the samples of the window, and whether it has warned.
pub record Watch : Type 0 where
  pub samples : List Text
  pub warned : Bool

abbrev pub first_watch : Watch
first_watch = record { samples = []; warned = false }

-- The last samples of the window.
unfoldable pub window : List Text → List Text
window samples =
    if ltb watch_samples (length samples)
    then drop (length samples - watch_samples) samples
    else samples

-- The switch on the changes: the warned flag after it, and whether it warns.
abbrev pub judge : ℕ → Bool → Bool × Bool
judge changes warned =
    if leb watch_flaps changes && not warned
    then (true, true)
    else if changes == 0
    then (false, false)
    else (warned, false)

unfoldable pub observe : Text → Watch → Watch × Bool
observe endpoint w =
    let samples = window (w.samples ++ (endpoint ∷ [])) in
    let j = judge (path_changes samples) w.warned in
    (record { samples = samples; warned = j.0 }, j.1)

-- A tick: a status that fails leaves the watch as it is.
unfoldable pub tick : Addr → Outcome Text TailStatus → Watch → Watch × Bool
tick addr (err e) w = (w, false)
tick addr (ok st) w = observe (endpoint_of st addr) w

-- The warnings of a run over the endpoints, and the watch after it.
unfoldable pub run : List Text → Watch → Watch × List Bool
unfolding observe
run [] w = (w, [])
run (e ∷ es) w = let o = observe e w in let rest = run es o.0 in (rest.0, o.1 ∷ rest.1)
