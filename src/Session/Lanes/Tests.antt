-- ===== src/Session/Lanes/Tests.antt =====
-- The lanes of the example session, and the theorems at concrete inputs.
use tailjump.Prelude.{ℕ, ◌≡◌, refl, true, false, [], ◌∷◌, map, ok, ◌>>=◌}
use tailjump.Text.{str, text_eq}
use tailjump.Net.{AddrPort, v4, unmap, addr_eq}
use tailjump.Session.Example.{server, parse_addr, example_plan, open_lane, example_set}
use tailjump.Session.Lanes.{
  set_lane, LaneSet, lane_plan, open_lane_set, dial_tcp, dial_udp, dial_icmp,
}
use tailjump.Session.Lanes.Routing.{Routes, open_lane_set-Routes}
use tailjump.Session.Lanes.{parse_addrs}
use tailjump.Session.Lanes.{open_lanes}
use tailjump.Session.Lanes.{set_lanes}
use tailjump.Session.Lanes.{set_lane}
use tailjump.Session.Lanes.{pick}
use tailjump.Session.Lanes.{is_server}
use tailjump.Session.Lanes.{among}

abbrev query : AddrPort
query = record { addr = server; port = 53 }

abbrev other : AddrPort
other = record { addr = v4 0x08080808; port = 53 }

-- A query of the session takes the dns lane, another UDP flow the udp lane, and a TCP flow the
-- primary.
dialled :
    (open_lane_set open_lane parse_addr 0 example_plan example_set >>= λ ls. ok (
      dial_udp ls.dialer query
      ∷ dial_udp ls.dialer other
      ∷ dial_tcp ls.dialer other
      ∷ dial_icmp ls.dialer server
      ∷ []))
    ≡ ok (3 ∷ 1 ∷ 0 ∷ 0 ∷ [])
unfolding open_lane_set lane_plan text_eq parse_addrs open_lanes set_lanes set_lane dial_udp
    dial_tcp dial_icmp pick is_server among unmap addr_eq
dialled = refl

extra_lanes :
    (open_lane_set open_lane parse_addr 0 example_plan example_set >>= λ ls.
    ok (map (λ l. l.0) ls.extra))
    ≡ ok (str "udp" ∷ str "dns" ∷ [])
unfolding open_lane_set lane_plan text_eq parse_addrs open_lanes set_lanes set_lane
extra_lanes = refl

open_lane_set-Routes_example :
    (ls : LaneSet ℕ) × (open_lane_set open_lane parse_addr 0 example_plan example_set ≡ ok ls)
    × Routes open_lane 0 ls.dialer false true true true true (server ∷ [])
unfolding text_eq parse_addrs
open_lane_set-Routes_example =
    open_lane_set-Routes open_lane 0 parse_addr example_plan example_set (server ∷ []) refl
