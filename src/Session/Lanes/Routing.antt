-- ===== src/Session/Lanes/Routing.antt =====
-- The lane that each flow of a session takes.
use tailjump.Prelude.{◌≡◌, refl, Bool, true, false, ◌&&◌, ◌||◌, not, List, [], ◌∷◌, arith}
use tailjump.Prelude.{Option, none, some, ok, ◌==◌, if◌then◌else◌}
use tailjump.Text.{Text, text_eq}
use tailjump.Net.{Addr, AddrPort, unmap}
use tailjump.Protocols.{Set, tcp_name, udp_name, icmp_name}
use tailjump.Dns.{mode_none}
use tailjump.Session.Types.{Plan}
use tailjump.Session.Lanes.{
  LaneDialer, LaneSet, lane_dns, lane_dns_port, lane_plan, open_lane_set, dial_tcp, dial_udp,
  dial_icmp, is_server, among, plan_servers,
}
use tailjump.Session.Lanes.{add_if, new_dialer, open_lanes}
use tailjump.Session.Lanes.{lane_set, set_lanes}
use tailjump.Session.Lanes.{lanes_of}

-- Which lanes the plan has.
abbrev has_dns : Plan → Bool
has_dns plan = not (text_eq plan.dns.mode mode_none)

module _ {D : Type 0} (open_lane : Text → Option D) (primary : D) where
  -- What a lane that is not the first one of the plan is: open, or replaced by the primary.
  abbrev own : Text → D
  own name = elim (open_lane name) [ none ↦ primary | some client ↦ client ]

  -- The client of a protocol's flows: the primary for the first protocol of the set and where the
  -- plan has one lane, and else the lane of that name, or the primary where it did not open.
  abbrev pub protocol_lane : Bool → Bool → Bool → Text → D
  protocol_lane single listed earlier name =
      if not listed || not earlier || single then primary else own name

  -- The dns lane: none where the DNS mode is none, and the primary where it is the only lane.
  abbrev pub dns_lane : Bool → Bool → Bool → Option D
  dns_lane single dns others =
      if not dns
      then none
      else if not others
      then some primary
      else if single
      then none
      else open_lane lane_dns

  -- A query to a server of the session on port 53 takes the dns lane where there is one.
  abbrev pub query_lane : Option D → List Addr → AddrPort → D → D
  query_lane none servers dst proto = proto
  query_lane (some lane) servers dst proto =
      if dst.port == lane_dns_port && among (unmap dst.addr) servers then lane else proto

  abbrev planned : Bool → Bool → Bool → Bool → List Text
  planned t u i m =
      add_if t tcp_name (add_if u udp_name (add_if i icmp_name (add_if m lane_dns [])))

  abbrev dialer_of : Bool → List Addr → List Text → LaneDialer D
  dialer_of single servers [] = new_dialer primary
  dialer_of single servers (first ∷ rest) =
      (lane_set open_lane primary single first rest servers).dialer

  -- The clients of the three dials are those of the lanes above.
  abbrev pub Routes : LaneDialer D → Bool → Bool → Bool → Bool → Bool → List Addr → Type 0
  Routes d single t u i m servers =
      ((dst : AddrPort)
        → dial_tcp d dst
          ≡ query_lane (dns_lane single m (t || u || i)) servers dst
              (protocol_lane single t false tcp_name))
      × ((dst : AddrPort)
          → dial_udp d dst
            ≡ query_lane (dns_lane single m (t || u || i)) servers dst
                (protocol_lane single u t udp_name))
      × ((dst : Addr) → dial_icmp d dst ≡ protocol_lane single i (t || u) icmp_name)

  routes :
      (single t u i m : Bool) (servers : List Addr)
      → Routes (dialer_of single servers (planned t u i m)) single t u i m servers
  unfolding open_lanes set_lanes dial_tcp dial_udp dial_icmp is_server
  routes single true true true true servers =
      (λ dst. ground arith, λ dst. ground arith, λ dst. ground arith)
  routes single _ _ _ _ servers = (λ dst. ground arith, λ dst. ground arith, λ dst. ground arith)

  -- The set that the names give, with the servers read.
  abbrev Built : (Text → Option Addr) → Plan → List Addr → List Text → Type 0
  Built parse_addr plan servers names =
      (ls : LaneSet D) × (lanes_of open_lane parse_addr primary plan names ≡ ok ls)
      × (ls.dialer ≡ dialer_of plan.single_lane servers names)

  built :
      (parse_addr : Text → Option Addr) (plan : Plan) (servers : List Addr) (names : List Text)
      → plan_servers parse_addr plan ≡ ok servers
      → Built parse_addr plan servers names
  built parse_addr plan servers [] h = (_, refl, refl)
  built parse_addr plan servers (first ∷ rest) h =
      (lane_set open_lane primary plan.single_lane first rest servers, rw h refl, refl)

  -- Where the servers of the plan parse, openLaneSet gives a set, and its dialer takes a TCP or UDP
  -- flow to the lane of its protocol, a query to a server of the plan on port 53 to the dns lane
  -- where there is one, and an ICMP flow to the icmp lane. The first lane of the plan is the
  -- primary, a lane that did not open is replaced by the primary, and a plan with one lane has no
  -- other.
  pub open_lane_set-Routes :
      (parse_addr : Text → Option Addr) (plan : Plan) (set : Set) (servers : List Addr)
      → plan_servers parse_addr plan ≡ ok servers
      → (ls : LaneSet D) × (open_lane_set open_lane parse_addr primary plan set ≡ ok ls)
        × Routes ls.dialer plan.single_lane set.tcp set.udp set.icmp (has_dns plan) servers
  unfolding open_lane_set lane_plan
  open_lane_set-Routes parse_addr plan set servers h =
      let b = built parse_addr plan servers (lane_plan plan set) h in
      (b.0, b.1, rw b.2 (routes plan.single_lane set.tcp set.udp set.icmp (has_dns plan) servers))
