-- ===== src/Session/Lanes.antt =====
-- internal/session/lanes.go: the connections of the SSH transport and the lane of each flow.
-- `D` is the type of a dialer, a mux client.
pub mod Routing
mod Tests
use tailjump.Prelude.{
  ℕ, ◌==◌, Bool, true, false, ◌&&◌, ◌||◌, not, List, [], ◌∷◌, map, Option, none, some,
}
use tailjump.Prelude.{Outcome, ok, err, ◌>>=◌, if◌then◌else◌}
use tailjump.Text.{Text, str, text_eq}
use tailjump.Text.Split.{join}
use tailjump.Net.{Addr, AddrPort, unmap, addr_eq}
use tailjump.Protocols.{Set, tcp_name, udp_name, icmp_name}
use tailjump.Dns.{mode_none}
use tailjump.Session.Types.{Plan}

abbrev pub lane_dns : Text
lane_dns = str "dns"

abbrev pub lane_dns_port : ℕ
lane_dns_port = 53

abbrev pub add_if : Bool → Text → List Text → List Text
add_if true name rest = name ∷ rest
add_if false name rest = rest

-- The lanes of a session in the order tcp, udp, icmp, dns.
unfoldable pub lane_plan : Plan → Set → List Text
unfolding text_eq
lane_plan plan set = add_if set.tcp tcp_name (
    add_if set.udp udp_name
      (add_if set.icmp icmp_name (add_if (not (text_eq plan.dns.mode mode_none)) lane_dns [])))

-- The dialer of the data plane on the SSH transport; a lane that did not open is `none`.
pub record LaneDialer (D : Type 0) : Type 0 where
  pub primary : D
  pub tcp : Option D
  pub udp : Option D
  pub icmp : Option D
  pub dns : Option D
  pub servers : List Addr

unfoldable pub among : Addr → List Addr → Bool
among a [] = false
among a (s ∷ servers) = addr_eq (unmap s) a || among a servers

module _ {D : Type 0} where
  abbrev pub new_dialer : D → LaneDialer D
  new_dialer primary = record {
    primary = primary;
    tcp = none;
    udp = none;
    icmp = none;
    dns = none;
    servers = [];
  }

  unfoldable pub set_lane : LaneDialer D → Text → D → LaneDialer D
  unfolding text_eq
  set_lane d name client =
      if text_eq name tcp_name
      then record d { tcp = some client }
      else if text_eq name udp_name
      then record d { udp = some client }
      else if text_eq name icmp_name
      then record d { icmp = some client }
      else if text_eq name lane_dns
      then record d { dns = some client }
      else d

  abbrev pub or_primary : LaneDialer D → Option D → D
  or_primary d none = d.primary
  or_primary d (some lane) = lane

  unfoldable pub is_server : LaneDialer D → Addr → Bool
  unfolding among
  is_server d addr = among (unmap addr) d.servers

  abbrev pub pick_dns : LaneDialer D → Option D → Option D → AddrPort → D
  pick_dns d none proto dst = or_primary d proto
  pick_dns d (some lane) proto dst =
      if dst.port == lane_dns_port && is_server d dst.addr then lane else or_primary d proto

  -- The client that a flow to `dst` takes.
  unfoldable pub pick : LaneDialer D → Option D → AddrPort → D
  pick d proto dst = pick_dns d d.dns proto dst

  -- The clients of DialTCP, DialUDP and DialICMP.
  unfoldable pub dial_tcp : LaneDialer D → AddrPort → D
  unfolding pick
  dial_tcp d dst = pick d d.tcp dst

  unfoldable pub dial_udp : LaneDialer D → AddrPort → D
  unfolding pick
  dial_udp d dst = pick d d.udp dst

  unfoldable pub dial_icmp : LaneDialer D → Addr → D
  dial_icmp d dst = or_primary d d.icmp

  abbrev pub add_lane : Text → Option D → List (Text × D) → List (Text × D)
  add_lane name none rest = rest
  add_lane name (some client) rest = (name, client) ∷ rest

  -- The lanes that came up, in the order of the names. `open name` is what openLane, an SSH dial
  -- and the start of a helper, gives for the name.
  unfoldable pub open_lanes : (Text → Option D) → List Text → List (Text × D)
  open_lanes open_lane [] = []
  open_lanes open_lane (name ∷ names) = add_lane name (open_lane name) (open_lanes open_lane names)

  unfoldable pub set_lanes : LaneDialer D → List (Text × D) → LaneDialer D
  unfolding set_lane
  set_lanes d [] = d
  set_lanes d ((name, client) ∷ lanes) = set_lanes (set_lane d name client) lanes

pub record LaneSet (D : Type 0) : Type 0 where
  pub extra : List (Text × D)
  pub dialer : LaneDialer D
  pub names : Text

-- parseAddrs of internal/session/run.go over `netip.ParseAddr`; the error is the text refused.
unfoldable pub parse_addrs : (Text → Option Addr) → List Text → Outcome Text (List Addr)
parse_addrs parse_addr [] = ok []
parse_addrs parse_addr (s ∷ rest) = elim (parse_addr s) [
  | none ↦ err s
  | some a ↦ elim (parse_addrs parse_addr rest) [ ok l ↦ ok (a ∷ l) | err e ↦ err e ]
]

abbrev pub plan_servers : (Text → Option Addr) → Plan → Outcome Text (List Addr)
plan_servers parse_addr plan =
    if text_eq plan.dns.mode mode_none then ok [] else parse_addrs parse_addr plan.dns.servers

module _ {D : Type 0} where
  -- The set with the primary lane first, and the extra lanes unless the plan has one lane.
  abbrev pub lane_set : (Text → Option D) → D → Bool → Text → List Text → List Addr → LaneSet D
  lane_set open_lane primary single first rest servers =
      let d = set_lane (record (new_dialer primary) { servers = servers }) first primary in
      let extra = if single then [] else open_lanes open_lane rest in
      record {
        extra = extra;
        dialer = set_lanes d extra;
        names = join (str ",") (first ∷ map (λ l. l.0) extra);
      }

  abbrev pub lanes_of :
      (Text → Option D) → (Text → Option Addr) → D → Plan → List Text → Outcome Text (LaneSet D)
  lanes_of open_lane parse_addr primary plan [] =
      ok (record { extra = []; dialer = new_dialer primary; names = [] })
  lanes_of open_lane parse_addr primary plan (first ∷ rest) =
      plan_servers parse_addr plan >>= λ servers.
      ok (lane_set open_lane primary plan.single_lane first rest servers)

  unfoldable pub open_lane_set :
      (Text → Option D) → (Text → Option Addr) → D → Plan → Set → Outcome Text (LaneSet D)
  open_lane_set open_lane parse_addr primary plan set =
      lanes_of open_lane parse_addr primary plan (lane_plan plan set)
