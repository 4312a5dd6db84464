-- ===== src/Session/Example.antt =====
-- A session with one DNS server, whose icmp lane does not open, and a remote that answers.
use tailjump.Prelude.{ℕ, true, false, [], ◌∷◌, Option, none, some, ok, err, if◌then◌else◌}
use tailjump.Text.{Text, str, text_eq}
use tailjump.Net.{Addr, v4}
use tailjump.Tailnet.{Peer}
use tailjump.Protocols.{Set}
use tailjump.Session.Types.{Plan, State, starting, up, quic}
use tailjump.Session.Quic.{Calls, replied, on_quic}
use tailjump.Session.Runner.{Runner, Remote, split_dns, dns_part}
use tailjump.Session.Reconnect.{Round}
use tailjump.Prelude.{ltb, Bool-cases, inl, inr, refl}
use tailjump.Session.Runner.Attempts.{Parses}

abbrev pub server : Addr
server = v4 0x0a000035

abbrev pub parse_addr : Text → Option Addr
parse_addr s = if text_eq s (str "10.0.0.53") then some server else none

abbrev pub example_plan : Plan
example_plan = record {
  remote = str "box";
  ref = str "tag:box";
  addr = str "100.64.0.7";
  user = str "tj";
  networks = [];
  dns = record { mode = str "split"; servers = str "10.0.0.53" ∷ []; domains = [] };
  helper_arch = str "amd64";
  manifest_sha256 = str "00";
  transport = str "auto";
  quic_ports = [];
  bandwidth_up = 0;
  bandwidth_down = 0;
  controller = [];
  protocols = [];
  single_lane = false;
  verbose = false;
  reconnect_for = 30;
}

-- The clients of the lanes, by number: 0 is the primary.
abbrev pub open_lane : Text → Option ℕ
open_lane s =
    if text_eq s (str "udp") then some 1 else if text_eq s (str "dns") then some 3 else none

abbrev pub example_set : Set
example_set = record { tcp = true; udp = true; icmp = true }

abbrev pub first_state : State
first_state = record {
  remote = str "box";
  ref = str "tag:box";
  addr = str "100.64.0.7";
  status = starting;
  transport = none;
  quic_port = 0;
  fallback = none;
  lanes = [];
  reconnect = none;
  reconnects = 0;
  metrics = none;
}

-- QUIC comes up on port 7443, as client 9.
abbrev pub calls : Calls ℕ
calls = record {
  certificate = none;
  negotiate = λ ports ctl. replied ports.first;
  dial = λ port ctl. ok 9;
  open_lane = open_lane;
  parse_addr = parse_addr;
}

-- The helper listens, and no packet reaches its port.
abbrev pub blocked_calls : Calls ℕ
blocked_calls = record calls { dial = λ port ctl. err (str "timeout") }

abbrev pub box : Peer
box = record {
  host_name = str "box";
  tags = str "tag:box" ∷ [];
  online = true;
  tailscale_ips = v4 0x64400007 ∷ [];
  active = true;
  cur_addr = [];
  relay = [];
  last_handshake = 1;
}

abbrev pub remote : Remote ℕ
remote = record {
  tail_status = ok (record { self_online = true; peers = box ∷ [] });
  ssh_dial = λ addr. none;
  fetch_manifest = λ addr. ok [];
  start_helper = λ addr. ok 4;
  calls = λ addr. calls;
  set_resolver = λ split servers domains. none;
  addr_text = λ addr. str "100.64.0.7";
  sha256_hex = λ content. str "00";
}

abbrev pub offline_remote : Remote ℕ
offline_remote = record remote { tail_status = ok (record { self_online = false; peers = [] }) }

-- A remote for which the resolver fails half way.
abbrev pub no_resolver : Remote ℕ
no_resolver = record remote {
  set_resolver = λ split servers domains. some (str "no resolved", dns_part (str "servers"));
}

-- A session that is up on QUIC.
abbrev pub runner : Runner ℕ
runner = record {
  plan = example_plan;
  set = example_set;
  state = record first_state { status = up; transport = some quic; quic_port = 7443 };
  dialer = some (on_quic 9);
  addr = v4 0x64400007;
  hostname = str "box";
  has_device = true;
  dns = split_dns (server ∷ []) [];
  lost_at = 0;
}

-- The node is offline for the first attempt, and the resolver fails in the second.
abbrev pub rounds : ℕ → Round ℕ
rounds n = record {
  woke = true;
  overslept = 5;
  took = 100;
  signalled = false;
  remote = if ltb n 2 then offline_remote else if ltb n 3 then no_resolver else remote;
}

pub rounds-Parses : (n : ℕ) → Parses parse_addr (rounds n).remote
rounds-Parses n = elim (Bool-cases (ltb n 2)) [
  | inl e ↦ rw e (λ a. refl)
  | inr e ↦ elim (Bool-cases (ltb n 3)) [
    | inl f ↦ rw (e, f) (λ a. refl)
    | inr f ↦ rw (e, f) (λ a. refl)
  ]
]
