-- ===== src/Session/Runner.antt =====
-- The runner of internal/session/run.go and internal/session/reconnect.go: the state of a session,
-- the switch dialer, and one attempt to open the transport. `D` is the type of a mux client. What
-- the calls out of the session give in one attempt is an argument of type `Remote`.
pub mod Attempts
use tailjump.Prelude.{
  ℕ, Bool, true, false, List, [], Option, none, some, Outcome, ok, err, if◌then◌else◌, wrap, ◌≡◌,
  refl,
}
use tailjump.Text.{Text, str, text_eq, is_empty}
use tailjump.Net.{Addr, addr_eq, AddrPort}
use tailjump.Dns.{mode_none, mode_split, mode_all}
use tailjump.Protocols.{Set}
use tailjump.Tailnet.{Peer, resolve, ipv4}
use tailjump.Session.Types.{
  Plan, State, Metrics, ReconnectState, Status, TransportKind, Reason, SessionError,
}
use tailjump.Session.Lanes.{LaneSet, parse_addrs, dial_tcp}
use tailjump.Session.Quic.{Calls, Carrier, on_quic, on_ssh, open_transport}
use tailjump.Session.Types.{
  bad_server, dns_change, failed, helper_start, manifest_fetch, no_address, offline, ssh_dial,
  status_error,
}
use tailjump.Tailnet.{ResolveError}
use tailjump.Session.Lanes.{LaneDialer}
use tailjump.Session.Types.{bad_dns_mode, no_peer, remote_changed}
use tailjump.Prelude.{not}

-- tailnet.Status: whether this node is online, and its peers.
pub record TailStatus : Type 0 where
  pub self_online : Bool
  pub peers : List Peer

-- resolveAddr: the address and the hostname of the remote, or why it is not reachable now.
abbrev pub addr_of : Peer → Outcome Text Addr → Outcome Reason (Addr × Text)
addr_of peer (ok addr) = ok (addr, peer.host_name)
addr_of peer (err name) = err (no_address name)

abbrev pub of_peer : Outcome ResolveError Peer → Outcome Reason (Addr × Text)
of_peer (ok peer) = addr_of peer (ipv4 peer)
of_peer (err e) = err (no_peer e)

unfoldable pub resolve_addr : TailStatus → Text → Outcome Reason (Addr × Text)
resolve_addr st ref = if st.self_online then of_peer (resolve st.peers ref) else err offline

-- manifestMatches over the hex SHA-256 of a content.
unfoldable pub manifest_matches : (List ℕ → Text) → Text → List ℕ → Bool
manifest_matches sha256_hex want content = text_eq (sha256_hex content) want

-- The DNS settings of the device: none, what ApplySplit or ApplyAll sets, or a part of a change.
pub data DnsState : Type 0 where
  no_dns : DnsState
  split_dns all_dns : List Addr → List Text → DnsState
  dns_part : Text → DnsState

-- `set_resolver` is ApplySplit of platform.Resolver, or ApplyAll; where it fails, its error and the
-- settings that it leaves.
pub record Remote (D : Type 0) : Type 0 where
  pub tail_status : Outcome Text TailStatus
  pub ssh_dial : Addr → Option Text
  pub fetch_manifest : Addr → Outcome Text (List ℕ)
  pub start_helper : Addr → Outcome Text D
  pub calls : Addr → Calls D
  pub set_resolver : Bool → List Addr → List Text → Option (Text × DnsState)
  pub addr_text : Addr → Text
  pub sha256_hex : List ℕ → Text

-- The fields of the runner that a reconnect reads or writes; `has_device` is `device != ""`,
-- and `dns` is what is on the device.
pub record Runner (D : Type 0) : Type 0 where
  pub plan : Plan
  pub set : Set
  pub state : State
  pub dialer : Option (Carrier D)
  pub addr : Addr
  pub hostname : Text
  pub has_device : Bool
  pub dns : DnsState
  pub lost_at : ℕ

-- The settings after a call of the resolver that is to set `set`, and its error.
abbrev pub resolved : Option (Text × DnsState) → DnsState → DnsState × Option SessionError
resolved none set = (set, none)
resolved (some (e, left)) set = (left, some (dns_change e))

-- attempt: up, a reason to try again, or an error that ends the session.
abbrev pub verdict : Option SessionError → Option (Reason × Bool)
verdict none = none
verdict (some remote_changed) = some (failed remote_changed, true)
verdict (some e) = some (failed e, false)

-- The dialers of the data plane: the client that a dial goes to, none for errNoTransport.
module _ {D : Type 0} where
  abbrev pub carried : Carrier D → (LaneDialer D → D) → D
  carried (on_quic client) via = client
  carried (on_ssh lanes) via = via lanes.dialer

  unfoldable pub switch_dial : Option (Carrier D) → (LaneDialer D → D) → Option D
  switch_dial none via = none
  switch_dial (some carrier) via = some (carried carrier via)

  abbrev pub dns_with :
      Remote D → Plan → DnsState → Outcome Text (List Addr) → DnsState × Option SessionError
  dns_with remote plan before (err s) = (before, some (bad_server s))
  dns_with remote plan before (ok servers) =
      if text_eq plan.dns.mode mode_split
      then resolved (remote.set_resolver true servers plan.dns.domains)
          (split_dns servers plan.dns.domains)
      else if text_eq plan.dns.mode mode_all
      then resolved (remote.set_resolver false servers plan.dns.domains)
          (all_dns servers plan.dns.domains)
      else (before, some (bad_dns_mode plan.dns.mode))

  -- applyDNS: the settings after it, and its error.
  unfoldable pub apply_dns :
      Remote D → (Text → Option Addr) → Plan → DnsState → DnsState × Option SessionError
  apply_dns remote parse_addr plan before =
      if text_eq plan.dns.mode mode_none
      then (before, none)
      else dns_with remote plan before (parse_addrs parse_addr plan.dns.servers)

  -- guardManifest: only where the remote moved from the address of the plan.
  abbrev pub content_guard : Remote D → Plan → Outcome Text (List ℕ) → Option SessionError
  content_guard remote plan (err e) = some (manifest_fetch e)
  content_guard remote plan (ok content) =
      if manifest_matches remote.sha256_hex plan.manifest_sha256 content
      then none
      else some remote_changed

  unfoldable pub guard_manifest : Remote D → Runner D → Option SessionError
  guard_manifest remote r =
      if text_eq (remote.addr_text r.addr) r.plan.addr
      then none
      else content_guard remote r.plan (remote.fetch_manifest r.addr)

  -- transport after the open: the DNS mode goes back on a device that exists, and the dialer of the
  -- data plane is set last.
  abbrev pub lanes_name : Carrier D → Text → Text
  lanes_name (on_quic client) before = before
  lanes_name (on_ssh lanes) before = lanes.names

  abbrev pub installed :
      Runner D → Carrier D → DnsState × Option SessionError → Runner D × Option SessionError
  installed r carrier (dns, some e) = (record r { dns = dns }, some e)
  installed r carrier (dns, none) = (
    record r {
      dialer = some carrier;
      dns = dns;
      state = record r.state { lanes = lanes_name carrier r.state.lanes };
    },
    none,
  )

  abbrev pub dns_back : Remote D → Runner D → DnsState × Option SessionError
  dns_back remote r =
      if r.has_device
      then apply_dns remote (remote.calls r.addr).parse_addr r.plan r.dns
      else (r.dns, none)

  abbrev pub with_carrier :
      Remote D
      → Runner D
      → State × Outcome SessionError (Carrier D)
      → Runner D × Option SessionError
  with_carrier remote r (st, err e) = (record r { state = st }, some e)
  with_carrier remote r (st, ok carrier) =
      installed (record r { state = st }) carrier (dns_back remote r)

  abbrev pub with_helper : Remote D → Runner D → Outcome Text D → Runner D × Option SessionError
  with_helper remote r (err e) = (r, some (helper_start e))
  with_helper remote r (ok client) =
      with_carrier remote r (open_transport (remote.calls r.addr) client r.plan r.set r.state)

  abbrev pub guarded : Remote D → Runner D → Option SessionError → Runner D × Option SessionError
  guarded remote r (some e) = (r, some e)
  guarded remote r none = with_helper remote r (remote.start_helper r.addr)

  abbrev pub with_ssh : Remote D → Runner D → Option Text → Runner D × Option SessionError
  with_ssh remote r (some e) = (r, some (ssh_dial e))
  with_ssh remote r none = guarded remote r (guard_manifest remote r)

  unfoldable pub transport : Remote D → Runner D → Runner D × Option SessionError
  transport remote r = with_ssh remote r (remote.ssh_dial r.addr)

  -- resolve: the runner follows a move of the remote; the reason why it is not reachable.
  abbrev pub moved : Remote D → Runner D → Outcome Reason (Addr × Text) → Runner D × Option Reason
  moved remote r (err reason) = (r, some reason)
  moved remote r (ok (addr, hostname)) = if addr_eq addr r.addr then (r, none) else (
    record r {
      addr = addr;
      hostname = hostname;
      state = record r.state { addr = remote.addr_text addr; remote = hostname };
    },
    none,
  )

  abbrev pub with_status : Remote D → Runner D → Outcome Text TailStatus → Runner D × Option Reason
  with_status remote r (err e) = (r, some (status_error e))
  with_status remote r (ok st) = moved remote r (resolve_addr st r.plan.ref)

  unfoldable pub resolve_remote : Remote D → Runner D → Runner D × Option Reason
  resolve_remote remote r = with_status remote r remote.tail_status

  abbrev pub attempt_from : Remote D → Runner D × Option Reason → Runner D × Option (Reason × Bool)
  attempt_from remote (r, some reason) = (r, some (reason, false))
  attempt_from remote (r, none) = let t = transport remote r in (t.0, verdict t.1)

  unfoldable pub attempt : Remote D → Runner D → Runner D × Option (Reason × Bool)
  attempt remote r = attempt_from remote (resolve_remote remote r)
