-- ===== src/Lib.antt =====
-- Verification of tailjump, a point-to-site VPN over a Tailscale peer (Go).
--
-- `tj connect` resolves a peer of the tailnet and hands a plan to a root session. The session opens
-- SSH to the peer, starts a helper there, and forwards the flows of a TUN device to the helper: on
-- QUIC, or on several SSH connections, one lane per protocol. It rebuilds a lost transport within
-- a window and keeps its device and routes meanwhile.
--
-- Files and the code that they model:
--   Prelude: shared names. Text: strings, strconv and unicode as far as the program calls them;
--     a text is a list of runes. Net: the values of net/netip, and encoding/binary.
--   Protocols: internal/protocols/protocols.go, the protocol set.
--   Transport: internal/transport/transport.go, the mode, the port range (Ports), the rate (Rate) and
--     the congestion controller (Controllers).
--   Dns: internal/dns/dns.go. Tailnet: internal/tailnet/resolve.go and the peers of tailnet.go.
--   Mux/Frames: internal/mux/frames.go. Mux/Stream: the destinations, frames, status bytes and lines
--     of internal/mux/mux.go.
--   Session/Types: internal/session/types.go. Session/Backoff and Session/Reconnect: reconnect.go.
--     Session/Lanes: lanes.go. Session/Quic: quic.go and openTransport of run.go. Session/Runner: one
--     attempt, transport of run.go and attempt of reconnect.go. Session/Loop: loop and wait of run.go.
--     Session/Routes: the routes of plan.go. Session/Watch: watch.go. Session/Host: the
--     changes of the host by setup, stopSession and cleanup of run.go. Session/Report: the lines of
--     status.go and alreadyUp of connect.go.
--     Session/Signals: metrics.go and the resume detector of reconnect.go.
--     Session/Example is the data of the tests.
--   Dataplane/Packet: internal/dataplane/packet.go and parseEchoRequest of icmp.go. Dataplane/Echo: the
--     echo flows of icmp.go, as events of the pump and of the goroutines of the flows.
--   Mux/Negotiate: internal/mux/negotiate.go. Mux/Echo: the echo socket info of echo.go and the dial
--     statuses of mux.go. Mux/Control: the control stream of server.go with the listener of
--     quic_server.go, and NegotiateQUIC of client.go.
--   Mux/Socket: the ICMP messages of internal/mux/echo_socket.go.
--   Manifest: internal/manifest/manifest.go behind its YAML decoder. Manifest/Networks: networks.go.
--   Config: internal/config/config.go behind its YAML decoder. Discovery: the result of
--     internal/discovery/discovery.go behind its JSON decoder.
--   Cli: internal/cli, from arguments to a plan: Flags (flags.go), Remote (common.go), Networks
--     (networks.go), Plan (buildPlan of connect.go); Alias: the commands of alias.go.
--   Platform/Files: internal/platform/linux/resolvconf.go. Platform/Resolver: resolver.go.
--     Platform/Router: linux/router.go over netlink, with Add, Remove and Reset; Connected is its child.
--
-- An error result is an `Outcome`; a text of an error stands for the message of code outside. Code
-- outside the repository is a parameter: the results of an attempt's calls (SSH, the helper, the
-- certificate, QUIC, tailscaled, the resolver) are a record `Remote` with `Calls` inside, arbitrary in
-- the theorems. netip.ParseAddr and ParsePrefix are functions, arbitrary too. Opening lanes in parallel
-- is a map over their names, since openLanes waits for all and keeps their order.
--
-- go4.org/netipx is the record `IpSets`: its operations, the addresses that a builder and a set hold,
-- and the laws that relate them. Manifest/Networks/Listing is one implementation of it. What connect
-- takes from outside (netip, time, base64, YAML, SHA-256, the environment) is the record `Host`. File
-- and command calls of the resolver are a record that says which of them fail. In Session/Runner a
-- call of the resolver that succeeds sets the servers and domains it is given, and one that fails
-- leaves any settings; in Session/Host each call that undoes a change may fail and leave a part. The control stream
-- carries lines without their newline. The IP headers of gVisor are the record `Headers`, with the
-- laws `IsHeaders`; Dataplane/Packet/Plain is one instance. The
-- calls of netlink are the record `Netlink`; Platform/Router/Listing is one instance, with its laws.
--
-- Times are numbers of nanoseconds. The loop of reconnect runs on fuel, one more than the seconds of
-- the window, which is enough since a wait is a second or longer. A read from a stream is a function
-- on the bytes that remain, whose end is the end of the stream. Machine words wrap where the code
-- computes with them.
--
-- Not modelled: log lines, the state file (its contents are the field `state`), the closing of
-- connections, sockets, goroutines and locks. Reports reach the session one by one.
pub mod Prelude
pub mod Text
pub mod Net
pub mod Protocols
pub mod Transport
pub mod Dns
pub mod Mux
pub mod Tailnet
pub mod Manifest
pub mod Config
pub mod Discovery
pub mod Platform
pub mod Session
pub mod Dataplane
pub mod Cli
