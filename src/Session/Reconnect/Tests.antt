-- ===== src/Session/Reconnect/Tests.antt =====
-- A loss of the example session, and the theorems at concrete inputs.
use tailjump.Prelude.{ℕ, ◌≡◌, refl, [], ◌∷◌, Option, none, some, map, arith}
use tailjump.Session.Quic.{Carrier, on_quic, open_transport, redial_quic, dial_quic, quic_ports_of}
use tailjump.Tailnet.{resolve, is_tag_ref, resolve_tag, has_tag, ipv4, first_v4}
use tailjump.Tailnet.Order.{best_of}
use tailjump.Session.Runner.{resolve_remote, resolve_addr, transport, guard_manifest, apply_dns}
use tailjump.Session.Reconnect.{reconnect_from, turn, mark_up}
use tailjump.Session.Lanes.{parse_addrs}
use tailjump.Net.{addr_eq}
use tailjump.Session.Backoff.{double}
use tailjump.Text.{str, text_eq}
use tailjump.Session.Types.{quic}
use tailjump.Session.Example.{runner, rounds, rounds-Parses, parse_addr, no_resolver}
use tailjump.Session.Runner.{DnsState, dns_part}
use tailjump.Session.Backoff.{backoff_after, second}
use tailjump.Session.Runner.{Runner, attempt}
use tailjump.Session.Runner.Attempts.{After, attempt-After}
use tailjump.Session.Reconnect.{Returned, is_up, lost, reconnect}
use tailjump.Session.Reconnect.Window.{reconnect-Returns}
use tailjump.Session.Reconnect.Recovery.{Left, reconnect-Left}
use tailjump.Session.Backoff.{double}
use tailjump.Session.Example.{remote}
use tailjump.Prelude.{◌*◌}

waits :
    map backoff_after (1 ∷ 2 ∷ 3 ∷ 4 ∷ 5 ∷ 6 ∷ [])
    ≡ map (λ s. s * second) (1 ∷ 2 ∷ 4 ∷ 8 ∷ 10 ∷ 10 ∷ [])
unfolding backoff_after double
waits = refl

-- Two attempts fail, and the third one brings the session up again, with its DNS settings.
abbrev summary :
    Option (Runner ℕ × Returned) → Option (Returned × ℕ × Option (Carrier ℕ) × DnsState)
summary none = none
summary (some (r, result)) = some (result, r.state.reconnects, r.dialer, r.dns)

third_attempt :
    summary (reconnect rounds 3 (lost 2 (str "mux closed") none runner))
    ≡ some (is_up, 1, some (on_quic 9), runner.dns)
unfolding reconnect reconnect_from lost turn mark_up attempt resolve_remote resolve_addr resolve
    is_tag_ref resolve_tag has_tag text_eq ipv4 first_v4 best_of addr_eq transport guard_manifest
    open_transport redial_quic dial_quic quic_ports_of apply_dns parse_addrs backoff_after double
third_attempt = refl

-- A resolver that fails leaves a part of its change.
part_left :
    (attempt no_resolver (lost 0 (str "mux closed") none runner)).0.dns ≡ dns_part (str "servers")
unfolding lost attempt resolve_remote resolve_addr resolve is_tag_ref resolve_tag has_tag text_eq
    ipv4 first_v4 best_of addr_eq transport guard_manifest open_transport redial_quic dial_quic
    quic_ports_of apply_dns parse_addrs
part_left = refl

attempt-After_example :
    After parse_addr quic
      (lost 0 (str "mux closed") none runner)
      (attempt remote (lost 0 (str "mux closed") none runner))
unfolding lost
attempt-After_example =
    attempt-After parse_addr quic remote (lost 0 (str "mux closed") none runner) (λ a. refl) refl

reconnect-Returns_example :
    (result : Runner ℕ × Returned) × (reconnect rounds 3 (lost 2 (str "mux closed") none runner)
      ≡ some result)
unfolding lost
reconnect-Returns_example =
    reconnect-Returns rounds 3 (lost 2 (str "mux closed") none runner) (omega arith)

reconnect-Left_example :
    (r' : Runner ℕ) × (result : Returned) × (reconnect rounds 3
        (lost 2 (str "mux closed") none runner)
      ≡ some (r', result))
    × Left parse_addr quic (lost 2 (str "mux closed") none runner) (r', some result)
reconnect-Left_example =
    reconnect-Left rounds parse_addr quic 2 3 (str "mux closed") none runner rounds-Parses refl
      (omega arith)
