-- ===== src/Session/Host.antt =====
-- setup, stopSession and cleanup of internal/session/run.go: what the session changes on the host and
-- what it undoes. A call that changes the host can fail, as `Faults` says, after a part of its change.
-- A call that undoes a change can fail too, as `Undo` says, which is only logged.
pub mod Undone
mod Tests
use tailjump.Prelude.{
  Bool, true, false, not, ◌||◌, List, [], ◌∷◌, Option, none, some, Outcome, ok, err, if◌then◌else◌,
}
use tailjump.Text.{Text, text_eq}
use tailjump.Net.{Addr}
use tailjump.Net.Prefix.{Prefix}
use tailjump.Dns.{mode_none}
use tailjump.Session.Types.{Plan, SessionError}
use tailjump.Session.Routes.{RouteError, route_prefixes}
use tailjump.Prelude.{◌&&◌}

-- The changes that are on the host: the device, routes in the session table, the rules that lead to
-- it, the DNS mode, and the data plane that runs.
pub record Host : Type 0 where
  pub device : Bool
  pub routes : Bool
  pub rules : Bool
  pub dns : Bool
  pub plane : Bool

abbrev pub clean : Host
clean = record { device = false; routes = false; rules = false; dns = false; plane = false }

-- How Router.Add ends: with its routes, or with an error after the rules and routes it has added.
pub data Added : Type 0 where
  all_added : Added
  add_failed : Text → Bool → Bool → Added

-- The calls that undo a change: none where it works, else what is left of what it is to undo. That of
-- Router.Reset is the routes and the rules.
pub record Undo : Type 0 where
  pub delete : Option Bool
  pub remove : Option Bool
  pub reset : Option (Bool × Bool)
  pub revert : Option Bool

-- How the calls of setup end; `dns` is the result of applyDNS, and `dns_left` whether a failed one
-- has changed something.
pub record Faults : Type 0 where
  pub create : Option Text
  pub configure : Option Text
  pub add : Added
  pub dns : Option SessionError
  pub dns_left : Bool
  pub plane : Option Text
  pub undo : Undo

pub data SetupError : Type 0 where
  no_device not_configured not_routed no_plane : Text → SetupError
  bad_routes : RouteError → SetupError
  no_dns : SessionError → SetupError

-- Device.Delete, with the routes through the device; Router.Remove; Router.Reset; Resolver.Revert.
abbrev pub left_of : Option Bool → Bool → Bool
left_of none before = false
left_of (some kept) before = kept && before

abbrev pub teardown_device : Option Bool → Host → Host
teardown_device delete h =
    let device = left_of delete h.device in
    record h { device = device; routes = device && h.routes }

abbrev pub remove_routes : Option Bool → Host → Host
remove_routes remove h = record h { routes = left_of remove h.routes }

abbrev pub reset_routes : Option (Bool × Bool) → Host → Host
reset_routes none h = record h { routes = false; rules = false }
reset_routes (some (routes, rules)) h = record h {
  routes = routes && h.routes;
  rules = rules && h.rules;
}

abbrev pub revert_dns : Option Bool → Host → Host
revert_dns revert h = record h { dns = left_of revert h.dns }

-- The last call of setup.
abbrev pub start_plane : Undo → Option Text → Host → Host × Option SetupError
start_plane u none h = (record h { plane = true }, none)
start_plane u (some e) h =
    (teardown_device u.delete (remove_routes u.remove (revert_dns u.revert h)), some (no_plane e))

abbrev pub set_dns : Faults → Plan → Option SessionError → Host → Host × Option SetupError
set_dns f plan none h =
    start_plane f.undo f.plane (record h { dns = not (text_eq plan.dns.mode mode_none) })
set_dns f plan (some e) h = (
  teardown_device f.undo.delete (remove_routes f.undo.remove (record h { dns = f.dns_left })),
  some (no_dns e),
)

abbrev pub add_routes : Faults → Plan → Added → Host → Host × Option SetupError
add_routes f plan all_added h = set_dns f plan f.dns (record h { routes = true; rules = true })
add_routes f plan (add_failed e routes rules) h = (
  teardown_device f.undo.delete (record h { routes = routes; rules = rules }),
  some (not_routed e),
)

abbrev pub route_plan :
    Faults → Plan → Outcome RouteError (List Prefix) → Host → Host × Option SetupError
route_plan f plan (err e) h = (teardown_device f.undo.delete h, some (bad_routes e))
route_plan f plan (ok prefixes) h = add_routes f plan f.add h

abbrev pub configure_device :
    Faults → Plan → Outcome RouteError (List Prefix) → Option Text → Host → Host × Option SetupError
configure_device f plan prefixes (some e) h =
    (teardown_device f.undo.delete h, some (not_configured e))
configure_device f plan prefixes none h = route_plan f plan prefixes h

abbrev pub create_device :
    Faults → Plan → Outcome RouteError (List Prefix) → Option Text → Host → Host × Option SetupError
create_device f plan prefixes (some e) h = (h, some (no_device e))
create_device f plan prefixes none h =
    configure_device f plan prefixes f.configure (record h { device = true })

unfoldable pub setup :
    (Text → Option Prefix) → (Text → Option Addr) → Faults → Plan → Host → Host × Option SetupError
setup parse_prefix parse_addr f plan h =
    create_device f plan (route_prefixes parse_prefix parse_addr plan) f.create h

-- stopSession: the data plane ends before the device does.
unfoldable pub stop_session : Undo → Host → Host
stop_session u h =
    let h = reset_routes u.reset (remove_routes u.remove (revert_dns u.revert h)) in
    teardown_device u.delete (record h { plane = false })

-- cleanup; the process that ran the data plane has ended.
unfoldable pub cleanup : Undo → Host → Host
cleanup u h = reset_routes u.reset (teardown_device u.delete (revert_dns u.revert h))
