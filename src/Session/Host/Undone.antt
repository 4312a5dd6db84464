-- ===== src/Session/Host/Undone.antt =====
-- What a setup that fails leaves on the host, and what a stop leaves.
use tailjump.Prelude.{true, Option, none, some, Outcome, ok, err, ◌≡◌, refl}
use tailjump.Text.{Text, text_eq}
use tailjump.Net.{Addr}
use tailjump.Net.Prefix.{Prefix}
use tailjump.Dns.{mode_none}
use tailjump.Session.Types.{Plan}
use tailjump.Session.Routes.{RouteError, route_prefixes}
use tailjump.Session.Host.{
  Host, Faults, SetupError, clean, setup, stop_session, cleanup, create_device, add_routes, set_dns,
}
use tailjump.Prelude.{List, not, Bool, false, ap, ◌∙◌}
use tailjump.Session.Host.{Added, SessionError}
use tailjump.Session.Host.{
  no_dns, no_plane, not_routed, not_configured, bad_routes, add_failed, all_added, Undo,
  teardown_device, remove_routes, revert_dns, reset_routes,
}

-- Device.Delete, Router.Reset and Resolver.Revert work; then no route is left for Router.Remove.
abbrev pub Works : Undo → Type 0
Works u = (u.delete ≡ none) × (u.reset ≡ none) × (u.revert ≡ none)

-- A result of setup: with no error the session has changed all it changes, and a stop whose calls work
-- takes it all back. With an error there is no data plane, the device and its routes are gone where
-- Device.Delete worked, and a cleanup whose calls work takes back all that is left.
abbrev pub Undone : Undo → Plan → Host × Option SetupError → Type 0
Undone undo plan (h, none) =
    (h ≡ record {
      device = true;
      routes = true;
      rules = true;
      dns = not (text_eq plan.dns.mode mode_none);
      plane = true;
    })
    × ((u : Undo) → Works u → stop_session u h ≡ clean)
Undone undo plan (h, some e) =
    (h.plane ≡ false)
    × (undo.delete ≡ none → (h.device ≡ false) × (h.routes ≡ false))
    × ((u : Undo) → Works u → cleanup u h ≡ clean)

-- A stop takes back whatever is on the host.
stopped : (u : Undo) (h : Host) → Works u → stop_session u h ≡ clean
unfolding stop_session
stopped u h w i =
    let back = reset_routes (w.1 i) (remove_routes u.remove (revert_dns (w.2 i) h)) in
    teardown_device (w.0 i) (record back { plane = false })

cleaned : (u : Undo) (h : Host) → h.plane ≡ false → Works u → cleanup u h ≡ clean
unfolding cleanup
cleaned u h p w =
    (λ i. reset_routes (w.1 i) (teardown_device (w.0 i) (revert_dns (w.2 i) h)))
    ∙ ap (λ b. record clean { plane = b }) p

-- The device and its routes, after a Device.Delete that works.
torn_down :
    (delete : Option Bool) (h : Host)
    → delete ≡ none
    → ((teardown_device delete h).device ≡ false) × ((teardown_device delete h).routes ≡ false)
torn_down delete h e =
    (ap (λ d. (teardown_device d h).device) e, ap (λ d. (teardown_device d h).routes) e)

module _ (f : Faults) (plan : Plan) where
  -- A way out of setup, which tears the device down last.
  backed_out :
      (h : Host) (e : SetupError)
      → h.plane ≡ false
      → Undone f.undo plan (teardown_device f.undo.delete h, some e)
  backed_out h e p =
      (p, torn_down f.undo.delete h, λ u w. cleaned u (teardown_device f.undo.delete h) p w)

  set_dns-Undone :
      (r : Option SessionError) (p : Option Text)
      → f.plane ≡ p
      → Undone f.undo plan
          (set_dns f plan r (record clean { device = true; routes = true; rules = true }))
  set_dns-Undone (some e) p q = backed_out _ (no_dns e) refl
  set_dns-Undone none none q = rw q (refl, λ u w. stopped u _ w)
  set_dns-Undone none (some e) q = rw q (backed_out _ (no_plane e) refl)

  add_routes-Undone :
      (a : Added) → Undone f.undo plan (add_routes f plan a (record clean { device = true }))
  add_routes-Undone all_added = set_dns-Undone f.dns f.plane refl
  add_routes-Undone (add_failed e routes rules) = backed_out _ (not_routed e) refl

  create_device-Undone :
      (c k : Option Text) (r : Outcome RouteError (List Prefix))
      → f.configure ≡ k
      → Undone f.undo plan (create_device f plan r c clean)
  create_device-Undone (some e) k r q = (refl, (λ d. (refl, refl)), λ u w. cleaned u clean refl w)
  create_device-Undone none (some e) r q = rw q (backed_out _ (not_configured e) refl)
  create_device-Undone none none (err e) q = rw q (backed_out _ (bad_routes e) refl)
  create_device-Undone none none (ok prefixes) q = rw q (add_routes-Undone f.add)

  -- On a host without a session, a setup that succeeds makes every change. A setup that fails,
  -- whichever of its calls failed, leaves no data plane, and neither device nor routes if its
  -- Device.Delete worked. Whatever is then on the host, also where the calls that undo a change failed
  -- in setup, a later stopSession (where setup succeeded) or cleanup (where it failed) takes back, if
  -- Device.Delete, Router.Reset and Resolver.Revert work in it.
  pub setup-Undone :
      (parse_prefix : Text → Option Prefix) (parse_addr : Text → Option Addr)
      → Undone f.undo plan (setup parse_prefix parse_addr f plan clean)
  unfolding setup
  setup-Undone parse_prefix parse_addr =
      create_device-Undone f.create f.configure (route_prefixes parse_prefix parse_addr plan) refl

  set_dns_rules :
      (r : Option SessionError) (p : Option Text) (h : Host)
      → f.plane ≡ p
      → h.rules ≡ true
      → (set_dns f plan r h).0.rules ≡ true
  set_dns_rules (some e) p h q t = t
  set_dns_rules none none h q t = rw q t
  set_dns_rules none (some e) h q t = rw q t

  -- Where the device comes up and Router.Add gives no error, the rules are on the host after setup,
  -- also where applyDNS or the data plane then fails: no way out of setup takes them back.
  pub setup_leaves_rules :
      (parse_prefix : Text → Option Prefix) (parse_addr : Text → Option Addr)
      (prefixes : List Prefix)
      → f.create ≡ none
      → f.configure ≡ none
      → route_prefixes parse_prefix parse_addr plan ≡ ok prefixes
      → f.add ≡ all_added
      → (setup parse_prefix parse_addr f plan clean).0.rules ≡ true
  unfolding setup
  setup_leaves_rules parse_prefix parse_addr prefixes c k r a =
      rw (c, k, r, a) (set_dns_rules f.dns f.plane _ refl refl)
