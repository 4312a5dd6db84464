-- ===== src/Session/Host/Tests.antt =====
-- Setups of a plan on a clean host, and the theorems at these inputs.
use tailjump.Prelude.{◌≡◌, refl, true, false, [], ◌∷◌, Option, none, some}
use tailjump.Text.{Text, str, text_eq}
use tailjump.Net.Prefix.{Prefix}
use tailjump.Session.Example.{example_plan, parse_addr}
use tailjump.Session.Routes.{route_prefixes, parse_networks, add_hosts, covered_by}
use tailjump.Net.{v4}
use tailjump.Session.Host.{Faults, Undo, all_added, clean, setup, no_plane}
use tailjump.Session.Host.Undone.{Undone, setup-Undone, setup_leaves_rules}

abbrev works : Undo
works = record { delete = none; remove = none; reset = none; revert = none }

abbrev no_fault : Faults
no_fault = record {
  create = none;
  configure = none;
  add = all_added;
  dns = none;
  dns_left = false;
  plane = none;
  undo = works;
}

abbrev plane_fails : Faults
plane_fails = record no_fault { plane = some (str "no memory") }

abbrev no_prefix : Text → Option Prefix
no_prefix s = none

-- The data plane fails, and so does the deletion of the device.
abbrev device_stays : Faults
device_stays = record plane_fails { undo = record works { delete = some true; remove = some true } }

left_device :
    (setup no_prefix parse_addr device_stays example_plan clean).0
    ≡ record clean { device = true; routes = true; rules = true }
unfolding setup route_prefixes parse_networks add_hosts text_eq
left_device = refl

-- The data plane fails: only the rules stay.
left_rules :
    setup no_prefix parse_addr plane_fails example_plan clean
    ≡ (record clean { rules = true }, some (no_plane (str "no memory")))
unfolding setup route_prefixes parse_networks add_hosts text_eq
left_rules = refl

setup-Undone_example :
    Undone works example_plan (setup no_prefix parse_addr no_fault example_plan clean)
setup-Undone_example = setup-Undone no_fault example_plan no_prefix parse_addr

setup_leaves_rules_example :
    (setup no_prefix parse_addr plane_fails example_plan clean).0.rules ≡ true
unfolding route_prefixes parse_networks add_hosts text_eq covered_by
setup_leaves_rules_example =
    setup_leaves_rules plane_fails example_plan no_prefix parse_addr
      (record { addr = v4 0x0a000035; bits = 32 } ∷ []) refl refl refl refl
