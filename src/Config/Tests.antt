-- ===== src/Config/Tests.antt =====
-- validate on a config of two remotes, and the theorem at it.
use tailjump.Text.{str, text_eq}
use tailjump.Prelude.{if◌then◌else◌, ℕ, Bool, false, ◌≡◌, ◌↔◌, refl, [], ◌∷◌, Option, none, some}
use tailjump.Net.{v4}
use tailjump.Net.Prefix.{Prefix}
use tailjump.Manifest.{parse_prefixes}
use tailjump.Config.{
  Config, RemoteConfig, no_defaults, no_remote, validate, bad_dns, no_host, validate_values,
  validate_reconnect_for, validate_remotes, validate_remote, remote_of, keys, text_leb, insert,
  sort,
}
use tailjump.Dns
use tailjump.Config.Valid.{IsValid, validate-IsValid}
use tailjump.Config.{Text, [], ◌∷◌}
use tailjump.Prelude.{◌≡◌}
use tailjump.Config.{Option, none, some}
use tailjump.Config.{Bool, Prefix}
use tailjump.Prelude.{◌↔◌}
use tailjump.Config.{ℕ}

abbrev prefix_named : Text → Option Prefix
prefix_named s =
    if text_eq s (str "10.0.0.0/8") then some (record { addr = v4 0x0a000000; bits = 8 }) else none

abbrev duration_named : Text → Option (Bool × ℕ)
duration_named s = if text_eq s (str "10m") then some (false, 600000000000) else none

abbrev gateway : RemoteConfig
gateway = record no_remote {
  host = str "gw";
  networks = str "10.0.0.0/8" ∷ [];
  reconnect_for = str "10m";
}

abbrev two_remotes : RemoteConfig → Config
two_remotes rc = record {
  version = 1;
  defaults = record no_defaults { dns = str "split" };
  exclude = [];
  remotes = (str "work", gateway) ∷ (str "home", rc) ∷ [];
}

-- The names are visited in their order, so the error is the one of the remote home.
first_name :
    validate prefix_named duration_named (record (two_remotes no_remote) {
      remotes = (str "work", no_remote) ∷ (str "home", no_remote) ∷ [];
    })
    ≡ some (no_host (str "home"))
unfolding validate validate_values validate_reconnect_for validate_remotes validate_remote remote_of
    keys text_leb insert sort text_eq parse_prefixes Dns.valid
first_name = refl

bad_mode :
    validate prefix_named duration_named (two_remotes (record gateway { dns = str "some" }))
    ≡ some (bad_dns (str "remotes.home") (str "some"))
unfolding validate validate_values validate_reconnect_for validate_remotes validate_remote remote_of
    keys text_leb insert sort text_eq parse_prefixes Dns.valid
bad_mode = refl

both_valid : validate prefix_named duration_named (two_remotes gateway) ≡ none
unfolding validate validate_values validate_reconnect_for validate_remotes validate_remote remote_of
    keys text_leb insert sort text_eq parse_prefixes Dns.valid
both_valid = refl

validate-IsValid_example :
    (validate prefix_named duration_named (two_remotes gateway) ≡ none)
    ↔ IsValid prefix_named duration_named (two_remotes gateway)
validate-IsValid_example = validate-IsValid prefix_named duration_named (two_remotes gateway)
