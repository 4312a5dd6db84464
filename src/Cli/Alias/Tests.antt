-- ===== src/Cli/Alias/Tests.antt =====
-- The alias commands on a config of one remote, and the theorems at it.
use tailjump.Prelude.{ℕ, ◌≡◌, ◌≢◌, refl, Bool, true, Option, none, ok, err, [], ◌∷◌}
use tailjump.Text.{Text, str, text_eq}
use tailjump.Net.Prefix.{Prefix}
use tailjump.Config.{
  Config, RemoteConfig, no_config, no_remote, remote_of, keys, sort, insert, validate,
  validate_values, validate_reconnect_for, validate_remotes, validate_remote,
}
use tailjump.Manifest.{parse_prefixes}
use tailjump.Dns
use tailjump.Cli.Alias.{
  not_in_config, unknown_field, has_key, put, saved, alias_set, alias_unset, alias_remove,
  remote_from_flags, unset_fields, unset_field,
}
use tailjump.Cli.Alias.Kept.{set, unset, remove, run, run-keeps, host_flag, set_empty_host}

abbrev no_prefix : Text → Option Prefix
no_prefix s = none

abbrev no_duration : Text → Option (Bool × ℕ)
no_duration s = none

abbrev gateway : RemoteConfig
gateway = record no_remote { host = str "gw"; dns = str "all" }

abbrev one : Config
one = record no_config { version = 1; remotes = (str "work", gateway) ∷ [] }

abbrev moved : Config
moved = record one { remotes = (str "work", record gateway { host = str "gw2" }) ∷ [] }

unset_host :
    run no_prefix one (unset (str "work") (str "host" ∷ [])) ≡ err (unknown_field (str "host"))
unfolding run alias_unset has_key unset_fields unset_field remote_of text_eq
unset_host = refl

remove_missing : run no_prefix one (remove (str "home")) ≡ err (not_in_config (str "home"))
unfolding run alias_remove has_key text_eq
remove_missing = refl

set_host :
    run no_prefix one (set (str "work") (host_flag no_prefix no_duration (str "gw2"))) ≡ ok moved
unfolding run alias_set has_key remote_from_flags put saved remote_of text_eq
set_host = refl

one_valid : validate no_prefix no_duration one ≡ none
unfolding validate validate_values validate_reconnect_for validate_remotes validate_remote remote_of
    keys insert sort text_eq parse_prefixes Dns.valid
one_valid = refl

run-keeps_example : validate no_prefix no_duration moved ≡ none
run-keeps_example =
    run-keeps no_prefix no_duration one moved
      (set (str "work") (host_flag no_prefix no_duration (str "gw2")))
      (record { dns = refl; transport = refl; protocols = refl; reconnect_for = refl }, refl)
      one_valid set_host

there : has_key one.remotes (str "work") ≡ true
unfolding has_key text_eq
there = refl

set_empty_host_example :
    (new : Config) × (run no_prefix one (set (str "work") (host_flag no_prefix no_duration []))
      ≡ ok new)
    × (validate no_prefix no_duration new ≢ none)
set_empty_host_example = set_empty_host no_prefix no_duration one (str "work") there
