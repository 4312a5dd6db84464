-- ===== src/Config.antt =====
-- internal/config/config.go: the local config, decoded from its YAML, and what Load accepts.
pub mod Valid
mod Tests
use tailjump.Prelude.{
  ℕ, ◌==◌, Bool, true, false, ◌&&◌, ◌||◌, not, List, [], ◌∷◌, ◌++◌, Option, none, some, Outcome, ok,
  err, if◌then◌else◌, ltb,
}
use tailjump.Text.{Text, str, text_eq, is_empty}
use tailjump.Net.Prefix.{Prefix}
use tailjump.Dns
use tailjump.Transport
use tailjump.Protocols
use tailjump.Manifest.{parse_prefixes}

pub record Defaults : Type 0 where
  pub user : Text
  pub dns : Text
  pub transport : Text
  pub protocols : Text
  pub reconnect_for : Text

pub record RemoteConfig : Type 0 where
  pub host : Text
  pub user : Text
  pub dns : Text
  pub transport : Text
  pub protocols : Text
  pub networks : List Text
  pub exclude : List Text
  pub reconnect_for : Text

-- A version below 0 is left out; the map of the remotes is the list of its entries.
pub record Config : Type 0 where
  pub version : ℕ
  pub defaults : Defaults
  pub exclude : List Text
  pub remotes : List (Text × RemoteConfig)

-- The zero values.
abbrev pub no_defaults : Defaults
no_defaults = record { user = []; dns = []; transport = []; protocols = []; reconnect_for = [] }

abbrev pub no_remote : RemoteConfig
no_remote = record {
  host = [];
  user = [];
  dns = [];
  transport = [];
  protocols = [];
  networks = [];
  exclude = [];
  reconnect_for = [];
}

abbrev pub no_config : Config
no_config = record { version = 0; defaults = no_defaults; exclude = []; remotes = [] }

-- `c.Remotes[name]`, which is the zero value where the map has no such key.
unfoldable pub remote_of : List (Text × RemoteConfig) → Text → RemoteConfig
remote_of [] name = no_remote
remote_of (e ∷ remotes) name = if text_eq e.0 name then e.1 else remote_of remotes name

unfoldable pub keys : List (Text × RemoteConfig) → List Text
keys [] = []
keys (e ∷ remotes) = e.0 ∷ keys remotes

-- `sort.Strings`: the order of Go's strings is the one of their runes.
unfoldable pub text_leb : Text → Text → Bool
text_leb [] t = true
text_leb (c ∷ s) [] = false
text_leb (c ∷ s) (d ∷ t) = ltb c d || c == d && text_leb s t

unfoldable pub insert : Text → List Text → List Text
unfolding text_leb
insert s [] = s ∷ []
insert s (t ∷ l) = let rest = insert s l in if text_leb s t then s ∷ t ∷ l else t ∷ rest

unfoldable pub sort : List Text → List Text
unfolding insert
sort [] = []
sort (s ∷ l) = insert s (sort l)

-- The error of a value names the block that has it.
pub data ConfigError : Type 0 where
  bad_version : ℕ → ConfigError
  bad_dns bad_transport bad_protocols bad_reconnect_for : Text → Text → ConfigError
  bad_exclude : Text → ConfigError
  no_host : Text → ConfigError
  bad_remote_networks bad_remote_exclude : Text → Text → ConfigError

-- The first error of two checks.
abbrev pub and_then : Option ConfigError → Option ConfigError → Option ConfigError
and_then none e = e
and_then (some e) f = some e

abbrev pub refuse_if : Bool → ConfigError → Option ConfigError
refuse_if true e = some e
refuse_if false e = none

abbrev pub refuse_unparsed {ℓ} :
    {A : Type ℓ} → (Text → ConfigError) → Outcome Text A → Option ConfigError
refuse_unparsed error (ok a) = none
refuse_unparsed error (err s) = some (error s)

unfoldable pub validate_values : Text → Text → Text → Text → Option ConfigError
validate_values prefix dns transport protocols =
    and_then (refuse_if (not (is_empty dns) && not (Dns.valid dns)) (bad_dns prefix dns)) (
      and_then
        (refuse_if (not (is_empty transport) && not (Transport.valid transport))
          (bad_transport prefix transport))
        (refuse_if (not (is_empty protocols) && not (Protocols.valid protocols))
          (bad_protocols prefix protocols)))

-- A duration is whether it is below 0, and its nanoseconds.
abbrev pub below_0 : Option (Bool × ℕ) → Bool
below_0 none = true
below_0 (some d) = d.0

-- `parse_prefix` is netip.ParsePrefix, and `parse_duration` time.ParseDuration.
module _ (parse_prefix : Text → Option Prefix) (parse_duration : Text → Option (Bool × ℕ)) where
  unfoldable pub validate_reconnect_for : Text → Text → Option ConfigError
  validate_reconnect_for prefix value =
      if is_empty value
      then none
      else refuse_if (below_0 (parse_duration value)) (bad_reconnect_for prefix value)

  unfoldable pub validate_remote : Text → RemoteConfig → Option ConfigError
  validate_remote name rc = and_then (refuse_if (is_empty rc.host) (no_host name)) (
      and_then (validate_values (str "remotes." ++ name) rc.dns rc.transport rc.protocols) (
        and_then (validate_reconnect_for (str "remotes." ++ name) rc.reconnect_for) (
          and_then
            (refuse_unparsed (bad_remote_networks name) (parse_prefixes parse_prefix rc.networks))
            (refuse_unparsed (bad_remote_exclude name) (parse_prefixes parse_prefix rc.exclude)))))

  -- The loop over the names.
  unfoldable pub validate_remotes : List (Text × RemoteConfig) → List Text → Option ConfigError
  validate_remotes remotes [] = none
  validate_remotes remotes (name ∷ names) =
      and_then (validate_remote name (remote_of remotes name)) (validate_remotes remotes names)

  unfoldable pub validate : Config → Option ConfigError
  validate c =
      and_then (refuse_if (not (c.version == 0) && not (c.version == 1)) (bad_version c.version)) (
        and_then
          (validate_values (str "defaults") c.defaults.dns c.defaults.transport
            c.defaults.protocols)
          (and_then (validate_reconnect_for (str "defaults") c.defaults.reconnect_for) (
            and_then (refuse_unparsed bad_exclude (parse_prefixes parse_prefix c.exclude))
              (validate_remotes c.remotes (sort (keys c.remotes))))))
