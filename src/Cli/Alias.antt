-- ===== src/Cli/Alias.antt =====
-- internal/cli/alias.go: the commands that write the aliases of the local config, and
-- saveLocalConfig of common.go. A command gives the config that it writes.
mod Remotes
mod Entries
pub mod Kept
mod Tests
use tailjump.Prelude.{
  ℕ, ◌==◌, ◌≡◌, Bool, true, false, ◌&&◌, ◌||◌, not, Option, none, some, Outcome, ok, err, ◌>>=◌,
  wrap, if◌then◌else◌, List, [], ◌∷◌,
}
use tailjump.Text.{Text, str, text_eq}
use tailjump.Net.Prefix.{Prefix}
use tailjump.Manifest.{parse_prefixes}
use tailjump.Config.{Config, RemoteConfig, no_remote, remote_of}

pub data AliasError : Type 0 where
  already_exists not_in_config : Text → AliasError
  bad_network bad_exclude : Text → AliasError
  unknown_field : Text → AliasError

-- The flags that were set, with the values that their Set took.
pub record RemoteFlags : Type 0 where
  pub host : Option Text
  pub user : Option Text
  pub dns : Option Text
  pub transport : Option Text
  pub protocols : Option Text
  pub reconnect_for : Option Text
  pub networks : Option (List Text)
  pub exclude : Option (List Text)

abbrev pub changed {ℓ} : {A : Type ℓ} → Option A → A → A
changed none old = old
changed (some new) old = new

abbrev pub parsed_flag :
    (Text → Option Prefix)
    → (Text → AliasError)
    → Option (List Text)
    → List Text
    → Outcome AliasError (List Text)
parsed_flag parse_prefix error none old = ok old
parsed_flag parse_prefix error (some new) old =
    wrap error (parse_prefixes parse_prefix new) >>= λ ps. ok new

unfoldable pub remote_from_flags :
    (Text → Option Prefix) → RemoteFlags → RemoteConfig → Outcome AliasError RemoteConfig
remote_from_flags parse_prefix f base =
    parsed_flag parse_prefix bad_network f.networks base.networks >>= λ networks.
    parsed_flag parse_prefix bad_exclude f.exclude base.exclude >>= λ exclude. ok (record {
      host = changed f.host base.host;
      user = changed f.user base.user;
      dns = changed f.dns base.dns;
      transport = changed f.transport base.transport;
      protocols = changed f.protocols base.protocols;
      networks = networks;
      exclude = exclude;
      reconnect_for = changed f.reconnect_for base.reconnect_for;
    })

-- `_, ok := m[name]`, `m[name] = rc` and `delete(m, name)` on the map of the remotes.
unfoldable pub has_key : List (Text × RemoteConfig) → Text → Bool
has_key [] name = false
has_key (e ∷ l) name = text_eq e.0 name || has_key l name

unfoldable pub put : Text → RemoteConfig → List (Text × RemoteConfig) → List (Text × RemoteConfig)
put name rc [] = (name, rc) ∷ []
put name rc (e ∷ l) =
    let rest = put name rc l in if text_eq e.0 name then (e.0, rc) ∷ l else e ∷ rest

unfoldable pub delete : Text → List (Text × RemoteConfig) → List (Text × RemoteConfig)
delete name [] = []
delete name (e ∷ l) = let rest = delete name l in if text_eq e.0 name then rest else e ∷ rest

-- The config that saveLocalConfig writes.
unfoldable pub saved : Config → Config
saved cfg = if cfg.version == 0 then record cfg { version = 1 } else cfg

unfoldable pub alias_add :
    (Text → Option Prefix) → Config → Text → RemoteFlags → Outcome AliasError Config
alias_add parse_prefix cfg alias f =
    if has_key cfg.remotes alias
    then err (already_exists alias)
    else (remote_from_flags parse_prefix f no_remote >>= λ rc.
        ok (saved (record cfg { remotes = put alias rc cfg.remotes })))

unfoldable pub alias_set :
    (Text → Option Prefix) → Config → Text → RemoteFlags → Outcome AliasError Config
alias_set parse_prefix cfg alias f =
    if not (has_key cfg.remotes alias)
    then err (not_in_config alias)
    else (remote_from_flags parse_prefix f (remote_of cfg.remotes alias) >>= λ rc.
        ok (saved (record cfg { remotes = put alias rc cfg.remotes })))

-- One field of alias unset.
unfoldable pub unset_field : Text → RemoteConfig → Outcome AliasError RemoteConfig
unfolding text_eq
unset_field field rc =
    if text_eq field (str "user")
    then ok (record rc { user = [] })
    else if text_eq field (str "dns")
    then ok (record rc { dns = [] })
    else if text_eq field (str "transport")
    then ok (record rc { transport = [] })
    else if text_eq field (str "protocols")
    then ok (record rc { protocols = [] })
    else if text_eq field (str "networks")
    then ok (record rc { networks = [] })
    else if text_eq field (str "exclude")
    then ok (record rc { exclude = [] })
    else if text_eq field (str "reconnect_for")
    then ok (record rc { reconnect_for = [] })
    else err (unknown_field field)

unfoldable pub unset_fields : List Text → RemoteConfig → Outcome AliasError RemoteConfig
unset_fields [] rc = ok rc
unset_fields (field ∷ fields) rc = unset_field field rc >>= unset_fields fields

unfoldable pub alias_unset : Config → Text → List Text → Outcome AliasError Config
alias_unset cfg alias fields =
    if not (has_key cfg.remotes alias)
    then err (not_in_config alias)
    else (unset_fields fields (remote_of cfg.remotes alias) >>= λ rc.
        ok (saved (record cfg { remotes = put alias rc cfg.remotes })))

unfoldable pub alias_remove : Config → Text → Outcome AliasError Config
alias_remove cfg alias =
    if not (has_key cfg.remotes alias)
    then err (not_in_config alias)
    else ok (saved (record cfg { remotes = delete alias cfg.remotes }))
