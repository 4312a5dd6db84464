-- ===== src/Discovery.antt =====
-- internal/discovery/discovery.go: the result of the discovery script behind its JSON decoder, and
-- the manifest that a reconnect reads again.
pub mod Accepted
mod Tests
use tailjump.Prelude.{
  ℕ, Bool, true, false, List, [], ◌∷◌, ◌++◌, Option, none, some, Outcome, ok, err, ◌>>=◌,
  if◌then◌else◌, leb, length,
}
use tailjump.Text.{Text, str, is_empty}
use tailjump.Text.Split.{cut}
use tailjump.Net.{Addr}
use tailjump.Net.Prefix.{Prefix}

pub record Cloud : Type 0 where
  pub provider : Text
  pub networks : List Text

pub record Result : Type 0 where
  pub version : Text
  pub hostname : Text
  pub uname_m : Text
  pub exec_dir : Text
  pub manifest_path : Text
  pub manifest : Text
  pub addresses : List Text
  pub link_routes : List Text
  pub resolvers : List Text
  pub search_domains : List Text
  pub cloud : Option Cloud

pub data DiscoveryError : Type 0 where
  no_version no_hostname no_exec_dir : DiscoveryError
  bad_address bad_link_route bad_resolver bad_cloud_network : Text → DiscoveryError
  bad_base64 : DiscoveryError
  bad_prefix : Text → DiscoveryError
  run_failed unexpected_output : Text → DiscoveryError

-- The first error of two checks.
abbrev pub and_then : Option DiscoveryError → Option DiscoveryError → Option DiscoveryError
and_then none e = e
and_then (some e) f = some e

abbrev pub require : Text → DiscoveryError → Option DiscoveryError
require s e = if is_empty s then some e else none

abbrev pub parsed_or {ℓ} : {A : Type ℓ} → Option A → DiscoveryError → Option DiscoveryError
parsed_or none e = some e
parsed_or (some a) e = none

-- A loop of validate.
unfoldable pub each_parses {ℓ} :
    {A : Type ℓ} → (Text → Option A) → (Text → DiscoveryError) → List Text → Option DiscoveryError
each_parses parse error [] = none
each_parses parse error (s ∷ l) =
    and_then (parsed_or (parse s) (error s)) (each_parses parse error l)

abbrev pub networks_of : Option Cloud → List Text
networks_of none = []
networks_of (some c) = c.networks

abbrev pub then_prefix :
    Text
    → Option Prefix
    → Outcome DiscoveryError (List Prefix)
    → Outcome DiscoveryError (List Prefix)
then_prefix s none rest = err (bad_prefix s)
then_prefix s (some p) rest = rest >>= λ l. ok (p ∷ l)

-- The loop of parsePrefixes, which masks nothing.
unfoldable pub parse_prefixes :
    (Text → Option Prefix) → List Text → Outcome DiscoveryError (List Prefix)
parse_prefixes parse_prefix [] = ok []
parse_prefixes parse_prefix (s ∷ rest) =
    then_prefix s (parse_prefix s) (parse_prefixes parse_prefix rest)

unfoldable pub link_route_prefixes :
    (Text → Option Prefix) → Result → Outcome DiscoveryError (List Prefix)
link_route_prefixes parse_prefix r = parse_prefixes parse_prefix r.link_routes

unfoldable pub cloud_network_prefixes :
    (Text → Option Prefix) → Result → Outcome DiscoveryError (List Prefix)
cloud_network_prefixes parse_prefix r = parse_prefixes parse_prefix (networks_of r.cloud)

-- `base64` is the standard encoding's DecodeString; the bytes are those of a text.
abbrev pub decoded : Option Text → Outcome DiscoveryError Text
decoded none = err bad_base64
decoded (some body) = ok body

unfoldable pub decoded_manifest : (Text → Option Text) → Result → Outcome DiscoveryError Text
decoded_manifest base64 r = if is_empty r.manifest then ok [] else decoded (base64 r.manifest)

unfoldable pub validate :
    (Text → Option Prefix)
    → (Text → Option Addr)
    → (Text → Option Text)
    → Result
    → Option DiscoveryError
validate parse_prefix parse_addr base64 r = and_then (require r.version no_version) (
    and_then (require r.hostname no_hostname) (
      and_then (require r.exec_dir no_exec_dir) (
        and_then (each_parses parse_prefix bad_address r.addresses) (
          and_then (each_parses parse_prefix bad_link_route r.link_routes) (
            and_then (each_parses parse_addr bad_resolver r.resolvers) (
              and_then (each_parses parse_prefix bad_cloud_network (networks_of r.cloud)) (
                if is_empty r.manifest
                then none
                else parsed_or (base64 r.manifest) bad_base64)))))))

-- FetchManifest behind the run of its script: the path and the manifest.
abbrev pub fetched : Text → Text × Text × Bool → Outcome DiscoveryError (Text × Text)
fetched out parts =
    if parts.2
    then (if is_empty parts.0 then ok ([], []) else ok (parts.0, parts.1))
    else err (unexpected_output out)

abbrev pub fetch_manifest : Outcome Text Text → Outcome DiscoveryError (Text × Text)
fetch_manifest (err e) = err (run_failed e)
fetch_manifest (ok out) = fetched out (cut b'\n' out)
