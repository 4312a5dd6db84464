-- ===== src/Discovery/Accepted.antt =====
-- What follows from a result that validate accepts.
use tailjump.Prelude.{
  ◌≡◌, Bool, true, false, List, [], ◌∷◌, ◌++◌, Option, none, some, Outcome, ok, err, All, refl, ap,
  if◌then◌else◌,
}
use tailjump.Text.{Text, is_empty}
use tailjump.Text.Split.{cut-append, Lacks}
use tailjump.Net.{Addr}
use tailjump.Net.Prefix.{Prefix}
use tailjump.Discovery.{
  no_exec_dir, bad_resolver, bad_cloud_network, Result, DiscoveryError, and_then, require,
  parsed_or, each_parses, networks_of, parse_prefixes, then_prefix, link_route_prefixes,
  cloud_network_prefixes, decoded, decoded_manifest, validate, fetch_manifest,
}
use tailjump.Discovery.{bad_base64, ℕ}
use tailjump.Prelude.{is_ok}
use tailjump.Discovery.{no_version}
use tailjump.Discovery.{no_hostname}
use tailjump.Discovery.{no_exec_dir}
use tailjump.Discovery.{bad_address}
use tailjump.Discovery.{bad_link_route}

and_then-none : (e f : Option DiscoveryError) → and_then e f ≡ none → (e ≡ none) × (f ≡ none)
and_then-none none f h = (refl, h)
and_then-none (some e) f h = cc

parsed_or-none {ℓ} :
    {A : Type ℓ} (o : Option A) (e : DiscoveryError) → parsed_or o e ≡ none → (a : A) × (o ≡ some a)
parsed_or-none none e h = cc
parsed_or-none (some a) e h = (a, refl)

abbrev pub is_some {ℓ} : {A : Type ℓ} → Option A → Bool
is_some none = false
is_some (some a) = true

each_parses-All {ℓ} :
    {A : Type ℓ} (parse : Text → Option A) (error : Text → DiscoveryError) (l : List Text)
    → each_parses parse error l ≡ none
    → All (λ s. is_some (parse s) ≡ true) l
unfolding each_parses
each_parses-All parse error [] h = tt
each_parses-All parse error (s ∷ l) h =
    let both = and_then-none (parsed_or (parse s) (error s)) (each_parses parse error l) h in
    (ap is_some (parsed_or-none (parse s) (error s) both.0).1, each_parses-All parse error l both.1)

then_prefix_ok :
    (s : Text) (o : Option Prefix) (rest : Outcome DiscoveryError (List Prefix))
    → is_some o ≡ true
    → is_ok rest ≡ true
    → is_ok (then_prefix s o rest) ≡ true
then_prefix_ok s none rest h k = cc
then_prefix_ok s (some p) (ok l) h k = refl
then_prefix_ok s (some p) (err e) h k = k

parse_prefixes_ok :
    (parse_prefix : Text → Option Prefix) (l : List Text)
    → All (λ s. is_some (parse_prefix s) ≡ true) l
    → is_ok (parse_prefixes parse_prefix l) ≡ true
unfolding parse_prefixes
parse_prefixes_ok parse_prefix [] h = refl
parse_prefixes_ok parse_prefix (s ∷ l) h =
    then_prefix_ok s (parse_prefix s) _ h.0 (parse_prefixes_ok parse_prefix l h.1)

decoded_ok :
    (e : Bool) (o : Option Text)
    → (if e then none else parsed_or o bad_base64) ≡ none
    → is_ok (if e then ok [] else decoded o) ≡ true
decoded_ok true o h = refl
decoded_ok false none h = cc
decoded_ok false (some body) h = refl

-- Of a result that validate accepts, the link routes, the cloud networks and the manifest can be
-- read, and so can every resolver.
pub validate_reads :
    (parse_prefix : Text → Option Prefix) (parse_addr : Text → Option Addr)
    (base64 : Text → Option Text) (r : Result)
    → validate parse_prefix parse_addr base64 r ≡ none
    → (is_ok (link_route_prefixes parse_prefix r) ≡ true)
      × (is_ok (cloud_network_prefixes parse_prefix r) ≡ true)
      × (is_ok (decoded_manifest base64 r) ≡ true)
      × All (λ s. is_some (parse_addr s) ≡ true) r.resolvers
unfolding validate link_route_prefixes cloud_network_prefixes decoded_manifest
validate_reads parse_prefix parse_addr base64 r h =
    let (version, h) = and_then-none (require r.version no_version) _ h in
    let (hostname, h) = and_then-none (require r.hostname no_hostname) _ h in
    let (exec_dir, h) = and_then-none (require r.exec_dir no_exec_dir) _ h in
    let (addresses, h) = and_then-none (each_parses parse_prefix bad_address r.addresses) _ h in
    let (routes, h) = and_then-none (each_parses parse_prefix bad_link_route r.link_routes) _ h in
    let (resolvers, h) = and_then-none (each_parses parse_addr bad_resolver r.resolvers) _ h in
    let (cloud, manifest) =
      and_then-none (each_parses parse_prefix bad_cloud_network (networks_of r.cloud)) _ h in
    (
      parse_prefixes_ok parse_prefix r.link_routes
          (each_parses-All parse_prefix bad_link_route _ routes),
      parse_prefixes_ok parse_prefix (networks_of r.cloud)
          (each_parses-All parse_prefix bad_cloud_network _ cloud),
      decoded_ok (is_empty r.manifest) (base64 r.manifest) manifest,
      each_parses-All parse_addr bad_resolver r.resolvers resolvers,
    )

-- The script prints the path in a line of its own, and then the manifest.
pub fetch_manifest_found :
    (c : ℕ) (path body : Text)
    → Lacks b'\n' (c ∷ path)
    → fetch_manifest (ok ((c ∷ path) ++ (b'\n' ∷ body))) ≡ ok (c ∷ path, body)
fetch_manifest_found c path body h = rw (cut-append b'\n' (c ∷ path) body h) refl
