-- ===== src/Platform/Resolver.antt =====
-- internal/platform/linux/resolver.go: the DNS mode on the session's device. systemd-resolved holds
-- settings for the device, which `resolvectl` changes; without it the fallback of Platform.Files runs.
pub mod Reverted
mod Tests
use tailjump.Prelude.{
  Bool, true, false, List, [], ◌∷◌, ◌++◌, map, Option, none, some, Outcome, if◌then◌else◌,
}
use tailjump.Text.{Text, str}
use tailjump.Net.{Addr}
use tailjump.Platform.Files.{Files, Os, after, apply_fallback, revert_fallback, render}

-- The settings of a device in systemd-resolved.
pub record Link : Type 0 where
  pub servers : List Addr
  pub domains : List Text
  pub default_route : Option Bool

abbrev pub no_link : Link
no_link = record { servers = []; domains = []; default_route = none }

pub record Dns : Type 0 where
  pub link : Link
  pub files : Files

pub data Command : Type 0 where
  set_dns set_domains set_default_route revert_link : Command

-- Whether systemd-resolved runs, the commands that fail, the calls of the fallback, and the text of
-- an address.
pub record System : Type 0 where
  pub available : Bool
  pub command_fails : Command → Option Text
  pub os : Os
  pub addr_text : Addr → Text

pub data ResolverError : Type 0 where
  no_domains no_resolved : ResolverError
  failed : Text → ResolverError

abbrev pub Applied : Type 0
Applied = Dns × Option ResolverError

abbrev pub routing_domains : List Text → List Text
routing_domains domains = map (λ d. b'~' ∷ d) domains

abbrev pub all_domains : List Text → List Text
all_domains domains = str "~." ∷ domains

-- A command of resolvectl that changes the settings, and what follows where it succeeds.
abbrev pub command : Option Text → Dns → Link → (Dns → Applied) → Applied
command none d link next = next (record d { link = link })
command (some e) d link next = (d, some (failed e))

-- setDNS, setDomains and setDefaultRoute, one after the other.
abbrev pub set_link : System → List Addr → List Text → Bool → Dns → Applied
set_link sys servers domains route d =
    command (sys.command_fails set_dns) d (record d.link { servers = servers })
      λ d.
        command (sys.command_fails set_domains) d (record d.link { domains = domains })
          λ d.
            command (sys.command_fails set_default_route) d
              (record d.link { default_route = some route }) λ d. (d, none)

abbrev pub split_over : System → List Addr → List Text → Dns → Applied
split_over sys servers [] d = (d, some no_domains)
split_over sys servers (x ∷ domains) d =
    if sys.available
    then set_link sys servers (routing_domains (x ∷ domains)) false d
    else (d, some no_resolved)

unfoldable pub apply_split : System → List Addr → List Text → Dns → Applied
apply_split sys servers domains d = split_over sys servers domains d

abbrev pub fallback_error : Option Text → Option ResolverError
fallback_error none = none
fallback_error (some e) = some (failed e)

abbrev pub rewrite_files : System → List Addr → List Text → Dns → Applied
rewrite_files sys servers domains d =
    let r = apply_fallback sys.os (render (map sys.addr_text servers) domains) d.files in
    (record d { files = r.0 }, fallback_error r.1)

unfoldable pub apply_all : System → List Addr → List Text → Dns → Applied
apply_all sys servers domains d =
    if sys.available
    then set_link sys servers (all_domains domains) true d
    else rewrite_files sys servers domains d

abbrev pub error_list : Option Text → List Text → List Text
error_list none rest = rest
error_list (some e) rest = e ∷ rest

abbrev pub reverted_link : System → Dns → Dns × List Text
reverted_link sys d =
    if sys.available
    then elim (sys.command_fails revert_link) [
      | none ↦ (record d { link = no_link }, [])
      | some e ↦ (d, e ∷ [])
    ]
    else (d, [])

-- Revert: both changes are taken back, and the errors are joined.
unfoldable pub revert : System → Dns → Dns × List Text
revert sys d =
    let l = reverted_link sys d in
    let f = revert_fallback sys.os l.0.files in
    (record l.0 { files = f.0 }, l.1 ++ error_list f.1 [])
