-- ===== src/Platform/Router/Connected.antt =====
-- Connected of internal/platform/linux/router.go.
pub mod Distinct
use tailjump.Prelude.{
  ℕ, ◌≡◌, ◌≢◌, ◌==◌, ◌||◌, Bool, true, false, not, refl, sym, ◌∙◌, ap, subst, Option, none, some,
  List, [], ◌∷◌, Outcome, ok, err, ◌>>=◌, wrap, wrapped_ok, ok-injective, if◌then◌else◌, Bool-cases,
  inl, inr, arith,
}
use mathlib.Core.List.{Memᴰ}
use mathlib.Core.List.Memᴰ.{head, tail, cases_cons}
use tailjump.Text.{Text, str, text_eq, text_eq_iff}
use tailjump.Net.{Addr, invalid, v4, v6, addr_from_slice, is_set, unmap}
use tailjump.Net.Prefix.{Prefix}
use tailjump.Platform.Router.{Netlink, IpNet, Route, scope_link, device_name}

-- The prefix of a route through a link: none where the link is gone, the loopback or the device of
-- the session, or where the bytes are no address.
abbrev through : IpNet → Option Text → Option Prefix
through n none = none
through n (some name) =
    if text_eq name (str "lo") || text_eq name device_name
    then none
    else let a = addr_from_slice n.ip in
      if is_set a then some (record { addr = unmap a; bits = n.ones }) else none

abbrev to_subnet :
    (nl : Netlink) → nl.State → Route → Option IpNet → Option (List ℕ) → Option Prefix
to_subnet nl s r (some n) none =
    if r.scope == scope_link then through n (nl.link_by_index r.link_index s) else none
to_subnet nl s r none gw = none
to_subnet nl s r (some n) (some gw) = none

-- One round of the loop, up to the test of `seen`.
unfoldable pub subnet_of : (nl : Netlink) → nl.State → Route → Option Prefix
subnet_of nl s r = to_subnet nl s r r.dst r.gw

unfoldable pub seen_has : List Text → Text → Bool
seen_has [] t = false
seen_has (s ∷ seen) t = text_eq s t || seen_has seen t

-- The rest of a round: `old` is what follows where no prefix comes, `more` where one does.
abbrev pub grown :
    Option Prefix → (Prefix → Bool) → List Prefix → (Prefix → List Prefix) → List Prefix
grown none known old more = old
grown (some p) known old more = if known p then old else p ∷ more p

-- The loop, with the texts seen; `show` is `Prefix.String`.
unfoldable pub collect :
    (nl : Netlink) → (Prefix → Text) → nl.State → List Text → List Route → List Prefix
collect nl show s seen [] = []
collect nl show s seen (r ∷ rs) =
    grown (subnet_of nl s r) (λ p. seen_has seen (show p)) (collect nl show s seen rs)
      (λ p. collect nl show s (show p ∷ seen) rs)

unfoldable pub connected : (nl : Netlink) → (Prefix → Text) → nl.State → Outcome Text (List Prefix)
connected nl show s = nl.route_list s >>= λ routes. ok (collect nl show s [] routes)
