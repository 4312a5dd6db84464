-- ===== src/Platform/Router.antt =====
-- internal/platform/linux/router.go, over the calls of vishvananda/netlink that it makes.
pub mod Steps
pub mod Owned
pub mod Tables
pub mod Connected
pub mod Listing
mod Tests
use tailjump.Prelude.{
  ℕ, ◌==◌, Bool, true, false, ◌&&◌, ◌||◌, not, Option, none, some, Outcome, ok, err, if◌then◌else◌,
  List, [], ◌∷◌, ◌++◌, ◌≡◌, ◌↔◌, ◌≢◌,
}
use mathlib.Core.List.{Memᴰ}
use tailjump.Text.{Text, str, text_eq}
use tailjump.Net.{Addr, as_slice, addr_from_slice, is_set, unmap}
use tailjump.Net.Prefix.{Prefix}

abbrev pub route_table : ℕ
route_table = 117

abbrev pub rule_priority : ℕ
rule_priority = 5300

abbrev pub scope_link : ℕ
scope_link = 253

abbrev pub device_name : Text
device_name = str "tj0"

pub data Family : Type 0 where
  family_v4 family_v6 : Family

-- `net.IPNet`: the bytes of the address, and the ones of the mask.
pub record IpNet : Type 0 where
  pub ip : List ℕ
  pub ones : ℕ

-- `netlink.Route` and `netlink.Rule`; `other` stands for the attributes that the router neither sets
-- nor reads.
pub record Route : Type 0 where
  pub link_index : ℕ
  pub dst : Option IpNet
  pub gw : Option (List ℕ)
  pub scope : ℕ
  pub table : ℕ
  pub other : List ℕ

pub record Rule : Type 0 where
  pub priority : ℕ
  pub table : ℕ
  pub other : List ℕ

pub data Errno : Type 0 where
  eexist esrch enoent : Errno
  errno : Text → Errno

pub data LinkAnswer : Type 0 where
  found : ℕ → LinkAnswer
  not_found : LinkAnswer
  link_failed : Text → LinkAnswer

-- The calls of netlink. A change gives the state after it, and its error. `routes` and `rules` are
-- what the kernel holds.
pub record Netlink : Type 1 where
  pub State : Type 0
  pub routes : Family → State → List Route
  pub rules : Family → State → List Rule
  pub link_by_name : Text → State → LinkAnswer
  pub link_by_index : ℕ → State → Option Text
  pub rule_list : Family → State → Outcome Text (List Rule)
  pub rule_add : Family → Rule → State → State × Option Errno
  pub rule_del : Family → Rule → State → State × Option Errno
  pub route_list : State → Outcome Text (List Route)
  pub route_list_filtered : Family → ℕ → State → Outcome Text (List Route)
  pub route_replace : Route → State → State × Option Errno
  pub route_del : Route → State → State × Option Errno

pub data RouterError : Type 0 where
  no_link : RouterError
  link list_rules list_table : Text → RouterError
  add_rule del_rule flush_table : Errno → RouterError
  add_route remove_route : Prefix → Errno → RouterError

-- The results of the router: the state after, and the error.
abbrev pub Done : Netlink → Type 0
Done nl = nl.State × Option RouterError

-- An early return on an error, and what follows without one.
abbrev pub and_then : (nl : Netlink) → Done nl → (nl.State → Done nl) → Done nl
and_then nl (s, none) next = next s
and_then nl (s, some e) next = (s, some e)

-- A change whose `fine` errors do not count.
abbrev pub settle :
    (nl : Netlink) → (Errno → Bool) → (Errno → RouterError) → nl.State × Option Errno → Done nl
settle nl fine error (s, none) = (s, none)
settle nl fine error (s, some e) = (s, if fine e then none else some (error e))

-- A list from the kernel, and what follows where it comes.
abbrev pub listed {ℓ} :
    {A : Type ℓ} (nl : Netlink)
    → (Text → RouterError)
    → Outcome Text A
    → nl.State
    → (A → Done nl)
    → Done nl
listed nl error (ok a) s next = next a
listed nl error (err e) s next = (s, some (error e))

abbrev pub no_errno : Errno → Bool
no_errno e = false

abbrev pub is_eexist : Errno → Bool
is_eexist e = elim e [ eexist ↦ true | _ ↦ false ]

abbrev pub is_enoent : Errno → Bool
is_enoent e = elim e [ enoent ↦ true | _ ↦ false ]

abbrev pub is_missing : Errno → Bool
is_missing e = elim e [ enoent ↦ true | esrch ↦ true | _ ↦ false ]

abbrev pub session_rule : Rule
session_rule = record { priority = rule_priority; table = route_table; other = [] }

abbrev pub prefix_to_ip_net : Prefix → IpNet
prefix_to_ip_net p = record { ip = as_slice p.addr; ones = p.bits }

abbrev pub session_route : ℕ → Prefix → Route
session_route index p = record {
  link_index = index;
  dst = some (prefix_to_ip_net p);
  gw = none;
  scope = scope_link;
  table = route_table;
  other = [];
}

-- ruleExists: the loop over the rules.
unfoldable pub any_session : List Rule → Bool
any_session [] = false
any_session (rule ∷ rules) =
    (rule.priority == rule_priority && rule.table == route_table) || any_session rules

-- ruleExists, and what follows.
abbrev pub rule_exists : (nl : Netlink) → Family → nl.State → (Bool → Done nl) → Done nl
rule_exists nl f s next =
    listed nl list_rules (nl.rule_list f s) s λ rules. next (any_session rules)

abbrev pub ensured : (nl : Netlink) → Family → nl.State → Bool → Done nl
ensured nl f s true = (s, none)
ensured nl f s false = settle nl is_eexist add_rule (nl.rule_add f session_rule s)

abbrev pub ensure_rule : (nl : Netlink) → Family → nl.State → Done nl
ensure_rule nl f s = rule_exists nl f s (ensured nl f s)

unfoldable pub ensure_rules : (nl : Netlink) → nl.State → Done nl
ensure_rules nl s = and_then nl (ensure_rule nl family_v4 s) (ensure_rule nl family_v6)

unfoldable pub add_routes : (nl : Netlink) → ℕ → List Prefix → nl.State → Done nl
add_routes nl index [] s = (s, none)
add_routes nl index (p ∷ ps) s =
    and_then nl (settle nl no_errno (add_route p) (nl.route_replace (session_route index p) s))
      (add_routes nl index ps)

abbrev pub add_on : (nl : Netlink) → LinkAnswer → List Prefix → nl.State → Done nl
add_on nl (found index) prefixes s = and_then nl (ensure_rules nl s) (add_routes nl index prefixes)
add_on nl not_found prefixes s = (s, some no_link)
add_on nl (link_failed e) prefixes s = (s, some (link e))

unfoldable pub add : (nl : Netlink) → Text → List Prefix → nl.State → Done nl
add nl device prefixes s = add_on nl (nl.link_by_name device s) prefixes s

-- Reset: the loop over the routes of a family, its rule, and the two families.
unfoldable pub flush : (nl : Netlink) → List Route → nl.State → Done nl
flush nl [] s = (s, none)
flush nl (r ∷ rs) s =
    and_then nl (settle nl is_missing flush_table (nl.route_del r s)) (flush nl rs)

abbrev pub dropped : (nl : Netlink) → Family → nl.State → Bool → Done nl
dropped nl f s true = settle nl is_enoent del_rule (nl.rule_del f session_rule s)
dropped nl f s false = (s, none)

abbrev pub drop_rule : (nl : Netlink) → Family → nl.State → Done nl
drop_rule nl f s = rule_exists nl f s (dropped nl f s)

abbrev pub reset_family : (nl : Netlink) → Family → nl.State → Done nl
reset_family nl f s =
    listed nl list_table (nl.route_list_filtered f route_table s) s
      λ rs. and_then nl (flush nl rs s) (drop_rule nl f)

unfoldable pub reset : (nl : Netlink) → nl.State → Done nl
reset nl s = and_then nl (reset_family nl family_v4 s) (reset_family nl family_v6)

unfoldable pub remove_routes : (nl : Netlink) → ℕ → List Prefix → nl.State → Done nl
remove_routes nl index [] s = (s, none)
remove_routes nl index (p ∷ ps) s =
    and_then nl (settle nl is_missing (remove_route p) (nl.route_del (session_route index p) s))
      (remove_routes nl index ps)

abbrev pub remove_on : (nl : Netlink) → LinkAnswer → List Prefix → nl.State → Done nl
remove_on nl (found index) prefixes s = remove_routes nl index prefixes s
remove_on nl not_found prefixes s = (s, none)
remove_on nl (link_failed e) prefixes s = (s, some (link e))

unfoldable pub remove : (nl : Netlink) → Text → List Prefix → nl.State → Done nl
remove nl device prefixes s = remove_on nl (nl.link_by_name device s) prefixes s
