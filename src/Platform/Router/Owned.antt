-- ===== src/Platform/Router/Owned.antt =====
-- The router and the tables and rules of others.
use tailjump.Prelude.{◌≡◌, ◌≢◌, ◌↔◌, List, [], ◌∷◌, All, ok}
use mathlib.Core.List.{Memᴰ}
use tailjump.Text.{Text}
use tailjump.Net.Prefix.{Prefix}
use tailjump.Platform.Router.{
  Family, Netlink, Route, Rule, route_table, rule_priority, session_rule, add, remove, reset,
}
use tailjump.Platform.Router.Steps.{Deletes, Adds, add-R, remove-R, reset-R}

-- A rule with the priority and the table of the session.
abbrev pub IsSession : Rule → Type 0
IsSession rule = (rule.priority ≡ rule_priority) × (rule.table ≡ route_table)

-- The two states have the same routes outside the session table, and the same rules but those of the
-- session.
pub record Kept (nl : Netlink) (s t : nl.State) : Type 0 where
  pub routes_kept :
      (f : Family) (x : Route)
      → x.table ≢ route_table
      → Memᴰ x (nl.routes f s) ↔ Memᴰ x (nl.routes f t)
  pub rules_kept :
      (f : Family) (x : Rule) → ¬ IsSession x → Memᴰ x (nl.rules f s) ↔ Memᴰ x (nl.rules f t)

-- What the kernel does with a change: a route in a table leaves the other tables and the rules as they
-- are, a rule leaves the routes and the rules of another priority or table. A list of a table has
-- routes of that table.
pub record Separate (nl : Netlink) : Type 0 where
  pub replace_keeps :
      (r : Route) (s : nl.State) → r.table ≡ route_table → Kept nl s (nl.route_replace r s).0
  pub del_keeps :
      (r : Route) (s : nl.State) → r.table ≡ route_table → Kept nl s (nl.route_del r s).0
  pub rule_add_keeps : (f : Family) (s : nl.State) → Kept nl s (nl.rule_add f session_rule s).0
  pub rule_del_keeps : (f : Family) (s : nl.State) → Kept nl s (nl.rule_del f session_rule s).0
  pub listing :
      (f : Family) (s : nl.State) (rs : List Route)
      → nl.route_list_filtered f route_table s ≡ ok rs
      → All (λ r. r.table ≡ route_table) rs

module _ (nl : Netlink) (v : Separate nl) where
  deletes : Deletes nl (Kept nl)
  deletes = record {
    same = λ s. record {
      routes_kept = λ f x h. ((λ m. m), λ m. m);
      rules_kept = λ f x h. ((λ m. m), λ m. m);
    };
    trans = λ s t u a b. record {
      routes_kept = λ f x h. (
        (λ m. (b.routes_kept f x h).0 ((a.routes_kept f x h).0 m)),
        λ m. (a.routes_kept f x h).1 ((b.routes_kept f x h).1 m),
      );
      rules_kept = λ f x h. (
        (λ m. (b.rules_kept f x h).0 ((a.rules_kept f x h).0 m)),
        λ m. (a.rules_kept f x h).1 ((b.rules_kept f x h).1 m),
      );
    };
    del = v.del_keeps;
    drop = v.rule_del_keeps;
    listing = v.listing;
  }

  adds : Adds nl (Kept nl) deletes
  adds = record { replace = v.replace_keeps; make = v.rule_add_keeps }

-- What the session does with the router.
pub data Call : Type 0 where
  adding removing : Text → List Prefix → Call
  resetting : Call

abbrev pub made : (nl : Netlink) → Call → nl.State → nl.State
made nl (adding device prefixes) s = (add nl device prefixes s).0
made nl (removing device prefixes) s = (remove nl device prefixes s).0
made nl resetting s = (reset nl s).0

unfoldable pub make_all : (nl : Netlink) → List Call → nl.State → nl.State
make_all nl [] s = s
make_all nl (c ∷ cs) s = make_all nl cs (made nl c s)

made-Kept : (nl : Netlink) (v : Separate nl) (c : Call) (s : nl.State) → Kept nl s (made nl c s)
made-Kept nl v (adding device prefixes) s =
    add-R nl (Kept nl) (deletes nl v) (adds nl v) device prefixes s
made-Kept nl v (removing device prefixes) s = remove-R nl (Kept nl) (deletes nl v) device prefixes s
made-Kept nl v resetting s = reset-R nl (Kept nl) (deletes nl v) s

-- Whatever calls of Add, Remove and Reset the session makes, and whichever of them fail or stop half
-- way, the routes of the other tables and the rules of another priority or table stay, and none comes,
-- where the kernel keeps the changes of one table and of one rule apart.
pub make_all-Kept :
    (nl : Netlink) (cs : List Call) (s : nl.State) → Separate nl → Kept nl s (make_all nl cs s)
unfolding make_all
make_all-Kept nl [] s v = (deletes nl v).same s
make_all-Kept nl (c ∷ cs) s v =
    (deletes nl v).trans s (made nl c s) _ (made-Kept nl v c s)
      (make_all-Kept nl cs (made nl c s) v)
