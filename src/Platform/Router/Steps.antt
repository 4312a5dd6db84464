-- ===== src/Platform/Router/Steps.antt =====
-- A relation of states that the netlink calls of the router respect, and that its operations then do.
use tailjump.Prelude.{
  refl, ℕ, Bool, true, false, Option, none, some, Outcome, ok, err, List, [], ◌∷◌, ◌≡◌, All,
}
use tailjump.Text.{Text}
use tailjump.Net.Prefix.{Prefix}
use tailjump.Platform.Router.{
  Family, Netlink, Errno, LinkAnswer, RouterError, Route, Done, and_then, settle, listed,
  any_session, session_rule, session_route, flush, reset, reset_family, drop_rule, dropped, ensured,
  remove, remove_on, remove_routes, add, add_on, add_routes, ensure_rule, ensure_rules, route_table,
  list_rules, list_table, del_rule, flush_table, is_missing, is_enoent, is_eexist, no_errno,
  add_rule, add_route, remove_route, family_v4, family_v6, found, not_found, link_failed,
}

-- What reset needs: it deletes routes of the session table, and the session rule.
pub record Deletes (nl : Netlink) (R : nl.State → nl.State → Type 0) : Type 0 where
  pub same : (s : nl.State) → R s s
  pub trans : (s t u : nl.State) → R s t → R t u → R s u
  pub del : (r : Route) (s : nl.State) → r.table ≡ route_table → R s (nl.route_del r s).0
  pub drop : (f : Family) (s : nl.State) → R s (nl.rule_del f session_rule s).0
  pub listing :
      (f : Family) (s : nl.State) (rs : List Route)
      → nl.route_list_filtered f route_table s ≡ ok rs
      → All (λ r. r.table ≡ route_table) rs

module _ (nl : Netlink) (R : nl.State → nl.State → Type 0) (v : Deletes nl R) where
  pub and_then-R :
      (s : nl.State) (d : Done nl) (next : nl.State → Done nl)
      → R s d.0
      → ((t : nl.State) → R t (next t).0)
      → R s (and_then nl d next).0
  and_then-R s (t, none) next h k = v.trans s t _ h (k t)
  and_then-R s (t, some e) next h k = h

  pub settle-R :
      (s : nl.State) (fine : Errno → Bool) (error : Errno → RouterError)
      (d : nl.State × Option Errno)
      → R s d.0
      → R s (settle nl fine error d).0
  settle-R s fine error (t, none) h = h
  settle-R s fine error (t, some e) h = h

  pub listed-R :
      {A : Type 0} (error : Text → RouterError) (o : Outcome Text A) (s : nl.State)
      (next : A → Done nl)
      → ((a : A) → o ≡ ok a → R s (next a).0)
      → R s (listed nl error o s next).0
  listed-R error (ok a) s next h = h a refl
  listed-R error (err e) s next h = v.same s

  pub flush-R :
      (rs : List Route) (s : nl.State) → All (λ r. r.table ≡ route_table) rs → R s (flush nl rs s).0
  unfolding flush
  flush-R [] s h = v.same s
  flush-R (r ∷ rs) s h =
      and_then-R s _ (flush nl rs) (settle-R s is_missing flush_table _ (v.del r s h.0))
        (λ t. flush-R rs t h.1)

  pub drop_rule-R : (f : Family) (s : nl.State) → R s (drop_rule nl f s).0
  drop_rule-R f s =
      listed-R list_rules (nl.rule_list f s) s (λ rules. dropped nl f s (any_session rules))
        (λ rules e. either (any_session rules))
    where
      either : (b : Bool) → R s (dropped nl f s b).0
      either true = settle-R s is_enoent del_rule _ (v.drop f s)
      either false = v.same s

  pub reset_family-R : (f : Family) (s : nl.State) → R s (reset_family nl f s).0
  reset_family-R f s =
      listed-R list_table (nl.route_list_filtered f route_table s) s
        (λ rs. and_then nl (flush nl rs s) (drop_rule nl f))
        (λ rs e.
          and_then-R s (flush nl rs s) (drop_rule nl f) (flush-R rs s (v.listing f s rs e))
            (drop_rule-R f))

  pub reset-R : (s : nl.State) → R s (reset nl s).0
  unfolding reset
  reset-R s =
      and_then-R s _ (reset_family nl family_v6) (reset_family-R family_v4 s)
        (reset_family-R family_v6)

  pub remove-R :
      (device : Text) (prefixes : List Prefix) (s : nl.State) → R s (remove nl device prefixes s).0
  unfolding remove remove_routes
  remove-R device prefixes s = on (nl.link_by_name device s)
    where
      each : (index : ℕ) (ps : List Prefix) (s : nl.State) → R s (remove_routes nl index ps s).0
      each index [] s = v.same s
      each index (p ∷ ps) s =
          and_then-R s _ (remove_routes nl index ps)
            (settle-R s is_missing (remove_route p) _ (v.del (session_route index p) s refl))
            (each index ps)

      on : (answer : LinkAnswer) → R s (remove_on nl answer prefixes s).0
      on (found index) = each index prefixes s
      on not_found = v.same s
      on (link_failed e) = v.same s

  -- What add needs beyond.
  pub record Adds : Type 0 where
    pub replace : (r : Route) (s : nl.State) → r.table ≡ route_table → R s (nl.route_replace r s).0
    pub make : (f : Family) (s : nl.State) → R s (nl.rule_add f session_rule s).0

  pub add_routes-R :
      (a : Adds) (index : ℕ) (ps : List Prefix) (s : nl.State) → R s (add_routes nl index ps s).0
  unfolding add_routes
  add_routes-R a index [] s = v.same s
  add_routes-R a index (p ∷ ps) s =
      and_then-R s _ (add_routes nl index ps)
        (settle-R s no_errno (add_route p) _ (a.replace (session_route index p) s refl))
        (add_routes-R a index ps)

  pub ensure_rule-R : (a : Adds) (f : Family) (s : nl.State) → R s (ensure_rule nl f s).0
  ensure_rule-R a f s =
      listed-R list_rules (nl.rule_list f s) s (λ rules. ensured nl f s (any_session rules))
        (λ rules e. either (any_session rules))
    where
      either : (b : Bool) → R s (ensured nl f s b).0
      either true = v.same s
      either false = settle-R s is_eexist add_rule _ (a.make f s)

  pub add-R :
      (a : Adds) (device : Text) (prefixes : List Prefix) (s : nl.State)
      → R s (add nl device prefixes s).0
  unfolding add ensure_rules
  add-R a device prefixes s = on (nl.link_by_name device s)
    where
      on : (answer : LinkAnswer) → R s (add_on nl answer prefixes s).0
      on (found index) =
          and_then-R s _ (add_routes nl index prefixes)
            (and_then-R s _ (ensure_rule nl family_v6) (ensure_rule-R a family_v4 s)
              (ensure_rule-R a family_v6))
            (add_routes-R a index prefixes)
      on not_found = v.same s
      on (link_failed e) = v.same s
