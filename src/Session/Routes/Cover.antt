-- ===== src/Session/Routes/Cover.antt =====
-- The prefixes of a session: its networks, and every DNS server.
use mathlib.Core.List.{Memᴰ}
use tailjump.Prelude.{
  Bool, true, false, ◌||◌, Bool-cases, inl, inr, List, [], ◌∷◌, ◌++◌, append-nil, append_assoc, All,
  All-append, Option, none, some, Outcome, ok, if◌then◌else◌, ◌≡◌, refl, sym, ap, ◌∙◌, subst,
}
use tailjump.Text.{Text, text_eq}
use tailjump.Net.{Addr, is_set}
use tailjump.Net.Prefix.{Prefix, host_prefix, host_prefix-contains, has_zone}
use tailjump.Dns.{mode_none}
use tailjump.Session.Types.{Plan}
use tailjump.Session.Routes.{
  RouteError, covered_by, add_host, add_hosts, with_host, plan_networks, route_prefixes,
}
use tailjump.Prelude.{arith}

covered_by-append :
    (a : Addr) (ps qs : List Prefix) → covered_by a (ps ++ qs) ≡ covered_by a ps || covered_by a qs
unfolding covered_by
covered_by-append a [] qs = refl
covered_by-append a (p ∷ ps) qs = ground (arith, covered_by-append a ps qs)

add_host_keeps :
    (a b : Addr) (ps : List Prefix) → covered_by b ps ≡ true → covered_by b (add_host a ps) ≡ true
add_host_keeps a b ps h = ground (arith, covered_by-append b ps (host_prefix a ∷ []))

add_host_covers :
    (a : Addr) (ps : List Prefix)
    → is_set a ≡ true
    → has_zone a ≡ false
    → covered_by a (add_host a ps) ≡ true
unfolding covered_by
add_host_covers a ps h z =
    ground (arith, covered_by-append a ps (host_prefix a ∷ []), host_prefix-contains a h z)

ok_same :
    (ps rs : List Prefix) (o : Outcome RouteError (List Prefix)) → o ≡ ok ps → o ≡ ok rs → ps ≡ rs
ok_same ps rs o p e = cc

left_uncovered :
    (a : Addr) (ns hosts : List Prefix)
    → covered_by a (ns ++ hosts) ≡ false
    → covered_by a ns ≡ false
left_uncovered a ns hosts e = ground (arith, covered_by-append a ns hosts)

-- What the loop adds to the networks `ns`: host routes of addresses that they do not cover.
abbrev pub Hosts : List Prefix → List Prefix → Type 0
Hosts ns hosts = All (λ p. (a : Addr) × (p ≡ host_prefix a) × (covered_by a ns ≡ false)) hosts

add_host-Hosts :
    (a : Addr) (ns hosts : List Prefix)
    → Hosts ns hosts
    → (hosts' : List Prefix) × (add_host a (ns ++ hosts) ≡ ns ++ hosts') × Hosts ns hosts'
add_host-Hosts a ns hosts h = elim (Bool-cases (covered_by a (ns ++ hosts))) [
  | inl e ↦ (hosts, rw e refl, h)
  | inr e ↦ (
    hosts ++ (host_prefix a ∷ []),
    rw e (append_assoc ns hosts (host_prefix a ∷ [])),
    All-append _ hosts (host_prefix a ∷ []) h ((a, refl, left_uncovered a ns hosts e), tt),
  )
]

module _ (parse_addr : Text → Option Addr) where
  with_host-ok :
      (s : Text) (o : Option Addr) (next : Addr → Outcome RouteError (List Prefix))
      (rs : List Prefix)
      → with_host s o next ≡ ok rs
      → (a : Addr) × (o ≡ some a) × (next a ≡ ok rs)
  with_host-ok s none next rs h = cc
  with_host-ok s (some a) next rs h = (a, refl, h)

  with_host-some :
      (s : Text) (o : Option Addr) (a : Addr) (next : Addr → Outcome RouteError (List Prefix))
      (rs : List Prefix)
      → o ≡ some a
      → with_host s o next ≡ ok rs
      → next a ≡ ok rs
  with_host-some s o a next rs e h = subst (λ o. with_host s o next ≡ ok rs) e h

  add_hosts_keep :
      (b : Addr) (servers : List Text) (ps rs : List Prefix)
      → add_hosts parse_addr ps servers ≡ ok rs
      → covered_by b ps ≡ true
      → covered_by b rs ≡ true
  unfolding add_hosts
  add_hosts_keep b [] ps rs e h = subst (λ l. covered_by b l ≡ true) (ok_same ps rs _ refl e) h
  add_hosts_keep b (s ∷ servers) ps rs e h =
      let w = with_host-ok s (parse_addr s) _ rs e in
      add_hosts_keep b servers (add_host w.0 ps) rs w.2 (add_host_keeps w.0 b ps h)

  add_hosts_cover :
      (s : Text) (a : Addr) (servers : List Text) (ps rs : List Prefix)
      → Memᴰ s servers
      → parse_addr s ≡ some a
      → is_set a ≡ true
      → has_zone a ≡ false
      → add_hosts parse_addr ps servers ≡ ok rs
      → covered_by a rs ≡ true
  unfolding add_hosts
  add_hosts_cover s a [] ps rs m p h z e = elim m [ ]
  add_hosts_cover s a (t ∷ servers) ps rs (Memᴰ.head q) p h z e =
      add_hosts_keep a servers (add_host a ps) rs
        (with_host-some t (parse_addr t) a _ rs (subst (λ x. parse_addr x ≡ some a) q p) e)
        (add_host_covers a ps h z)
  add_hosts_cover s a (t ∷ servers) ps rs (Memᴰ.tail m) p h z e =
      let w = with_host-ok t (parse_addr t) _ rs e in
      add_hosts_cover s a servers (add_host w.0 ps) rs m p h z w.2

  add_hosts-Hosts :
      (servers : List Text) (ns hosts rs : List Prefix)
      → Hosts ns hosts
      → add_hosts parse_addr (ns ++ hosts) servers ≡ ok rs
      → (hosts' : List Prefix) × (rs ≡ ns ++ hosts') × Hosts ns hosts'
  unfolding add_hosts
  add_hosts-Hosts [] ns hosts rs h e = (hosts, sym (ok_same (ns ++ hosts) rs _ refl e), h)
  add_hosts-Hosts (s ∷ servers) ns hosts rs h e =
      let w = with_host-ok s (parse_addr s) _ rs e in
      let g = add_host-Hosts w.0 ns hosts h in
      add_hosts-Hosts servers ns g.0 rs g.2
        (ap (λ l. add_hosts parse_addr l servers) (sym g.1) ∙ w.2)

  module _ (parse_prefix : Text → Option Prefix) (plan : Plan) (networks routes : List Prefix) where
    routed :
        (b : Bool)
        → plan_networks parse_prefix plan ≡ ok networks
        → text_eq plan.dns.mode mode_none ≡ b
        → route_prefixes parse_prefix parse_addr plan
          ≡ (if b then ok networks else add_hosts parse_addr networks plan.dns.servers)
    unfolding route_prefixes
    routed b n m = rw n (rw m refl)

    -- Where the networks of the plan parse and routePrefixes gives its routes, the routes are the
    -- networks, in their order, and after them host routes of addresses that no network contains.
    pub route_prefixes-Hosts :
        plan_networks parse_prefix plan ≡ ok networks
        → route_prefixes parse_prefix parse_addr plan ≡ ok routes
        → (hosts : List Prefix) × (routes ≡ networks ++ hosts) × Hosts networks hosts
    route_prefixes-Hosts n r = elim (Bool-cases (text_eq plan.dns.mode mode_none)) [
      | inl e ↦
          ([], sym (ok_same networks routes _ (routed true n e) r) ∙ sym (append-nil networks), tt)
      | inr e ↦ add_hosts-Hosts plan.dns.servers networks [] routes tt (
          ap (λ l. add_hosts parse_addr l plan.dns.servers) (append-nil networks)
          ∙ sym (routed false n e)
          ∙ r)
    ]

    -- Where the DNS mode is not none and routePrefixes gives its routes, every DNS server of the plan
    -- that parses as an address without a zone is in one of the routes.
    pub route_prefixes_covers :
        (s : Text) (a : Addr)
        → plan_networks parse_prefix plan ≡ ok networks
        → route_prefixes parse_prefix parse_addr plan ≡ ok routes
        → text_eq plan.dns.mode mode_none ≡ false
        → Memᴰ s plan.dns.servers
        → parse_addr s ≡ some a
        → is_set a ≡ true
        → has_zone a ≡ false
        → covered_by a routes ≡ true
    route_prefixes_covers s a n r m q p h z =
        add_hosts_cover s a plan.dns.servers networks routes q p h z (sym (routed false n m) ∙ r)
