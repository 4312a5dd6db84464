-- ===== src/Platform/Router/Listing/Laws.antt =====
-- The laws of netlink in the kernel of lists.
use tailjump.Prelude.{
  ℕ, ◌≡◌, ◌≢◌, ◌↔◌, ◌==◌, Bool, true, false, not, refl, ◌∙◌, ap, subst, List, [], ◌∷◌, All, ok,
  Bool-cases, inl, inr, arith, ok-injective,
}
use mathlib.Core.List.{Memᴰ}
use mathlib.Core.List.Memᴰ.{tail, cases_cons}
use tailjump.Platform.Router.{Family, family_v4, family_v6, Route, Rule, route_table, session_rule}
use tailjump.Platform.Router.Owned.{Kept, Separate, IsSession}
use tailjump.Platform.Router.Tables.{Kernel, Shrinks}
use tailjump.Platform.Router.Listing.{
  Held, without, without_has, has-without, same_route, same_rule, same_route_refl, put, routes_of,
  rules_of, with_rules, deleted, is_ipv4, listing,
}

other_table : (r x : Route) → r.table ≡ route_table → x.table ≢ route_table → same_route r x ≡ false
other_table r x h n = elim (Bool-cases (r.table == x.table)) [
  | inl e ↦ absurd (ground (arith, n, h, e))
  | inr e ↦ rw e refl
]

other_rule : (x : Rule) → ¬ IsSession x → same_rule session_rule x ≡ false
other_rule x n = elim (Bool-cases (same_rule session_rule x)) [
  | inr e ↦ e
  | inl e ↦ absurd (n (ground (arith, e), ground (arith, e)))
]

iff_without {ℓ} :
    {A : Type ℓ} (p : A → Bool) (x : A) (l : List A) → p x ≡ false → Memᴰ x l ↔ Memᴰ x (without p l)
iff_without p x l h = (has-without p x l h, λ m. (without_has p x l m).0)

iff_more {ℓ} : {A : Type ℓ} (x r : A) (l : List A) → x ≢ r → Memᴰ x l ↔ Memᴰ x (r ∷ l)
iff_more x r l n = (tail, λ m. elim (cases_cons m) [ inl e ↦ absurd (n e) | inr t ↦ t ])

put-Kept : (b : Bool) (r : Route) (s : Held) → r.table ≡ route_table → Kept listing s (put b r s)
put-Kept b r s h = record {
  routes_kept = λ f x n. at b f x (λ e. n (ap (λ x. x.table) e ∙ h));
  rules_kept = λ f x n. ruled b f x;
}
  where
    at :
        (b : Bool) (f : Family) (x : Route)
        → x ≢ r
        → Memᴰ x (routes_of f s) ↔ Memᴰ x (routes_of f (put b r s))
    at true family_v4 x n = iff_more x r s.routes4 n
    at true family_v6 x n = ((λ m. m), λ m. m)
    at false family_v4 x n = ((λ m. m), λ m. m)
    at false family_v6 x n = iff_more x r s.routes6 n

    ruled :
        (b : Bool) (f : Family) (x : Rule) → Memᴰ x (rules_of f s) ↔ Memᴰ x (rules_of f (put b r s))
    ruled true family_v4 x = ((λ m. m), λ m. m)
    ruled true family_v6 x = ((λ m. m), λ m. m)
    ruled false family_v4 x = ((λ m. m), λ m. m)
    ruled false family_v6 x = ((λ m. m), λ m. m)

deleted-Kept : (r : Route) (s : Held) → r.table ≡ route_table → Kept listing s (deleted r s)
deleted-Kept r s h = record {
  routes_kept = λ f x n. at f x (other_table r x h n);
  rules_kept = λ f x n. ruled f x;
}
  where
    at :
        (f : Family) (x : Route)
        → same_route r x ≡ false
        → Memᴰ x (routes_of f s) ↔ Memᴰ x (routes_of f (deleted r s))
    at family_v4 x e = iff_without (same_route r) x s.routes4 e
    at family_v6 x e = iff_without (same_route r) x s.routes6 e

    ruled : (f : Family) (x : Rule) → Memᴰ x (rules_of f s) ↔ Memᴰ x (rules_of f (deleted r s))
    ruled family_v4 x = ((λ m. m), λ m. m)
    ruled family_v6 x = ((λ m. m), λ m. m)

-- A change of the rules of a family that keeps those of others.
with_rules-Kept :
    (f : Family) (g : List Rule → List Rule) (s : Held)
    → ((x : Rule) (l : List Rule) → ¬ IsSession x → Memᴰ x l ↔ Memᴰ x (g l))
    → Kept listing s (with_rules f g s)
with_rules-Kept family_v4 g s h = record {
  routes_kept = λ f x n.
      elim f as (λ f. Memᴰ x (routes_of f s) ↔ Memᴰ x (routes_of f (with_rules family_v4 g s))) [
        | family_v4 ↦ ((λ m. m), λ m. m)
        | family_v6 ↦ ((λ m. m), λ m. m)
      ];
  rules_kept = λ f x n.
      elim f as (λ f. Memᴰ x (rules_of f s) ↔ Memᴰ x (rules_of f (with_rules family_v4 g s))) [
        | family_v4 ↦ h x s.rules4 n
        | family_v6 ↦ ((λ m. m), λ m. m)
      ];
}
with_rules-Kept family_v6 g s h = record {
  routes_kept = λ f x n.
      elim f as (λ f. Memᴰ x (routes_of f s) ↔ Memᴰ x (routes_of f (with_rules family_v6 g s))) [
        | family_v4 ↦ ((λ m. m), λ m. m)
        | family_v6 ↦ ((λ m. m), λ m. m)
      ];
  rules_kept = λ f x n.
      elim f as (λ f. Memᴰ x (rules_of f s) ↔ Memᴰ x (rules_of f (with_rules family_v6 g s))) [
        | family_v4 ↦ ((λ m. m), λ m. m)
        | family_v6 ↦ h x s.rules6 n
      ];
}

-- What passes a test that is the negation of one on the tables is in the table.
all_without :
    (t : ℕ) (l : List Route) → All (λ r. r.table ≡ t) (without (λ x. not (x.table == t)) l)
unfolding without
all_without t [] = tt
all_without t (x ∷ l) = elim (Bool-cases (x.table == t)) [
  | inl e ↦ rw e (ground (arith, e), all_without t l)
  | inr e ↦ rw e (all_without t l)
]

in_table :
    (f : Family) (s : Held) (rs : List Route)
    → listing.route_list_filtered f route_table s ≡ ok rs
    → All (λ r. r.table ≡ route_table) rs
in_table f s rs e =
    subst (All (λ r. r.table ≡ route_table)) (ok-injective _ rs e)
      (all_without route_table (routes_of f s))

pub listing-Separate : Separate listing
listing-Separate = record {
  replace_keeps = λ r s h. put-Kept (is_ipv4 r.dst) r s h;
  del_keeps = deleted-Kept;
  rule_add_keeps = λ f s.
      with_rules-Kept f (λ l. session_rule ∷ l) s
        (λ x l n. iff_more x session_rule l (λ e. n (ap (λ r. r.priority) e, ap (λ r. r.table) e)));
  rule_del_keeps = λ f s.
      with_rules-Kept f (without (same_rule session_rule)) s
        (λ x l n. iff_without (same_rule session_rule) x l (other_rule x n));
  listing = in_table;
}

deleted-Shrinks : (r : Route) (s : Held) → Shrinks listing s (deleted r s)
deleted-Shrinks r s = record {
  routes_shrink = λ f x m.
      elim f as (λ f. Memᴰ x (routes_of f (deleted r s)) → Memᴰ x (routes_of f s)) [
        | family_v4 ↦ λ m. (without_has (same_route r) x s.routes4 m).0
        | family_v6 ↦ λ m. (without_has (same_route r) x s.routes6 m).0
      ]
        m;
  rules_shrink = λ f x m.
      elim f as (λ f. Memᴰ x (rules_of f (deleted r s)) → Memᴰ x (rules_of f s)) [
        | family_v4 ↦ λ m. m
        | family_v6 ↦ λ m. m
      ]
        m;
}

rule_deleted-Shrinks :
    (f : Family) (s : Held) → Shrinks listing s (with_rules f (without (same_rule session_rule)) s)
rule_deleted-Shrinks family_v4 s = record {
  routes_shrink = λ f x m.
      elim f
          as (λ f.
            Memᴰ x (routes_of f (with_rules family_v4 (without (same_rule session_rule)) s))
            → Memᴰ x (routes_of f s)) [ family_v4 ↦ λ m. m | family_v6 ↦ λ m. m ]
        m;
  rules_shrink = λ f x m.
      elim f
          as (λ f.
            Memᴰ x (rules_of f (with_rules family_v4 (without (same_rule session_rule)) s))
            → Memᴰ x (rules_of f s)) [
              | family_v4 ↦ λ m. (without_has (same_rule session_rule) x s.rules4 m).0
              | family_v6 ↦ λ m. m
            ]
        m;
}
rule_deleted-Shrinks family_v6 s = record {
  routes_shrink = λ f x m.
      elim f
          as (λ f.
            Memᴰ x (routes_of f (with_rules family_v6 (without (same_rule session_rule)) s))
            → Memᴰ x (routes_of f s)) [ family_v4 ↦ λ m. m | family_v6 ↦ λ m. m ]
        m;
  rules_shrink = λ f x m.
      elim f
          as (λ f.
            Memᴰ x (rules_of f (with_rules family_v6 (without (same_rule session_rule)) s))
            → Memᴰ x (rules_of f s)) [
              | family_v4 ↦ λ m. m
              | family_v6 ↦ λ m. (without_has (same_rule session_rule) x s.rules6 m).0
            ]
        m;
}

clash : {b : Bool} → b ≡ true → b ≡ false → ⊥
clash h k = cc

deleted_gone : (r : Route) (s : Held) (f : Family) → ¬ Memᴰ r (routes_of f (deleted r s))
deleted_gone r s family_v4 m =
    clash (same_route_refl r) (without_has (same_route r) r s.routes4 m).1
deleted_gone r s family_v6 m =
    clash (same_route_refl r) (without_has (same_route r) r s.routes6 m).1

session_same : (x : Rule) → IsSession x → same_rule session_rule x ≡ true
session_same x h = ground (arith, h.0, h.1)

rule_gone :
    (f : Family) (s : Held) (x : Rule)
    → IsSession x
    → ¬ Memᴰ x (rules_of f (with_rules f (without (same_rule session_rule)) s))
rule_gone family_v4 s x h m =
    clash (session_same x h) (without_has (same_rule session_rule) x s.rules4 m).1
rule_gone family_v6 s x h m =
    clash (session_same x h) (without_has (same_rule session_rule) x s.rules6 m).1

pub listing-Kernel : Kernel listing
listing-Kernel = record {
  del_shrinks = deleted-Shrinks;
  rule_del_shrinks = rule_deleted-Shrinks;
  del_gone = λ r s f h. deleted_gone r s f;
  rule_del_gone = λ f s x one h i. rule_gone f s x i;
  in_table = in_table;
  complete = λ f s rs x e m t.
      subst (Memᴰ x) (ok-injective _ rs e)
        (has-without (λ x. not (x.table == route_table)) x (routes_of f s) (ground (arith, t)) m);
  all_rules = λ f s rules x e m. subst (Memᴰ x) (ok-injective _ rules e) m;
}
