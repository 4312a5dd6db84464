-- ===== src/Platform/Router/Tables.antt =====
-- What Reset leaves, and what Add puts there.
use tailjump.Prelude.{
  ◌≡◌, Bool, true, false, refl, sym, ◌∙◌, ap, Option, none, some, List, [], ◌∷◌, All, ok, err,
  Outcome, Bool-cases, inl, inr, arith, subst,
}
use mathlib.Core.List.{Memᴰ}
use mathlib.Core.List.Memᴰ.{cases_cons}
use tailjump.Text.{Text}
use tailjump.Platform.Router.{
  Family, family_v4, family_v6, Netlink, Errno, Route, Rule, RouterError, Done, and_then, settle,
  listed, route_table, session_rule, any_session, flush, drop_rule, dropped, reset_family, reset,
  is_missing, is_enoent, flush_table, del_rule, list_table, list_rules,
}
use tailjump.Platform.Router.Owned.{IsSession}
use tailjump.Platform.Router.Steps.{Deletes, flush-R, drop_rule-R, reset_family-R}

-- The second state has no route and no rule beyond the first.
pub record Shrinks (nl : Netlink) (s t : nl.State) : Type 0 where
  pub routes_shrink : (f : Family) (x : Route) → Memᴰ x (nl.routes f t) → Memᴰ x (nl.routes f s)
  pub rules_shrink : (f : Family) (x : Rule) → Memᴰ x (nl.rules f t) → Memᴰ x (nl.rules f s)

-- A family has one rule of the session at most.
abbrev pub AtMostOne : (nl : Netlink) → Family → nl.State → Type 0
AtMostOne nl f s =
    (x y : Rule) → Memᴰ x (nl.rules f s) → Memᴰ y (nl.rules f s) → IsSession x → IsSession y → x ≡ y

abbrev pub IsDone : (Errno → Bool) → Option Errno → Type 0
IsDone fine none = Unit
IsDone fine (some e) = fine e ≡ true

-- What the kernel does with a deletion: it adds nothing, and what it deleted or did not find is gone.
-- The lists are what the kernel holds.
pub record Kernel (nl : Netlink) : Type 0 where
  pub del_shrinks : (r : Route) (s : nl.State) → Shrinks nl s (nl.route_del r s).0
  pub rule_del_shrinks : (f : Family) (s : nl.State) → Shrinks nl s (nl.rule_del f session_rule s).0
  pub del_gone :
      (r : Route) (s : nl.State) (f : Family)
      → IsDone is_missing (nl.route_del r s).1
      → ¬ Memᴰ r (nl.routes f (nl.route_del r s).0)
  pub rule_del_gone :
      (f : Family) (s : nl.State) (x : Rule)
      → AtMostOne nl f s
      → IsDone is_enoent (nl.rule_del f session_rule s).1
      → IsSession x
      → ¬ Memᴰ x (nl.rules f (nl.rule_del f session_rule s).0)
  pub in_table :
      (f : Family) (s : nl.State) (rs : List Route)
      → nl.route_list_filtered f route_table s ≡ ok rs
      → All (λ r. r.table ≡ route_table) rs
  pub complete :
      (f : Family) (s : nl.State) (rs : List Route) (x : Route)
      → nl.route_list_filtered f route_table s ≡ ok rs
      → Memᴰ x (nl.routes f s)
      → x.table ≡ route_table
      → Memᴰ x rs
  pub all_rules :
      (f : Family) (s : nl.State) (rules : List Rule) (x : Rule)
      → nl.rule_list f s ≡ ok rules
      → Memᴰ x (nl.rules f s)
      → Memᴰ x rules

-- The kernel has nothing of the session in a family.
pub record IsClean (nl : Netlink) (f : Family) (s : nl.State) : Type 0 where
  pub no_route : (x : Route) → x.table ≡ route_table → ¬ Memᴰ x (nl.routes f s)
  pub no_rule : (x : Rule) → IsSession x → ¬ Memᴰ x (nl.rules f s)

any_session_has :
    (rules : List Rule) (x : Rule) → IsSession x → Memᴰ x rules → any_session rules ≡ true
unfolding any_session
any_session_has [] x h m = elim m [ ]
any_session_has (r ∷ rules) x h m = elim (cases_cons m) [
  | inl e ↦ ground (arith, ap (λ r. r.priority) e, ap (λ r. r.table) e, h.0, h.1)
  | inr t ↦ ground (arith, any_session_has rules x h t)
]

module _ (nl : Netlink) (k : Kernel nl) where
  deletes : Deletes nl (Shrinks nl)
  deletes = record {
    same = λ s. record { routes_shrink = λ f x m. m; rules_shrink = λ f x m. m };
    trans = λ s t u a b. record {
      routes_shrink = λ f x m. a.routes_shrink f x (b.routes_shrink f x m);
      rules_shrink = λ f x m. a.rules_shrink f x (b.rules_shrink f x m);
    };
    del = λ r s h. k.del_shrinks r s;
    drop = k.rule_del_shrinks;
    listing = k.in_table;
  }

  -- A chain without an error: its first part gives none, and neither does the rest.
  chained :
      (d : Done nl) (next : nl.State → Done nl)
      → (and_then nl d next).1 ≡ none
      → (d.1 ≡ none) × (and_then nl d next ≡ next d.0)
  chained (s, none) next h = (refl, refl)
  chained (s, some e) next h = cc

  settled :
      (fine : Errno → Bool) (error : Errno → RouterError) (d : nl.State × Option Errno)
      → (settle nl fine error d).1 ≡ none
      → IsDone fine d.1 × ((settle nl fine error d).0 ≡ d.0)
  settled fine error (s, none) h = (tt, refl)
  settled fine error (s, some e) h = elim (Bool-cases (fine e)) [
    | inl p ↦ (p, refl)
    | inr p ↦ absurd (ground (arith, p))
  ]

  gone_stays :
      (s t : nl.State) (f : Family) (r : Route)
      → Shrinks nl s t
      → ¬ Memᴰ r (nl.routes f s)
      → ¬ Memᴰ r (nl.routes f t)
  gone_stays s t f r h n m = n (h.routes_shrink f r m)

  flush_clears :
      (rs : List Route) (s : nl.State) (f : Family)
      → All (λ r. r.table ≡ route_table) rs
      → (flush nl rs s).1 ≡ none
      → (x : Route) → Memᴰ x rs
      → ¬ Memᴰ x (nl.routes f (flush nl rs s).0)
  unfolding flush
  flush_clears [] s f t h x m = elim m [ ]
  flush_clears (r ∷ rs) s f t h x m =
      let d = settle nl is_missing flush_table (nl.route_del r s) in
      let c = chained d (flush nl rs) h in
      let g = settled is_missing flush_table (nl.route_del r s) c.0 in
      let e = ap (λ d. d.1) (sym c.1) ∙ h in
      elim (cases_cons m) [
        | inl p ↦
            subst (λ u. ¬ Memᴰ x (nl.routes f u)) (sym (ap (λ d. d.0) c.1))
              (gone_stays d.0 _ f x (flush-R nl (Shrinks nl) deletes rs d.0 t.1) (
                subst (λ u. ¬ Memᴰ x (nl.routes f u)) (sym g.1)
                  (subst (λ y. ¬ Memᴰ y (nl.routes f (nl.route_del r s).0)) (sym p)
                    (k.del_gone r s f g.0))))
        | inr p ↦
            subst (λ u. ¬ Memᴰ x (nl.routes f u)) (sym (ap (λ d. d.0) c.1))
              (flush_clears rs d.0 f t.1 e x p)
      ]

  listed_ok {ℓ} :
      {A : Type ℓ} (error : Text → RouterError) (o : Outcome Text A) (s : nl.State)
      (next : A → Done nl)
      → (listed nl error o s next).1 ≡ none
      → (a : A) × (o ≡ ok a) × (listed nl error o s next ≡ next a)
  listed_ok error (ok a) s next h = (a, refl, refl)
  listed_ok error (err e) s next h = cc

  AtMostOne-Shrinks :
      (f : Family) (s t : nl.State) → Shrinks nl s t → AtMostOne nl f s → AtMostOne nl f t
  AtMostOne-Shrinks f s t h one x y m n = one x y (h.rules_shrink f x m) (h.rules_shrink f y n)

  IsClean-Shrinks : (f : Family) (s t : nl.State) → Shrinks nl s t → IsClean nl f s → IsClean nl f t
  IsClean-Shrinks f s t h c = record {
    no_route = λ x e m. c.no_route x e (h.routes_shrink f x m);
    no_rule = λ x e m. c.no_rule x e (h.rules_shrink f x m);
  }

  dropped_clears :
      (f : Family) (s : nl.State) (b : Bool) (x : Rule)
      → AtMostOne nl f s
      → (dropped nl f s b).1 ≡ none
      → IsSession x
      → (Memᴰ x (nl.rules f s) → b ≡ true)
      → ¬ Memᴰ x (nl.rules f (dropped nl f s b).0)
  dropped_clears f s true x one h i listed =
      let g = settled is_enoent del_rule (nl.rule_del f session_rule s) h in
      subst (λ u. ¬ Memᴰ x (nl.rules f u)) (sym g.1) (k.rule_del_gone f s x one g.0 i)
  dropped_clears f s false x one h i listed = λ m. absurd (ground (arith, listed m))

  drop_rule_clears :
      (f : Family) (s : nl.State) (x : Rule)
      → AtMostOne nl f s
      → (drop_rule nl f s).1 ≡ none
      → IsSession x
      → ¬ Memᴰ x (nl.rules f (drop_rule nl f s).0)
  drop_rule_clears f s x one h i =
      let (rules, e, q) =
        listed_ok list_rules (nl.rule_list f s) s (λ rules. dropped nl f s (any_session rules)) h in
      subst (λ d. ¬ Memᴰ x (nl.rules f d.0)) (sym q)
        (dropped_clears f s (any_session rules) x one (ap (λ d. d.1) (sym q) ∙ h) i
          (λ m. any_session_has rules x i (k.all_rules f s rules x e m)))

  reset_family-IsClean :
      (f : Family) (s : nl.State)
      → AtMostOne nl f s
      → (reset_family nl f s).1 ≡ none
      → IsClean nl f (reset_family nl f s).0
  reset_family-IsClean f s one h =
      let (rs, e, q) =
        listed_ok list_table (nl.route_list_filtered f route_table s) s
          (λ rs. and_then nl (flush nl rs s) (drop_rule nl f)) h in
      let c = chained (flush nl rs s) (drop_rule nl f) (ap (λ d. d.1) (sym q) ∙ h) in
      let t = (flush nl rs s).0 in
      let p = q ∙ c.1 in
      let shrunk = flush-R nl (Shrinks nl) deletes rs s (k.in_table f s rs e) in
      let dropped = drop_rule-R nl (Shrinks nl) deletes f t in
      subst (λ d. IsClean nl f d.0) (sym p)
        (record {
          no_route = λ x y m.
              let at_t = dropped.routes_shrink f x m in
              flush_clears rs s f (k.in_table f s rs e) c.0 x
                (k.complete f s rs x e (shrunk.routes_shrink f x at_t) y) at_t;
          no_rule = λ x y.
              drop_rule_clears f t x (AtMostOne-Shrinks f s t shrunk one)
                (ap (λ d. d.1) (sym p) ∙ h) y;
        })

-- If Reset gives no error, the session table has no route of either family and the kernel has no rule
-- of the session, whatever was there before, where each family had one such rule at most and the
-- netlink calls do what the kernel says.
pub reset-IsClean :
    (nl : Netlink) (s : nl.State)
    → Kernel nl
    → AtMostOne nl family_v4 s
    → AtMostOne nl family_v6 s
    → (reset nl s).1 ≡ none
    → (f : Family) → IsClean nl f (reset nl s).0
unfolding reset
reset-IsClean nl s k one4 one6 h f =
    let c = chained nl k (reset_family nl family_v4 s) (reset_family nl family_v6) h in
    let t = (reset_family nl family_v4 s).0 in
    let shrunk4 = reset_family-R nl (Shrinks nl) (deletes nl k) family_v4 s in
    let shrunk6 = reset_family-R nl (Shrinks nl) (deletes nl k) family_v6 t in
    subst (λ d. IsClean nl f d.0) (sym c.1)
      (elim f as (λ f. IsClean nl f (reset_family nl family_v6 t).0) [
        | family_v4 ↦
            IsClean-Shrinks nl k family_v4 t _ shrunk6
              (reset_family-IsClean nl k family_v4 s one4 c.0)
        | family_v6 ↦
            reset_family-IsClean nl k family_v6 t
              (AtMostOne-Shrinks nl k family_v6 s t shrunk4 one6) (ap (λ d. d.1) (sym c.1) ∙ h)
      ])
