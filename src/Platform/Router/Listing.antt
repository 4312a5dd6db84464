-- ===== src/Platform/Router/Listing.antt =====
-- A kernel with lists of routes and of rules, in which every call succeeds.
pub mod Laws
use tailjump.Prelude.{
  ℕ, ◌≡◌, ◌≢◌, ◌↔◌, ◌==◌, ◌&&◌, ◌||◌, Bool, true, false, not, refl, sym, ◌∙◌, ap, subst, Option,
  none, some, List, [], ◌∷◌, ◌++◌, All, ok, err, Outcome, if◌then◌else◌, Bool-cases, inl, inr,
  arith, ==_refl, length,
}
use mathlib.Core.List.{Memᴰ}
use mathlib.Core.List.Memᴰ.{head, tail, cases_cons}
use tailjump.Text.{Text, str, text_eq, text_eq_refl}
use tailjump.Platform.Router.{
  Family, family_v4, family_v6, Netlink, IpNet, Route, Rule, Errno, found, not_found, route_table,
  rule_priority, session_rule, device_name,
}
use tailjump.Platform.Router.Owned.{Kept, Separate, IsSession}
use tailjump.Platform.Router.Tables.{Kernel, Shrinks}
use tailjump.Prelude.{◌⊎◌}

pub record Held : Type 0 where
  pub routes4 : List Route
  pub routes6 : List Route
  pub rules4 : List Rule
  pub rules6 : List Rule

-- A list without what a test names.
unfoldable pub without {ℓ} : {A : Type ℓ} → (A → Bool) → List A → List A
without p [] = []
without p (x ∷ xs) = if p x then without p xs else x ∷ without p xs

pub without_has {ℓ} :
    {A : Type ℓ} (p : A → Bool) (x : A) (l : List A)
    → Memᴰ x (without p l)
    → Memᴰ x l × (p x ≡ false)
unfolding without
without_has p x [] m = elim m [ ]
without_has {A = A} p x (y ∷ l) m = at (without_has p x l) (p y) refl m
  where
    at :
        (Memᴰ x (without p l) → Memᴰ x l × (p x ≡ false))
        → (b : Bool) → p y ≡ b
        → Memᴰ x (if b then without p l else y ∷ without p l)
        → Memᴰ x (y ∷ l) × (p x ≡ false)
    at k true e m = let r = k m in (tail r.0, r.1)
    at k false e m = elim (cases_cons m) [
      | inl h ↦ (head h, ap p h ∙ e)
      | inr t ↦ let r = k t in (tail r.0, r.1)
    ]

pub has-without {ℓ} :
    {A : Type ℓ} (p : A → Bool) (x : A) (l : List A) → p x ≡ false → Memᴰ x l → Memᴰ x (without p l)
unfolding without
has-without p x [] h m = elim m [ ]
has-without {A = A} p x (y ∷ l) h m = at (has-without p x l h) (p y) refl (cases_cons m)
  where
    at :
        (Memᴰ x l → Memᴰ x (without p l))
        → (b : Bool) → p y ≡ b
        → (x ≡ y) ⊎ Memᴰ x l
        → Memᴰ x (if b then without p l else y ∷ without p l)
    at k true e (inl q) = absurd (ground (arith, sym h ∙ ap p q ∙ e))
    at k true e (inr t) = k t
    at k false e (inl q) = head q
    at k false e (inr t) = tail (k t)

abbrev pub same_dst : Option IpNet → Option IpNet → Bool
same_dst none none = true
same_dst (some a) (some b) = text_eq a.ip b.ip && a.ones == b.ones
same_dst _ _ = false

abbrev pub same_route : Route → Route → Bool
same_route r x = r.table == x.table && same_dst r.dst x.dst && r.link_index == x.link_index

abbrev pub same_rule : Rule → Rule → Bool
same_rule r x = r.priority == x.priority && r.table == x.table

same_dst_refl : (d : Option IpNet) → same_dst d d ≡ true
same_dst_refl none = refl
same_dst_refl (some a) = rw (text_eq_refl a.ip) (==_refl a.ones)

pub same_route_refl : (r : Route) → same_route r r ≡ true
same_route_refl r = rw (==_refl r.table, same_dst_refl r.dst) (==_refl r.link_index)

abbrev pub put : Bool → Route → Held → Held
put true r s = record s { routes4 = r ∷ s.routes4 }
put false r s = record s { routes6 = r ∷ s.routes6 }

abbrev pub is_ipv4 : Option IpNet → Bool
is_ipv4 none = true
is_ipv4 (some n) = length n.ip == 4

abbrev pub with_rules : Family → (List Rule → List Rule) → Held → Held
with_rules family_v4 g s = record s { rules4 = g s.rules4 }
with_rules family_v6 g s = record s { rules6 = g s.rules6 }

abbrev pub routes_of : Family → Held → List Route
routes_of family_v4 s = s.routes4
routes_of family_v6 s = s.routes6

abbrev pub rules_of : Family → Held → List Rule
rules_of family_v4 s = s.rules4
rules_of family_v6 s = s.rules6

abbrev pub deleted : Route → Held → Held
deleted r s = record s {
  routes4 = without (same_route r) s.routes4;
  routes6 = without (same_route r) s.routes6;
}

-- The device has the index 7.
abbrev pub listing : Netlink
listing = record {
  State = Held;
  routes = routes_of;
  rules = rules_of;
  link_by_name = λ name s. if text_eq name device_name then found 7 else not_found;
  link_by_index = λ index s. if index == 7 then some device_name else some (str "eth0");
  rule_list = λ f s. ok (rules_of f s);
  rule_add = λ f r s. (with_rules f (λ l. r ∷ l) s, none);
  rule_del = λ f r s. (with_rules f (without (same_rule r)) s, none);
  route_list = λ s. ok (s.routes4 ++ s.routes6);
  route_list_filtered = λ f t s. ok (without (λ x. not (x.table == t)) (routes_of f s));
  route_replace = λ r s. (put (is_ipv4 r.dst) r s, none);
  route_del = λ r s. (deleted r s, none);
}
