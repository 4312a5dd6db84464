-- ===== src/Platform/Router/Connected/Distinct.antt =====
-- Which subnets Connected lists.
use tailjump.Prelude.{◌≡◌, ◌≢◌, ◌⊎◌, true, false, some, List, [], ◌∷◌}
use mathlib.Core.List.{Memᴰ}
use tailjump.Text.{Text}
use tailjump.Net.Prefix.{Prefix}
use tailjump.Platform.Router.{Netlink, Route}
use tailjump.Platform.Router.Connected.{subnet_of, seen_has}

-- No two prefixes of the list print the same.
abbrev pub Distinct : (Prefix → Text) → List Prefix → Type 0
Distinct show [] = Unit
Distinct show (p ∷ ps) = ((q : Prefix) → Memᴰ q ps → show p ≢ show q) × Distinct show ps

module _ (nl : Netlink) (show : Prefix → Text) (s : nl.State) where
  -- Each prefix is the subnet of a route, each subnet of a route is there as it prints, and none is
  -- there twice.
  pub record Subnets (rs : List Route) (ps : List Prefix) : Type 0 where
    pub from : (p : Prefix) → Memᴰ p ps → (r : Route) × Memᴰ r rs × (subnet_of nl s r ≡ some p)
    pub all :
        (r : Route) (p : Prefix)
        → Memᴰ r rs
        → subnet_of nl s r ≡ some p
        → (q : Prefix) × Memᴰ q ps × (show q ≡ show p)
    pub distinct : Distinct show ps

  -- The same in a round, where some texts have been seen.
  record Rest (seen : List Text) (rs : List Route) (ps : List Prefix) : Type 0 where
    from : (p : Prefix) → Memᴰ p ps → (r : Route) × Memᴰ r rs × (subnet_of nl s r ≡ some p)
    fresh : (p : Prefix) → Memᴰ p ps → seen_has seen (show p) ≡ false
    all :
        (r : Route) (p : Prefix)
        → Memᴰ r rs
        → subnet_of nl s r ≡ some p
        → (seen_has seen (show p) ≡ true) ⊎ ((q : Prefix) × Memᴰ q ps × (show q ≡ show p))
    distinct : Distinct show ps
