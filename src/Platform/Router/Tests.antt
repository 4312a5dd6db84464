-- ===== src/Platform/Router/Tests.antt =====
-- A session that comes and goes, and the theorems at it.
use tailjump.Prelude.{refl, sym, ap, ◌∙◌, arith, ◌≡◌, none, some, List, [], ◌∷◌, inl, inr}
use mathlib.Core.List.{Memᴰ}
use mathlib.Core.List.Memᴰ.{cases_cons}
use tailjump.Text.{Text, str, text_eq}
use tailjump.Net.{v4, as_slice}
use tailjump.Net.Bytes.{bytes_of}
use tailjump.Net.Prefix.{Prefix, number}
use tailjump.Platform.Router.{
  family_v6, Route, Rule, add, add_routes, ensure_rules, reset, flush, any_session, device_name,
  session_rule, session_route, no_link,
}
use tailjump.Platform.Router.Owned.{Kept, adding, resetting, make_all, make_all-Kept}
use tailjump.Platform.Router.Tables.{IsClean, reset-IsClean}
use tailjump.Platform.Router.Listing.{Held, listing, without}
use tailjump.Platform.Router.Listing.Laws.{listing-Separate, listing-Kernel}

-- 10.0.0.0/8, and a route of the main table.
abbrev ten : Prefix
ten = record { addr = v4 167772160; bits = 8 }

abbrev main_route : Route
main_route = record (session_route 2 ten) { table = 254 }

abbrev main_rule : Rule
main_rule = record { priority = 32766; table = 254; other = [] }

abbrev start : Held
start = record {
  routes4 = main_route ∷ [];
  routes6 = [];
  rules4 = main_rule ∷ [];
  rules6 = main_rule ∷ [];
}

abbrev up : Held
up = record start {
  routes4 = session_route 7 ten ∷ main_route ∷ [];
  rules4 = session_rule ∷ main_rule ∷ [];
  rules6 = session_rule ∷ main_rule ∷ [];
}

added : add listing device_name (ten ∷ []) start ≡ (up, none)
unfolding add add_routes ensure_rules any_session text_eq as_slice bytes_of
added = refl

no_device : add listing (str "tj1") (ten ∷ []) start ≡ (start, some no_link)
unfolding add text_eq
no_device = refl

make_all-Kept_example :
    Kept listing start (make_all listing (adding device_name (ten ∷ []) ∷ resetting ∷ []) start)
make_all-Kept_example =
    make_all-Kept listing (adding device_name (ten ∷ []) ∷ resetting ∷ []) start listing-Separate

-- The rule of the session is the one of its list.
one_rule : (x : Rule) → Memᴰ x up.rules4 → x.table ≡ 117 → x ≡ session_rule
one_rule x m h = elim (cases_cons m) [
  | inl e ↦ e
  | inr m ↦ elim (cases_cons m) [
    | inl e ↦ absurd (omega (arith, h, ap (λ r. r.table) e))
    | inr m ↦ elim m [ ]
  ]
]

reset-IsClean_example : IsClean listing family_v6 (reset listing up).0
unfolding reset flush any_session without
reset-IsClean_example =
    reset-IsClean listing up listing-Kernel
      (λ x y m n h k. one_rule x m h.1 ∙ sym (one_rule y n k.1))
      (λ x y m n h k. one_rule x m h.1 ∙ sym (one_rule y n k.1)) refl family_v6

abbrev shown : Prefix → Text
shown p = number p.addr ∷ p.bits ∷ []

-- The subnet of the second link is there twice in the kernel, and the route of the session is left out.
abbrev twice : Held
twice = record up { routes6 = main_route ∷ [] }
