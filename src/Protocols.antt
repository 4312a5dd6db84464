-- ===== src/Protocols.antt =====
-- internal/protocols/protocols.go: the protocol set of a session and its text form.
pub mod RoundTrip
pub mod Sound
mod Tests
use tailjump.Prelude.{ℕ, ◌+◌, ◌≡◌, ◌≢◌, Bool, true, false, List, [], ◌∷◌, if◌then◌else◌}
use tailjump.Prelude.{Outcome, ok, err, ◌>>=◌, is_ok}
use tailjump.Text.{Text, str, text_eq, is_empty}
use tailjump.Text.Space.{trim_space}
use tailjump.Text.Split.{split, join}

-- The names TCP, UDP and ICMP of the source.
abbrev pub tcp_name : Text
tcp_name = str "tcp"

abbrev pub udp_name : Text
udp_name = str "udp"

abbrev pub icmp_name : Text
icmp_name = str "icmp"

pub record Set : Type 0 where
  pub tcp : Bool
  pub udp : Bool
  pub icmp : Bool

-- The zero value.
abbrev pub no_protocol : Set
no_protocol = record { tcp = false; udp = false; icmp = false }

abbrev pub all : Set
all = record { tcp = true; udp = true; icmp = true }

pub data Error : Type 0 where
  empty_list : Error
  unknown listed_twice : Text → Error

-- One round of the loop of Parse: `*field` is the field that the `switch` picked.
unfoldable pub mark : Text → Set → Outcome Error Set
unfolding text_eq
mark name set =
    if text_eq name tcp_name
    then (if set.tcp then err (listed_twice name) else ok (record set { tcp = true }))
    else if text_eq name udp_name
    then (if set.udp then err (listed_twice name) else ok (record set { udp = true }))
    else if text_eq name icmp_name
    then (if set.icmp then err (listed_twice name) else ok (record set { icmp = true }))
    else err (unknown name)

unfoldable pub parse_names : Set → List Text → Outcome Error Set
unfolding mark
parse_names set [] = ok set
parse_names set (name ∷ names) = mark (trim_space name) set >>= λ marked. parse_names marked names

unfoldable pub parse : Text → Outcome Error Set
unfolding parse_names trim_space split
parse s = if is_empty (trim_space s) then err empty_list else parse_names no_protocol (split b',' s)

unfoldable pub valid : Text → Bool
unfolding parse
valid s = is_ok (parse s)

-- The loop of Resolve over the flag, the remote config and the defaults.
unfoldable pub resolve_first : List Text → Outcome Error Set
unfolding parse
resolve_first [] = ok all
resolve_first (s ∷ rest) = if is_empty s then resolve_first rest else parse s

unfoldable pub resolve : Text → Text → Text → Outcome Error Set
unfolding resolve_first
resolve flag remote defaults = resolve_first (flag ∷ remote ∷ defaults ∷ [])

abbrev append_if : Bool → Text → List Text → List Text
append_if true name rest = name ∷ rest
append_if false name rest = rest

-- The names of the set in the canonical order.
abbrev pub names_of : Set → List Text
names_of s = append_if s.tcp tcp_name (append_if s.udp udp_name (append_if s.icmp icmp_name []))

unfoldable pub to_string : Set → Text
unfolding join
to_string s = join (str ",") (names_of s)
