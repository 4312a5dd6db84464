-- ===== src/Dns.antt =====
-- internal/dns/dns.go: the DNS mode of a session; a mode is its name.
use tailjump.Prelude.{Bool, ◌||◌, if◌then◌else◌}
use tailjump.Text.{Text, str, text_eq}

abbrev pub mode_none : Text
mode_none = str "none"

abbrev pub mode_split : Text
mode_split = str "split"

abbrev pub mode_all : Text
mode_all = str "all"

unfoldable pub valid : Text → Bool
unfolding text_eq
valid s = text_eq s mode_none || text_eq s mode_split || text_eq s mode_all

unfoldable pub default : Bool → Text
default has_domains = if has_domains then mode_split else mode_none
