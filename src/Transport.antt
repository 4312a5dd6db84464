-- ===== src/Transport.antt =====
-- internal/transport/transport.go: the mode, the port range, the rate and the controller.
pub mod Ports
pub mod Rate
pub mod Controllers
mod Tests
use tailjump.Prelude.{Bool, true, false, ◌||◌, List, [], ◌∷◌, if◌then◌else◌}
use tailjump.Text.{Text, str, text_eq, is_empty}

-- The transport modes; a Mode is its name.
abbrev pub mode_auto : Text
mode_auto = str "auto"

abbrev pub mode_quic : Text
mode_quic = str "quic"

abbrev pub mode_ssh : Text
mode_ssh = str "ssh"

unfoldable pub valid : Text → Bool
unfolding text_eq
valid s = text_eq s mode_auto || text_eq s mode_quic || text_eq s mode_ssh

-- The loop of Resolve over the flag, the remote config and the defaults.
unfoldable pub resolve_first : List Text → Text
resolve_first [] = mode_auto
resolve_first (s ∷ rest) = if is_empty s then resolve_first rest else s

unfoldable pub resolve : Text → Text → Text → Text
unfolding resolve_first
resolve flag remote defaults = resolve_first (flag ∷ remote ∷ defaults ∷ [])
