-- ===== src/Session/Watch/Tests.antt =====
-- A path that flaps, and the theorem at this path.
use tailjump.Prelude.{◌≡◌, refl, true, false, List, [], ◌∷◌}
use tailjump.Text.{Text, str, text_eq}
use tailjump.Session.Watch.{Watch, first_watch, run, observe, path_changes, window}

abbrev direct : Text
direct = str "1.2.3.4:41641"

abbrev flaps : List Text
flaps = direct ∷ [] ∷ direct ∷ [] ∷ direct ∷ []

-- The third change warns, and the fourth one does not.
warns_once : (run flaps first_watch).1 ≡ false ∷ false ∷ false ∷ true ∷ false ∷ []
unfolding run observe path_changes window text_eq
warns_once = refl

abbrev warned_watch : Watch
warned_watch = record { samples = direct ∷ [] ∷ direct ∷ [] ∷ []; warned = true }
