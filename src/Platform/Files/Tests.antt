-- ===== src/Platform/Files/Tests.antt =====
-- The fallback on a host with a symlink, and the theorems at concrete inputs.
use tailjump.Prelude.{◌≡◌, refl, none, some, [], ◌∷◌}
use tailjump.Text.Split.{join}
use tailjump.Text.{Text, str}
use tailjump.Platform.Files.{
  Os, regular, symlink, write_conf, write_backup, apply_fallback, revert_fallback,
  backup_resolv_conf, render, server_lines,
}
use tailjump.Platform.Files.Restored.{untouched, calm, apply_fallback_torn}

abbrev stub : Text
stub = str "../run/systemd/resolve/stub-resolv.conf"

rendered :
    render (str "10.0.0.53" ∷ []) (str "corp" ∷ str "lan" ∷ [])
    ≡ str "# written by tj, restored on disconnect\nsearch corp lan\nnameserver 10.0.0.53\n"
unfolding render server_lines join
rendered = refl

-- The disk is full: resolv.conf is removed and cannot be written.
abbrev full_disk : Os
full_disk = record {
  fails = λ c. elim c [ write_conf ↦ some (str "no space") | _ ↦ none ];
  torn = λ c. none;
}

left_removed :
    apply_fallback full_disk (str "x") (untouched (some (symlink stub)))
    ≡ (record { conf = none; link_file = some stub; backup_file = none }, some (str "no space"))
unfolding apply_fallback backup_resolv_conf
left_removed = refl

abbrev torn_disk : Os
torn_disk = record {
  fails = λ c. elim c [ write_backup ↦ some (str "no space") | _ ↦ none ];
  torn = λ c. elim c [ write_backup ↦ some (str "names") | _ ↦ none ];
}

apply_fallback_torn_example :
    (revert_fallback calm
      (apply_fallback torn_disk
        (str "x")
        (untouched (some (regular (str "nameserver 1.1.1.1\\n"))))).0).0
    ≡ untouched (some (regular (str "names")))
apply_fallback_torn_example =
    apply_fallback_torn torn_disk (str "x") (str "nameserver 1.1.1.1\\n") (str "names")
      (str "no space") refl refl refl refl refl
