-- ===== src/Platform/Resolver/Tests.antt =====
-- ApplyAll with and without systemd-resolved, and the theorem at a concrete input.
use tailjump.Prelude.{◌≡◌, refl, true, none, some, [], ◌∷◌}
use tailjump.Text.{str}
use tailjump.Net.{Addr, v4}
use tailjump.Platform.Files.{Entry, regular}
use tailjump.Platform.Files.Restored.{calm}
use tailjump.Platform.Resolver.{System, apply_split, apply_all, set_domains, no_domains}
use tailjump.Platform.Resolver.Reverted.{plain, Reverts, resolver-Reverts}

abbrev server : Addr
server = v4 0x0a000035

-- The second command of resolvectl fails.
abbrev half : System
half = record {
  available = true;
  command_fails = λ c. elim c [ set_domains ↦ some (str "exit status 1") | _ ↦ none ];
  os = calm;
  addr_text = λ a. str "10.0.0.53";
}

abbrev hosts_file : Entry
hosts_file = regular (str "nameserver 1.1.1.1\n")

half_applied :
    (apply_all half (server ∷ []) [] (plain hosts_file)).0.link
    ≡ record { servers = server ∷ []; domains = []; default_route = none }
unfolding apply_all
half_applied = refl

no_split : (apply_split half (server ∷ []) [] (plain hosts_file)).1 ≡ some no_domains
unfolding apply_split
no_split = refl

resolver-Reverts_example :
    Reverts half hosts_file (apply_split half (server ∷ []) (str "corp" ∷ []) (plain hosts_file))
    × Reverts half hosts_file (apply_all half (server ∷ []) (str "corp" ∷ []) (plain hosts_file))
resolver-Reverts_example =
    resolver-Reverts half hosts_file (server ∷ []) (str "corp" ∷ []) refl refl
