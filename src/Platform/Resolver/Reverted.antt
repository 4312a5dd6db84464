-- ===== src/Platform/Resolver/Reverted.antt =====
-- A revert takes back every DNS change of the session.
use tailjump.Prelude.{
  Bool, true, false, List, [], ◌∷◌, Option, none, some, ◌≡◌, refl, sym, subst, if◌then◌else◌,
}
use tailjump.Text.{Text}
use tailjump.Net.{Addr}
use tailjump.Platform.Files.{Entry, Files, write_link, write_backup, revert_fallback, render}
use tailjump.Platform.Files.Restored.{untouched, calm, apply_fallback-Restores}
use tailjump.Platform.Resolver.{
  Dns, Link, no_link, System, Applied, apply_split, apply_all, revert, command, set_link,
  split_over, rewrite_files, failed, set_dns, set_domains, set_default_route,
}
use tailjump.Platform.Resolver.{ResolverError}
use tailjump.Platform.Resolver.{map}
use tailjump.Platform.Resolver.{no_resolved}
use tailjump.Platform.Resolver.{no_domains}

-- The DNS of a host without a session, and a system in which no command and no call fails.
abbrev pub plain : Entry → Dns
plain e = record { link = no_link; files = untouched (some e) }

abbrev pub calm_system : System → System
calm_system sys = record sys { command_fails = λ c. none; os = calm }

-- A later revert on such a system, with systemd-resolved as it was, gives the plain host back.
abbrev pub Reverts : System → Entry → Applied → Type 0
Reverts sys e a = revert (calm_system sys) a.0 ≡ (plain e, [])

module _ (sys : System) (e : Entry) where
  link-Reverts :
      (l : Link) (x : Option ResolverError)
      → sys.available ≡ true
      → Reverts sys e (record { link = l; files = untouched (some e) }, x)
  unfolding revert revert_fallback
  link-Reverts l x h = rw h refl

  plain-Reverts :
      (b : Bool) (x : Option ResolverError) → sys.available ≡ b → Reverts sys e (plain e, x)
  unfolding revert revert_fallback
  plain-Reverts true x h = rw h refl
  plain-Reverts false x h = rw h refl

  files_revert :
      (fs : Files) (x : Option ResolverError)
      → sys.available ≡ false
      → revert_fallback calm fs ≡ (untouched (some e), none)
      → Reverts sys e (record { link = no_link; files = fs }, x)
  unfolding revert
  files_revert fs x h r = rw (h, r) refl

  command_cases :
      (P : Applied → Type 0) (c : Option Text) (d : Dns) (l : Link) (next : Dns → Applied)
      → ((x : Text) → P (d, some (failed x)))
      → P (next (record d { link = l }))
      → P (command c d l next)
  command_cases P none d l next refused done = done
  command_cases P (some x) d l next refused done = refused x

  if_Reverts :
      (x y : Applied) (b c : Bool)
      → b ≡ c
      → Reverts sys e (if c then x else y)
      → Reverts sys e (if b then x else y)
  if_Reverts x y b c h r = subst (λ c. Reverts sys e (if c then x else y)) (sym h) r

  set_link-Reverts :
      (servers : List Addr) (domains : List Text) (route : Bool)
      → sys.available ≡ true
      → Reverts sys e (set_link sys servers domains route (plain e))
  set_link-Reverts servers domains route h =
      command_cases (Reverts sys e) (sys.command_fails set_dns) _ _ _
        (λ x. link-Reverts _ (some (failed x)) h)
        (command_cases (Reverts sys e) (sys.command_fails set_domains) _ _ _
          (λ x. link-Reverts _ (some (failed x)) h)
          (command_cases (Reverts sys e) (sys.command_fails set_default_route) _ _ _
            (λ x. link-Reverts _ (some (failed x)) h) (link-Reverts _ none h)))

  split-Reverts :
      (servers : List Addr) (domains : List Text) (b : Bool)
      → sys.available ≡ b
      → Reverts sys e (split_over sys servers domains (plain e))
  split-Reverts servers [] b h = plain-Reverts b (some no_domains) h
  split-Reverts servers (x ∷ domains) true h =
      if_Reverts _ _ _ true h (set_link-Reverts servers _ false h)
  split-Reverts servers (x ∷ domains) false h =
      if_Reverts _ _ _ false h (plain-Reverts false (some no_resolved) h)

  all-Reverts :
      (servers : List Addr) (domains : List Text) (b : Bool)
      → sys.available ≡ b
      → sys.os.torn write_link ≡ none
      → sys.os.torn write_backup ≡ none
      → Reverts sys e (apply_all sys servers domains (plain e))
  unfolding apply_all
  all-Reverts servers domains true h l t =
      if_Reverts _ _ _ true h (set_link-Reverts servers _ true h)
  all-Reverts servers domains false h l t = if_Reverts _ _ _ false h (
      files_revert _ (rewrite_files sys servers domains (plain e)).1 h
        (apply_fallback-Restores sys.os (render (map sys.addr_text servers) domains) e l t))

  -- Whichever command or call fails in ApplySplit or ApplyAll on a host without a session, a later
  -- Revert, with systemd-resolved as available as it was and with no failure of its own, takes back
  -- the settings of the device, gives back resolv.conf and reports no error. A write of a record of
  -- resolv.conf that fails must leave no part of it.
  pub resolver-Reverts :
      (servers : List Addr) (domains : List Text)
      → sys.os.torn write_link ≡ none
      → sys.os.torn write_backup ≡ none
      → Reverts sys e (apply_split sys servers domains (plain e))
        × Reverts sys e (apply_all sys servers domains (plain e))
  unfolding apply_split
  resolver-Reverts servers domains l t = (
    split-Reverts servers domains sys.available refl,
    all-Reverts servers domains sys.available refl l t,
  )
