-- ===== src/Cli/Alias/Kept.antt =====
-- The alias commands keep the config one that Load accepts.
use tailjump.Prelude.{
  ℕ, ◌==◌, ◌≡◌, refl, sym, ap, ◌∙◌, subst, Bool, true, false, not, Option, none, some, Outcome, ok,
  err, if◌then◌else◌, List, [], ◌∷◌, Bool-cases, inl, inr, bind_ok, ok-injective,
}
use tailjump.Text.{Text, is_empty}
use tailjump.Net.Prefix.{Prefix}
use tailjump.Config.{Config, RemoteConfig, no_remote, remote_of, validate}
use tailjump.Prelude.{fun_ext}
use tailjump.Config.Valid.{IsValid, is_remote, validate-IsValid}
use tailjump.Cli.Alias.{
  AliasError, RemoteFlags, changed, remote_from_flags, has_key, put, delete, saved, alias_add,
  alias_set, alias_unset, alias_remove, unset_fields,
}
use tailjump.Cli.Alias.Remotes.{
  remote_of-put, remote_of-delete, Each, Each-put, Each-delete, Each-has_key,
}
use tailjump.Cli.Alias.Entries.{
  flag_ok, AreSet, Values, no_remote-Values, Values→is_remote, remote_from_flags-Values,
  is_remote→Values, unset_fields-Values,
}
use tailjump.Prelude.{◌≢◌}
use tailjump.Text.{text_eq_refl}
use tailjump.Cli.Alias.Remotes.{has_key-put}

-- The commands, with what they take.
pub data Command : Type 0 where
  add set : Text → RemoteFlags → Command
  unset : Text → List Text → Command
  remove : Text → Command

unfoldable pub run : (Text → Option Prefix) → Config → Command → Outcome AliasError Config
run parse_prefix cfg (add alias f) = alias_add parse_prefix cfg alias f
run parse_prefix cfg (set alias f) = alias_set parse_prefix cfg alias f
run parse_prefix cfg (unset alias fields) = alias_unset cfg alias fields
run parse_prefix cfg (remove alias) = alias_remove cfg alias

not_refused_alias {ℓ} :
    {A : Type ℓ} (b : Bool) (e : AliasError) (o : Outcome AliasError A) (a : A)
    → (if b then err e else o) ≡ ok a
    → (b ≡ false) × (o ≡ ok a)
not_refused_alias true e o a h = cc
not_refused_alias false e o a h = (refl, h)

module _ (parse_prefix : Text → Option Prefix) (parse_duration : Text → Option (Bool × ℕ)) where
  saved-IsValid :
      (c : Config)
      → IsValid parse_prefix parse_duration c
      → IsValid parse_prefix parse_duration (saved c)
  unfolding saved
  saved-IsValid c v = elim (Bool-cases (c.version == 0)) [
    | inl e ↦ rw e (record {
      version = refl;
      defaults = v.defaults;
      reconnect_for = v.reconnect_for;
      exclude = v.exclude;
      remotes = v.remotes;
    })
    | inr e ↦ rw e v
  ]

  put-IsValid :
      (c : Config) (alias : Text) (rc : RemoteConfig)
      → IsValid parse_prefix parse_duration c
      → is_remote parse_prefix parse_duration rc ≡ true
      → IsValid parse_prefix parse_duration (saved (record c { remotes = put alias rc c.remotes }))
  put-IsValid c alias rc v h =
      saved-IsValid (record c { remotes = put alias rc c.remotes })
        (record {
          version = v.version;
          defaults = v.defaults;
          reconnect_for = v.reconnect_for;
          exclude = v.exclude;
          remotes =
              subst
                (λ look. Each (is_remote parse_prefix parse_duration) look (put alias rc c.remotes))
                (fun_ext (λ name. sym (remote_of-put alias rc c.remotes name)))
                (Each-put (is_remote parse_prefix parse_duration) (remote_of c.remotes) alias rc
                  c.remotes h v.remotes);
        })

  delete-IsValid :
      (c : Config) (alias : Text)
      → IsValid parse_prefix parse_duration c
      → IsValid parse_prefix parse_duration (saved (record c { remotes = delete alias c.remotes }))
  delete-IsValid c alias v =
      saved-IsValid (record c { remotes = delete alias c.remotes })
        (record {
          version = v.version;
          defaults = v.defaults;
          reconnect_for = v.reconnect_for;
          exclude = v.exclude;
          remotes =
              subst
                (λ look. Each (is_remote parse_prefix parse_duration) look (delete alias c.remotes))
                (fun_ext (λ name. sym (remote_of-delete alias c.remotes name)))
                (Each-delete (is_remote parse_prefix parse_duration) (remote_of c.remotes) alias
                  c.remotes v.remotes);
        })

  -- Flags that their Set took, and no empty host.
  abbrev pub IsCommand : Command → Type 0
  IsCommand (add alias f) =
      AreSet parse_prefix parse_duration f × (is_empty (changed f.host []) ≡ false)
  IsCommand (set alias f) =
      AreSet parse_prefix parse_duration f × (flag_ok (λ s. not (is_empty s)) f.host ≡ true)
  IsCommand (unset alias fields) = Unit
  IsCommand (remove alias) = Unit

  host_kept :
      (f : Option Text) (old : Text)
      → flag_ok (λ s. not (is_empty s)) f ≡ true
      → is_empty old ≡ false
      → is_empty (changed f old) ≡ false
  host_kept none old h k = k
  host_kept (some []) old h k = cc
  host_kept (some (c ∷ s)) old h k = refl

  entry-Values :
      (c : Config) (alias : Text)
      → IsValid parse_prefix parse_duration c
      → not (has_key c.remotes alias) ≡ false
      → Values parse_prefix parse_duration (remote_of c.remotes alias)
        × (is_empty (remote_of c.remotes alias).host ≡ false)
  entry-Values c alias v h =
      is_remote→Values parse_prefix parse_duration (remote_of c.remotes alias) (
        Each-has_key (is_remote parse_prefix parse_duration) (remote_of c.remotes) alias c.remotes
          (not_false (has_key c.remotes alias) h) v.remotes)
    where
      not_false : (b : Bool) → not b ≡ false → b ≡ true
      not_false true h = refl
      not_false false h = cc

  run-IsValid :
      (c new : Config) (cmd : Command)
      → IsCommand cmd
      → IsValid parse_prefix parse_duration c
      → run parse_prefix c cmd ≡ ok new
      → IsValid parse_prefix parse_duration new
  unfolding run alias_add alias_set alias_unset alias_remove
  run-IsValid c new (add alias f) k v h =
      let (_, h) = not_refused_alias (has_key c.remotes alias) _ _ new h in
      let (rc, e, h) = bind_ok (remote_from_flags parse_prefix f no_remote) _ new h in
      let (values, host) =
        remote_from_flags-Values parse_prefix parse_duration f no_remote rc k.0
          (no_remote-Values parse_prefix parse_duration) e in
      subst (IsValid parse_prefix parse_duration) (ok-injective _ new h) (
        put-IsValid c alias rc v
          (Values→is_remote parse_prefix parse_duration rc (ap is_empty host ∙ k.1) values))
  run-IsValid c new (set alias f) k v h =
      let (there, h) = not_refused_alias (not (has_key c.remotes alias)) _ _ new h in
      let (old, old_host) = entry-Values c alias v there in
      let (rc, e, h) =
        bind_ok (remote_from_flags parse_prefix f (remote_of c.remotes alias)) _ new h in
      let (values, host) =
        remote_from_flags-Values parse_prefix parse_duration f (remote_of c.remotes alias) rc k.0
          old e in
      subst (IsValid parse_prefix parse_duration) (ok-injective _ new h) (
        put-IsValid c alias rc v (
          Values→is_remote parse_prefix parse_duration rc
            (ap is_empty host ∙ host_kept f.host _ k.1 old_host) values))
  run-IsValid c new (unset alias fields) k v h =
      let (there, h) = not_refused_alias (not (has_key c.remotes alias)) _ _ new h in
      let (old, old_host) = entry-Values c alias v there in
      let (rc, e, h) = bind_ok (unset_fields fields (remote_of c.remotes alias)) _ new h in
      let (values, host) =
        unset_fields-Values parse_prefix parse_duration fields (remote_of c.remotes alias) rc old
          e in
      subst (IsValid parse_prefix parse_duration) (ok-injective _ new h) (
        put-IsValid c alias rc v
          (Values→is_remote parse_prefix parse_duration rc (ap is_empty host ∙ old_host) values))
  run-IsValid c new (remove alias) k v h =
      let (_, h) = not_refused_alias (not (has_key c.remotes alias)) _ _ new h in
      subst (IsValid parse_prefix parse_duration) (ok-injective _ new h) (delete-IsValid c alias v)

  -- A command whose flags their Set took, and that gives no empty host, writes a config that Load
  -- accepts where it read one.
  pub run-keeps :
      (c new : Config) (cmd : Command)
      → IsCommand cmd
      → validate parse_prefix parse_duration c ≡ none
      → run parse_prefix c cmd ≡ ok new
      → validate parse_prefix parse_duration new ≡ none
  run-keeps c new cmd k v h =
      (validate-IsValid parse_prefix parse_duration new).1
        (run-IsValid c new cmd k ((validate-IsValid parse_prefix parse_duration c).0 v) h)

  saved_remotes : (c : Config) → (saved c).remotes ≡ c.remotes
  unfolding saved
  saved_remotes c = elim (Bool-cases (c.version == 0)) [ inl e ↦ rw e refl | inr e ↦ rw e refl ]

  -- The flags of a command that gives a host and nothing else.
  abbrev pub host_flag : Text → RemoteFlags
  host_flag host = record {
    host = some host;
    user = none;
    dns = none;
    transport = none;
    protocols = none;
    reconnect_for = none;
    networks = none;
    exclude = none;
  }

  abbrev written : Config → Text → Config
  written c alias = saved (record c {
    remotes = put alias (record (remote_of c.remotes alias) { host = [] }) c.remotes;
  })

  -- alias set with an empty host succeeds on any alias that the config has, and Load refuses the
  -- config that it writes.
  pub set_empty_host :
      (c : Config) (alias : Text)
      → has_key c.remotes alias ≡ true
      → (new : Config) × (run parse_prefix c (set alias (host_flag [])) ≡ ok new)
        × (validate parse_prefix parse_duration new ≢ none)
  unfolding run alias_set remote_from_flags
  set_empty_host c alias h = (
    written c alias,
    rw h refl,
    λ e. not_valid ((validate-IsValid parse_prefix parse_duration (written c alias)).0 e),
  )
    where
      entry : RemoteConfig
      entry = record (remote_of c.remotes alias) { host = [] }

      remotes : List (Text × RemoteConfig)
      remotes = put alias entry c.remotes

      entry_there : remote_of remotes alias ≡ entry
      entry_there = remote_of-put alias entry c.remotes alias ∙ rw (text_eq_refl alias) refl

      is_there :
          IsValid parse_prefix parse_duration (written c alias)
          → is_remote parse_prefix parse_duration (remote_of remotes alias) ≡ true
      is_there v =
          Each-has_key (is_remote parse_prefix parse_duration) (remote_of remotes) alias remotes
            (has_key-put alias entry c.remotes)
            (subst (λ l. Each (is_remote parse_prefix parse_duration) (remote_of l) l)
              (saved_remotes (record c { remotes = remotes })) v.remotes)

      not_valid : IsValid parse_prefix parse_duration (written c alias) → ⊥
      not_valid v = cc (sym (ap (is_remote parse_prefix parse_duration) entry_there) ∙ is_there v)
