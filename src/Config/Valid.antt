-- ===== src/Config/Valid.antt =====
-- What validate accepts.
use tailjump.Prelude.{
  ℕ, ◌==◌, ◌≡◌, ◌↔◌, Bool, true, false, ◌&&◌, ◌||◌, not, List, [], ◌∷◌, ◌++◌, Option, none, some,
  Outcome, ok, err, is_ok, arith, refl, sym, ap, ◌∙◌, All,
}
use tailjump.Text.{Text, str, is_empty}
use tailjump.Net.Prefix.{Prefix}
use tailjump.Dns
use tailjump.Transport
use tailjump.Protocols
use tailjump.Manifest.{parse_prefixes}
use tailjump.Text.{text_eq, text_eq_iff}
use tailjump.Prelude.{Bool-cases, inl, inr, ◌⊎◌, subst}
use tailjump.Config.{
  Config, RemoteConfig, ConfigError, and_then, refuse_if, refuse_unparsed, below_0, remote_of, keys,
  insert, sort, validate, validate_remotes, validate_remote, validate_reconnect_for,
  validate_values,
}
use tailjump.Config.{bad_dns, bad_reconnect_for, bad_version, no_host}
use tailjump.Config.{bad_exclude, bad_remote_networks, bad_transport}
use tailjump.Config.{bad_protocols, bad_remote_exclude}
use tailjump.Prelude.{inl, ◌⊎◌}
use tailjump.Prelude.{inr}
use tailjump.Config.{no_remote}
use tailjump.Prelude.{Bool-cases}
use tailjump.Config.{text_eq}

-- A value that is not set, or that its package takes.
abbrev pub is_value : (Text → Bool) → Text → Bool
is_value valid s = is_empty s || valid s

abbrev pub is_block : Text → Text → Text → Bool
is_block dns transport protocols =
    is_value Dns.valid dns
    && (is_value Transport.valid transport && is_value Protocols.valid protocols)

abbrev passes : Option ConfigError → Bool
passes none = true
passes (some e) = false

passes-none : (o : Option ConfigError) → (o ≡ none) ↔ (passes o ≡ true)
passes-none none = (λ h. refl, λ h. refl)
passes-none (some e) = (λ h. cc, λ h. cc)

passes-and_then : (e f : Option ConfigError) → passes (and_then e f) ≡ passes e && passes f
passes-and_then none f = refl
passes-and_then (some e) f = refl

passes-refuse_if : (b : Bool) (e : ConfigError) → passes (refuse_if b e) ≡ not b
passes-refuse_if true e = refl
passes-refuse_if false e = refl

passes-refuse_unparsed {ℓ} :
    {A : Type ℓ} (error : Text → ConfigError) (o : Outcome Text A)
    → passes (refuse_unparsed error o) ≡ is_ok o
passes-refuse_unparsed error (ok a) = refl
passes-refuse_unparsed error (err s) = refl

unset_or : (b c : Bool) → not (not b && not c) ≡ b || c
unset_or b c = ground arith

passes-validate_values :
    (prefix dns transport protocols : Text)
    → passes (validate_values prefix dns transport protocols) ≡ is_block dns transport protocols
unfolding validate_values
passes-validate_values prefix dns transport protocols =
    rw
      (
        passes-and_then _ _,
        passes-and_then _ _,
        passes-refuse_if _ (bad_dns prefix dns),
        passes-refuse_if _ (bad_transport prefix transport),
        passes-refuse_if _ (bad_protocols prefix protocols),
        unset_or (is_empty dns) _,
        unset_or (is_empty transport) _,
        unset_or (is_empty protocols) _,
      )
      refl

pub all_five :
    (a b c d e : Bool)
    → a && (b && (c && (d && e))) ≡ true
    → (a ≡ true) × (b ≡ true) × (c ≡ true) × (d ≡ true) × (e ≡ true)
all_five true true true true true h = (refl, refl, refl, refl, refl)
all_five true true true true false h = ground arith
all_five true true true false e h = ground arith
all_five true true false d e h = ground arith
all_five true false c d e h = ground arith
all_five false b c d e h = ground arith

-- Every text of the list passes the test; the order of the texts does not matter.
unfoldable every : (Text → Bool) → List Text → Bool
every f [] = true
every f (s ∷ l) = f s && every f l

every-insert :
    (f : Text → Bool) (s : Text) (l : List Text) → every f (insert s l) ≡ f s && every f l
unfolding every insert
every-insert f s [] = refl
every-insert f s (t ∷ l) = ground (arith, every-insert f s l)

every-sort : (f : Text → Bool) (l : List Text) → every f (sort l) ≡ every f l
unfolding every sort
every-sort f [] = refl
every-sort f (s ∷ l) = every-insert f s (sort l) ∙ ap (λ b. f s && b) (every-sort f l)

every-keys :
    (f : Text → Bool) (remotes : List (Text × RemoteConfig))
    → (every f (keys remotes) ≡ true) ↔ All (λ e. f e.0 ≡ true) remotes
unfolding every keys
every-keys f [] = (λ h. tt, λ h. refl)
every-keys f (e ∷ remotes) = (
  λ h. (ground arith, (every-keys f remotes).0 (ground arith)),
  λ h. ground (arith, h.0, (every-keys f remotes).1 h.1),
)

module _ (parse_prefix : Text → Option Prefix) (parse_duration : Text → Option (Bool × ℕ)) where
  abbrev pub is_duration : Text → Bool
  is_duration s = is_value (λ t. not (below_0 (parse_duration t))) s

  abbrev pub are_prefixes : List Text → Bool
  are_prefixes l = is_ok (parse_prefixes parse_prefix l)

  abbrev pub is_remote : RemoteConfig → Bool
  is_remote rc =
      not (is_empty rc.host)
      && (is_block rc.dns rc.transport rc.protocols
          && (is_duration rc.reconnect_for
              && (are_prefixes rc.networks && are_prefixes rc.exclude)))

  pub record IsValid (c : Config) : Type 0 where
    pub version : c.version == 0 || c.version == 1 ≡ true
    pub defaults : is_block c.defaults.dns c.defaults.transport c.defaults.protocols ≡ true
    pub reconnect_for : is_duration c.defaults.reconnect_for ≡ true
    pub exclude : are_prefixes c.exclude ≡ true
    pub remotes : All (λ e. is_remote (remote_of c.remotes e.0) ≡ true) c.remotes

  passes-validate_reconnect_for :
      (prefix value : Text)
      → passes (validate_reconnect_for parse_prefix parse_duration prefix value) ≡ is_duration value
  unfolding validate_reconnect_for
  passes-validate_reconnect_for prefix [] = refl
  passes-validate_reconnect_for prefix (c ∷ s) =
      passes-refuse_if _ (bad_reconnect_for prefix (c ∷ s))

  passes-validate_remote :
      (name : Text) (rc : RemoteConfig)
      → passes (validate_remote parse_prefix parse_duration name rc) ≡ is_remote rc
  unfolding validate_remote
  passes-validate_remote name rc =
      rw
        (
          passes-and_then _ _,
          passes-and_then _ _,
          passes-and_then _ _,
          passes-and_then _ _,
          passes-refuse_if _ (no_host name),
          passes-validate_values (str "remotes." ++ name) rc.dns rc.transport rc.protocols,
          passes-validate_reconnect_for (str "remotes." ++ name) rc.reconnect_for,
          passes-refuse_unparsed (bad_remote_networks name) _,
          passes-refuse_unparsed (bad_remote_exclude name) _,
        )
        refl

  passes-validate_remotes :
      (remotes : List (Text × RemoteConfig)) (names : List Text)
      → passes (validate_remotes parse_prefix parse_duration remotes names)
        ≡ every (λ name. is_remote (remote_of remotes name)) names
  unfolding validate_remotes every
  passes-validate_remotes remotes [] = refl
  passes-validate_remotes remotes (name ∷ names) =
      passes-and_then (validate_remote parse_prefix parse_duration name (remote_of remotes name)) _
      ∙ rw
          (
            passes-validate_remote name (remote_of remotes name),
            passes-validate_remotes remotes names,
          )
          refl

  all_remotes : Config → Bool
  all_remotes c = every (λ name. is_remote (remote_of c.remotes name)) (keys c.remotes)

  abbrev accepts : Config → Bool
  accepts c =
      (c.version == 0 || c.version == 1)
      && (is_block c.defaults.dns c.defaults.transport c.defaults.protocols
          && (is_duration c.defaults.reconnect_for && (are_prefixes c.exclude && all_remotes c)))

  passes-validate : (c : Config) → passes (validate parse_prefix parse_duration c) ≡ accepts c
  unfolding validate all_remotes
  passes-validate c =
      rw
        (
          passes-and_then _ _,
          passes-and_then _ _,
          passes-and_then _ _,
          passes-and_then _ _,
          passes-refuse_if _ (bad_version c.version),
          unset_or (c.version == 0) (c.version == 1),
          passes-validate_values (str "defaults") c.defaults.dns c.defaults.transport
              c.defaults.protocols,
          passes-validate_reconnect_for (str "defaults") c.defaults.reconnect_for,
          passes-refuse_unparsed bad_exclude _,
          passes-validate_remotes c.remotes (sort (keys c.remotes)),
          every-sort (λ name. is_remote (remote_of c.remotes name)) (keys c.remotes),
        )
        refl

  remotes_iff :
      (c : Config)
      → (all_remotes c ≡ true) ↔ All (λ e. is_remote (remote_of c.remotes e.0) ≡ true) c.remotes
  unfolding all_remotes
  remotes_iff c = every-keys (λ name. is_remote (remote_of c.remotes name)) c.remotes

  -- validate accepts a config just where every value of it is valid; the order in which it visits
  -- the remotes does not matter.
  pub validate-IsValid : (c : Config) → (validate parse_prefix parse_duration c ≡ none) ↔ IsValid c
  validate-IsValid c =
      let passed = passes-none (validate parse_prefix parse_duration c) in
      (
        λ h.
            let (version, defaults, reconnect, exclude, remotes) =
              all_five _ _ _ _ _ (sym (passes-validate c) ∙ passed.0 h) in
            record {
              version = version;
              defaults = defaults;
              reconnect_for = reconnect;
              exclude = exclude;
              remotes = (remotes_iff c).0 remotes;
            },
        λ v. passed.1 (
            passes-validate c
            ∙ rw (v.version, v.defaults, v.reconnect_for, v.exclude, (remotes_iff c).1 v.remotes)
                refl),
      )

  found_or_none :
      (look : Text → RemoteConfig) (l : List (Text × RemoteConfig)) (name : Text)
      → All (λ e. is_remote (look e.0) ≡ true) l
      → (is_remote (look name) ≡ true) ⊎ (remote_of l name ≡ no_remote)
  unfolding remote_of
  found_or_none look [] name h = inr refl
  found_or_none look (e ∷ l) name h = elim (Bool-cases (text_eq e.0 name)) [
    | inl same ↦ inl (subst (λ n. is_remote (look n) ≡ true) ((text_eq_iff e.0 name).0 same) h.0)
    | inr other ↦ rw other (found_or_none look l name h.1)
  ]

  -- The values of any remote of a valid config are valid: a name that the config lacks has none.
  pub remote_of_valid :
      (c : Config) (name : Text)
      → IsValid c
      → let rc = remote_of c.remotes name in
        (is_block rc.dns rc.transport rc.protocols ≡ true) × (is_duration rc.reconnect_for ≡ true)
  remote_of_valid c name v =
      let rc = remote_of c.remotes name in
      elim (found_or_none (remote_of c.remotes) c.remotes name v.remotes) [
        | inl h ↦
            remote_parts (not (is_empty rc.host)) _ _ (are_prefixes rc.networks)
              (are_prefixes rc.exclude) h
        | inr h ↦ rw h (refl, refl)
      ]
    where
      remote_parts :
          (a b c d e : Bool) → a && (b && (c && (d && e))) ≡ true → (b ≡ true) × (c ≡ true)
      remote_parts a b c d e h = let all = all_five a b c d e h in (all.1, all.2)
