-- ===== src/Cli/Alias/Entries.antt =====
-- The entry that a command makes from its flags, or by clearing fields.
use tailjump.Prelude.{
  ℕ, ◌≡◌, refl, ap, ◌∙◌, subst, Bool, true, false, ◌&&◌, not, Option, none, some, Outcome, ok, err,
  is_ok, if◌then◌else◌, List, [], ◌∷◌, arith, bind_ok, wrapped_ok, ok-injective,
}
use tailjump.Text.{Text, is_empty}
use tailjump.Net.Prefix.{Prefix}
use tailjump.Dns
use tailjump.Transport
use tailjump.Protocols
use tailjump.Manifest.{parse_prefixes}
use tailjump.Config.{RemoteConfig, no_remote}
use tailjump.Config.Valid.{all_five}
use tailjump.Config.Valid.{is_remote, is_value, is_block, is_duration, are_prefixes}
use tailjump.Cli.Alias.{
  AliasError, RemoteFlags, changed, parsed_flag, remote_from_flags, unset_field, unset_fields,
}
use tailjump.Config.{below_0}
use tailjump.Cli.Alias.{bad_network}
use tailjump.Cli.Alias.{bad_exclude}
use tailjump.Cli.Alias.{unknown_field}

-- A flag that is not set, or that its Set took.
abbrev pub flag_ok : (Text → Bool) → Option Text → Bool
flag_ok valid none = true
flag_ok valid (some s) = valid s

changed_value :
    (valid : Text → Bool) (f : Option Text) (old : Text)
    → flag_ok valid f ≡ true
    → is_value valid old ≡ true
    → is_value valid (changed f old) ≡ true
changed_value valid none old h k = k
changed_value valid (some []) old h k = refl
changed_value valid (some (c ∷ s)) old h k = h

module _ (parse_prefix : Text → Option Prefix) (parse_duration : Text → Option (Bool × ℕ)) where
  pub record AreSet (f : RemoteFlags) : Type 0 where
    pub dns : flag_ok Dns.valid f.dns ≡ true
    pub transport : flag_ok Transport.valid f.transport ≡ true
    pub protocols : flag_ok Protocols.valid f.protocols ≡ true
    pub reconnect_for : flag_ok (λ s. not (below_0 (parse_duration s))) f.reconnect_for ≡ true

  parsed_flag_ok :
      (error : Text → AliasError) (f : Option (List Text)) (old new : List Text)
      → are_prefixes parse_prefix parse_duration old ≡ true
      → parsed_flag parse_prefix error f old ≡ ok new
      → are_prefixes parse_prefix parse_duration new ≡ true
  parsed_flag_ok error none old new h k =
      subst (λ l. are_prefixes parse_prefix parse_duration l ≡ true) (ok-injective old new k) h
  parsed_flag_ok error (some l) old new h k =
      let (ps, parsed, same) =
        wrapped_ok error (parse_prefixes parse_prefix l) (λ ps. ok l) new k in
      subst (λ t. are_prefixes parse_prefix parse_duration t ≡ true) (ok-injective l new same)
        (ap is_ok parsed)

  -- The values of an entry but its host.
  pub record Values (rc : RemoteConfig) : Type 0 where
    pub dns : is_value Dns.valid rc.dns ≡ true
    pub transport : is_value Transport.valid rc.transport ≡ true
    pub protocols : is_value Protocols.valid rc.protocols ≡ true
    pub reconnect_for : is_duration parse_prefix parse_duration rc.reconnect_for ≡ true
    pub networks : are_prefixes parse_prefix parse_duration rc.networks ≡ true
    pub exclude : are_prefixes parse_prefix parse_duration rc.exclude ≡ true

  pub no_remote-Values : Values no_remote
  unfolding parse_prefixes
  no_remote-Values = record {
    dns = refl;
    transport = refl;
    protocols = refl;
    reconnect_for = refl;
    networks = refl;
    exclude = refl;
  }

  pub Values→is_remote :
      (rc : RemoteConfig)
      → is_empty rc.host ≡ false
      → Values rc
      → is_remote parse_prefix parse_duration rc ≡ true
  Values→is_remote rc h v =
      rw (h, v.dns, v.transport, v.protocols, v.reconnect_for, v.networks, v.exclude) refl

  pub remote_from_flags-Values :
      (f : RemoteFlags) (base rc : RemoteConfig)
      → AreSet f
      → Values base
      → remote_from_flags parse_prefix f base ≡ ok rc
      → Values rc × (rc.host ≡ changed f.host base.host)
  unfolding remote_from_flags
  remote_from_flags-Values f base rc a v h =
      let (networks, n, h) =
        bind_ok (parsed_flag parse_prefix bad_network f.networks base.networks) _ rc h in
      let (exclude, e, h) =
        bind_ok (parsed_flag parse_prefix bad_exclude f.exclude base.exclude) _ rc h in
      subst (λ r. Values r × (r.host ≡ changed f.host base.host)) (ok-injective _ rc h)
        (
          record {
            dns = changed_value Dns.valid f.dns base.dns a.dns v.dns;
            transport =
                changed_value Transport.valid f.transport base.transport a.transport v.transport;
            protocols =
                changed_value Protocols.valid f.protocols base.protocols a.protocols v.protocols;
            reconnect_for =
                changed_value _ f.reconnect_for base.reconnect_for a.reconnect_for v.reconnect_for;
            networks = parsed_flag_ok bad_network f.networks base.networks networks v.networks n;
            exclude = parsed_flag_ok bad_exclude f.exclude base.exclude exclude v.exclude e;
          },
          refl,
        )

  pub is_remote→Values :
      (rc : RemoteConfig)
      → is_remote parse_prefix parse_duration rc ≡ true
      → Values rc × (is_empty rc.host ≡ false)
  is_remote→Values rc h =
      let (host, block, reconnect, networks, exclude) =
        all_five (not (is_empty rc.host)) (is_block rc.dns rc.transport rc.protocols)
          (is_duration parse_prefix parse_duration rc.reconnect_for) _ _ h in
      let (dns, transport, protocols) =
        all_three (is_value Dns.valid rc.dns) (is_value Transport.valid rc.transport) _ block in
      (
        record {
          dns = dns;
          transport = transport;
          protocols = protocols;
          reconnect_for = reconnect;
          networks = networks;
          exclude = exclude;
        },
        not_true (is_empty rc.host) host,
      )
    where
      not_true : (b : Bool) → not b ≡ true → b ≡ false
      not_true true h = cc
      not_true false h = refl

      all_three : (a b c : Bool) → a && (b && c) ≡ true → (a ≡ true) × (b ≡ true) × (c ≡ true)
      all_three true true true h = (refl, refl, refl)
      all_three true true false h = ground arith
      all_three true false c h = ground arith
      all_three false b c h = ground arith

  -- One case of the switch of alias unset.
  branch :
      (rc : RemoteConfig) (b : Bool) (x new : RemoteConfig) (rest : Outcome AliasError RemoteConfig)
      → Values x × (x.host ≡ rc.host)
      → (rest ≡ ok new → Values new × (new.host ≡ rc.host))
      → (if b then ok x else rest) ≡ ok new
      → Values new × (new.host ≡ rc.host)
  branch rc true x new rest h k e =
      subst (λ r. Values r × (r.host ≡ rc.host)) (ok-injective x new e) h
  branch rc false x new rest h k e = k e

  refused :
      (rc new : RemoteConfig) (e : AliasError)
      → Path (Outcome AliasError RemoteConfig) (err e) (ok new)
      → Values new × (new.host ≡ rc.host)
  refused rc new e h = cc

  unset_field-Values :
      (field : Text) (rc new : RemoteConfig)
      → Values rc
      → unset_field field rc ≡ ok new
      → Values new × (new.host ≡ rc.host)
  unfolding unset_field parse_prefixes
  unset_field-Values field rc new v =
      branch rc _ (record rc { user = [] }) new _ (v_user, refl)
        (branch rc _ (record rc { dns = [] }) new _ (v_dns, refl)
          (branch rc _ (record rc { transport = [] }) new _ (v_transport, refl)
            (branch rc _ (record rc { protocols = [] }) new _ (v_protocols, refl)
              (branch rc _ (record rc { networks = [] }) new _ (v_networks, refl)
                (branch rc _ (record rc { exclude = [] }) new _ (v_exclude, refl)
                  (branch rc _ (record rc { reconnect_for = [] }) new _ (v_reconnect, refl)
                    (refused rc new (unknown_field field))))))))
    where
      v_user : Values (record rc { user = [] })
      v_user = record {
        dns = v.dns;
        transport = v.transport;
        protocols = v.protocols;
        reconnect_for = v.reconnect_for;
        networks = v.networks;
        exclude = v.exclude;
      }

      v_dns : Values (record rc { dns = [] })
      v_dns = record {
        dns = refl;
        transport = v.transport;
        protocols = v.protocols;
        reconnect_for = v.reconnect_for;
        networks = v.networks;
        exclude = v.exclude;
      }

      v_transport : Values (record rc { transport = [] })
      v_transport = record {
        dns = v.dns;
        transport = refl;
        protocols = v.protocols;
        reconnect_for = v.reconnect_for;
        networks = v.networks;
        exclude = v.exclude;
      }

      v_protocols : Values (record rc { protocols = [] })
      v_protocols = record {
        dns = v.dns;
        transport = v.transport;
        protocols = refl;
        reconnect_for = v.reconnect_for;
        networks = v.networks;
        exclude = v.exclude;
      }

      v_networks : Values (record rc { networks = [] })
      v_networks = record {
        dns = v.dns;
        transport = v.transport;
        protocols = v.protocols;
        reconnect_for = v.reconnect_for;
        networks = refl;
        exclude = v.exclude;
      }

      v_exclude : Values (record rc { exclude = [] })
      v_exclude = record {
        dns = v.dns;
        transport = v.transport;
        protocols = v.protocols;
        reconnect_for = v.reconnect_for;
        networks = v.networks;
        exclude = refl;
      }

      v_reconnect : Values (record rc { reconnect_for = [] })
      v_reconnect = record {
        dns = v.dns;
        transport = v.transport;
        protocols = v.protocols;
        reconnect_for = refl;
        networks = v.networks;
        exclude = v.exclude;
      }

  pub unset_fields-Values :
      (fields : List Text) (rc new : RemoteConfig)
      → Values rc
      → unset_fields fields rc ≡ ok new
      → Values new × (new.host ≡ rc.host)
  unfolding unset_fields
  unset_fields-Values [] rc new v h =
      subst (λ r. Values r × (r.host ≡ rc.host)) (ok-injective rc new h) (v, refl)
  unset_fields-Values (field ∷ fields) rc new v h =
      let (next, e, h) = bind_ok (unset_field field rc) (unset_fields fields) new h in
      let (v', host) = unset_field-Values field rc next v e in
      let (v'', host') = unset_fields-Values fields next new v' h in (v'', host' ∙ host)
