-- ===== src/Session/Runner/Attempts.antt =====
-- What an attempt to open the transport does to the runner.
use tailjump.Prelude.{
  Bool-cases, inl, inr, Option, none, some, Outcome, ok, err, ◌≡◌, refl, ap, ◌∙◌,
}
use tailjump.Prelude.{if◌then◌else◌, true, List, subst, sym}
use tailjump.Text.{Text, text_eq}
use tailjump.Dns.{mode_none, mode_split, mode_all}
use tailjump.Net.{Addr, addr_eq}
use tailjump.Session.Types.{Plan, State, TransportKind, SessionError, remote_changed, Reason}
use tailjump.Session.Quic.{Carrier, open_transport}
use tailjump.Session.Quic.Choice.{kind_of, Keeps, open_transport-Keeps}
use tailjump.Session.Runner.{
  Runner, Remote, attempt, transport, resolve_remote, resolve_addr, guard_manifest, DnsState,
  split_dns, all_dns, resolved, dns_with, apply_dns,
}
use tailjump.Session.Runner.{
  with_ssh, guarded, with_helper, with_carrier, installed, dns_back, with_status, moved,
  attempt_from, verdict,
}
use tailjump.Session.Runner.{TailStatus}
use tailjump.Session.Lanes.{parse_addrs}

-- What an attempt leaves alone: the plan, the device, the start of the window, and all of the state
-- but the remote, its address, the QUIC port and the lanes.
abbrev pub SameState : State → State → Type 0
SameState st st' =
    (st'.status ≡ st.status)
    × (st'.transport ≡ st.transport)
    × (st'.fallback ≡ st.fallback)
    × (st'.reconnect ≡ st.reconnect)
    × (st'.reconnects ≡ st.reconnects)
    × (st'.metrics ≡ st.metrics)

-- The settings that the DNS mode of the plan asks for: its servers and its domains, as split or as
-- all; with the mode none there is nothing to ask.
pub data HasDns (parse : Text → Option Addr) (plan : Plan) : DnsState → Type 0 where
  none_asked : {dns : DnsState} → text_eq plan.dns.mode mode_none ≡ true → HasDns parse plan dns
  has_split :
      {servers : List Addr}
      → text_eq plan.dns.mode mode_split ≡ true
      → parse_addrs parse plan.dns.servers ≡ ok servers
      → HasDns parse plan (split_dns servers plan.dns.domains)
  has_all :
      {servers : List Addr}
      → text_eq plan.dns.mode mode_all ≡ true
      → parse_addrs parse plan.dns.servers ≡ ok servers
      → HasDns parse plan (all_dns servers plan.dns.domains)

-- The results of applyDNS: without an error the settings are those of the plan.
abbrev Sets : (Text → Option Addr) → Plan → DnsState × Option SessionError → Type 0
Sets parse plan (dns, none) = HasDns parse plan dns
Sets parse plan (dns, some e) = Unit

resolved-Sets :
    (parse : Text → Option Addr) (plan : Plan) (o : Option (Text × DnsState)) (dns : DnsState)
    → HasDns parse plan dns
    → Sets parse plan (resolved o dns)
resolved-Sets parse plan none dns h = h
resolved-Sets parse plan (some e) dns h = tt

module _ {D : Type 0} where
  abbrev pub Same : Runner D → Runner D → Type 0
  Same r r' =
      (r'.plan ≡ r.plan)
      × (r'.has_device ≡ r.has_device)
      × (r'.lost_at ≡ r.lost_at)
      × SameState r.state r'.state

  -- The dialer holds a carrier of the transport.
  abbrev pub Carries : TransportKind → Option (Carrier D) → Type 0
  Carries k dialer = (c : Carrier D) × (dialer ≡ some c) × (kind_of c ≡ k)

  -- netip.ParseAddr is the function `parse`.
  abbrev pub Parses : (Text → Option Addr) → Remote D → Type 0
  Parses parse remote = (a : Addr) → (remote.calls a).parse_addr ≡ parse

  -- The device, where there is one, has the DNS settings of the plan.
  abbrev pub HasDnsOn : (Text → Option Addr) → Runner D → Type 0
  HasDnsOn parse r = r.has_device ≡ true → HasDns parse r.plan r.dns

  -- A result of an attempt: the dialer is set where there is no error, and only there.
  abbrev pub After {ℓ} :
      {E : Type ℓ} → (Text → Option Addr) → TransportKind → Runner D → Runner D × Option E → Type 0
  After parse k r (r', none) = Carries k r'.dialer × Same r r' × HasDnsOn parse r'
  After parse k r (r', some e) = (r'.dialer ≡ r.dialer) × Same r r'

  abbrev pub same : (r : Runner D) → Same r r
  same r = (refl, refl, refl, (refl, refl, refl, refl, refl, refl))

  same_trans : (r r' r'' : Runner D) → Same r r' → Same r' r'' → Same r r''
  same_trans r r' r'' a b = (
    b.0 ∙ a.0,
    b.1 ∙ a.1,
    b.2 ∙ a.2,
    (b.3.0 ∙ a.3.0, b.3.1 ∙ a.3.1, b.3.2 ∙ a.3.2, b.3.3 ∙ a.3.3, b.3.4 ∙ a.3.4, b.3.5 ∙ a.3.5),
  )

  dns_with-Sets :
      (remote : Remote D) (parse : Text → Option Addr) (plan : Plan) (before : DnsState)
      (o : Outcome Text (List Addr))
      → parse_addrs parse plan.dns.servers ≡ o
      → Sets parse plan (dns_with remote plan before o)
  dns_with-Sets remote parse plan before (err s) h = tt
  dns_with-Sets remote parse plan before (ok servers) h =
      elim (Bool-cases (text_eq plan.dns.mode mode_split)) [
        | inl e ↦ rw e (resolved-Sets parse plan _ _ (has_split e h))
        | inr e ↦ elim (Bool-cases (text_eq plan.dns.mode mode_all)) [
          | inl f ↦ rw (e, f) (resolved-Sets parse plan _ _ (has_all f h))
          | inr f ↦ rw (e, f) tt
        ]
      ]

  apply_dns-Sets :
      (remote : Remote D) (parse : Text → Option Addr) (plan : Plan) (before : DnsState)
      → Sets parse plan (apply_dns remote parse plan before)
  unfolding apply_dns
  apply_dns-Sets remote parse plan before = elim (Bool-cases (text_eq plan.dns.mode mode_none)) [
    | inl e ↦ rw e (none_asked e)
    | inr e ↦ rw e (dns_with-Sets remote parse plan before _ refl)
  ]

  dns_back-Sets :
      (remote : Remote D) (parse : Text → Option Addr) (r : Runner D)
      → Parses parse remote
      → r.has_device ≡ true
      → Sets parse r.plan (dns_back remote r)
  dns_back-Sets remote parse r p h =
      subst
        (λ b. Sets parse r.plan (
          if b
          then apply_dns remote (remote.calls r.addr).parse_addr r.plan r.dns
          else (r.dns, none)))
        (sym h)
        (subst (λ f. Sets parse r.plan (apply_dns remote f r.plan r.dns)) (sym (p r.addr))
          (apply_dns-Sets remote parse r.plan r.dns))

  installed-After :
      (parse : Text → Option Addr) (k : TransportKind) (r r' : Runner D) (c : Carrier D)
      (d : DnsState × Option SessionError)
      → Same r r'
      → r'.dialer ≡ r.dialer
      → kind_of c ≡ k
      → (r'.has_device ≡ true → Sets parse r'.plan d)
      → After parse k r (installed r' c d)
  installed-After parse k r r' c (dns, none) s d h w = ((c, refl, h), s, w)
  installed-After parse k r r' c (dns, some e) s d h w = (d, s)

  ported :
      (r : Runner D) (st : State)
      → st ≡ record r.state { quic_port = st.quic_port }
      → Same r (record r { state = st })
  ported r st h = (
    refl,
    refl,
    refl,
    (
      ap (λ t. t.status) h,
      ap (λ t. t.transport) h,
      ap (λ t. t.fallback) h,
      ap (λ t. t.reconnect) h,
      ap (λ t. t.reconnects) h,
      ap (λ t. t.metrics) h,
    ),
  )

  with_carrier-After :
      (parse : Text → Option Addr) (k : TransportKind) (remote : Remote D) (r : Runner D)
      (st : State) (o : Outcome SessionError (Carrier D))
      → Parses parse remote
      → Keeps k r.state st o
      → After parse k r (with_carrier remote r (st, o))
  with_carrier-After parse k remote r st (err e) p h = (refl, ported r st h)
  with_carrier-After parse k remote r st (ok c) p h =
      installed-After parse k r (record r { state = st }) c (dns_back remote r) (ported r st h.0)
        refl h.1 (dns_back-Sets remote parse (record r { state = st }) p)

  with_helper-After :
      (parse : Text → Option Addr) (k : TransportKind) (remote : Remote D) (r : Runner D)
      (o : Outcome Text D)
      → Parses parse remote
      → r.state.transport ≡ some k
      → After parse k r (with_helper remote r o)
  with_helper-After parse k remote r (err e) p h = (refl, same r)
  with_helper-After parse k remote r (ok client) p h =
      with_carrier-After parse k remote r
        (open_transport (remote.calls r.addr) client r.plan r.set r.state).0
        (open_transport (remote.calls r.addr) client r.plan r.set r.state).1 p
        (open_transport-Keeps (remote.calls r.addr) client r.plan r.set r.state k h)

  guarded-After :
      (parse : Text → Option Addr) (k : TransportKind) (remote : Remote D) (r : Runner D)
      (e : Option SessionError)
      → Parses parse remote
      → r.state.transport ≡ some k
      → After parse k r (guarded remote r e)
  guarded-After parse k remote r none p h =
      with_helper-After parse k remote r (remote.start_helper r.addr) p h
  guarded-After parse k remote r (some e) p h = (refl, same r)

  with_ssh-After :
      (parse : Text → Option Addr) (k : TransportKind) (remote : Remote D) (r : Runner D)
      (e : Option Text)
      → Parses parse remote
      → r.state.transport ≡ some k
      → After parse k r (with_ssh remote r e)
  with_ssh-After parse k remote r none p h =
      guarded-After parse k remote r (guard_manifest remote r) p h
  with_ssh-After parse k remote r (some e) p h = (refl, same r)

  transport-After :
      (parse : Text → Option Addr) (k : TransportKind) (remote : Remote D) (r : Runner D)
      → Parses parse remote
      → r.state.transport ≡ some k
      → After parse k r (transport remote r)
  unfolding transport
  transport-After parse k remote r p h =
      with_ssh-After parse k remote r (remote.ssh_dial r.addr) p h

  -- resolve follows the remote and leaves the dialer alone.
  abbrev Resolved : Runner D → Runner D × Option Reason → Type 0
  Resolved r (r', reason) = (r'.dialer ≡ r.dialer) × Same r r'

  moved-Resolved :
      (remote : Remote D) (r : Runner D) (o : Outcome Reason (Addr × Text))
      → Resolved r (moved remote r o)
  moved-Resolved remote r (err reason) = (refl, same r)
  moved-Resolved remote r (ok (addr, hostname)) = elim (Bool-cases (addr_eq addr r.addr)) [
    | inl e ↦ rw e (refl, same r)
    | inr e ↦ rw e (refl, same r)
  ]

  with_status-Resolved :
      (remote : Remote D) (r : Runner D) (o : Outcome Text TailStatus)
      → Resolved r (with_status remote r o)
  with_status-Resolved remote r (err e) = (refl, same r)
  with_status-Resolved remote r (ok st) = moved-Resolved remote r (resolve_addr st r.plan.ref)

  After-Resolved :
      (parse : Text → Option Addr) (k : TransportKind) (r r' : Runner D)
      (t : Runner D × Option SessionError)
      → Resolved r (r', none)
      → After parse k r' t
      → After parse k r (t.0, verdict t.1)
  After-Resolved parse k r r' (r'', none) s h = (h.0, same_trans r r' r'' s.1 h.1, h.2)
  After-Resolved parse k r r' (r'', some remote_changed) s h =
      (h.0 ∙ s.0, same_trans r r' r'' s.1 h.1)
  After-Resolved parse k r r' (r'', some _) s h = (h.0 ∙ s.0, same_trans r r' r'' s.1 h.1)

  attempt_from-After :
      (parse : Text → Option Addr) (k : TransportKind) (remote : Remote D) (r r' : Runner D)
      (o : Option Reason)
      → Parses parse remote
      → r.state.transport ≡ some k
      → Resolved r (r', o)
      → After parse k r (attempt_from remote (r', o))
  attempt_from-After parse k remote r r' (some reason) p h s = s
  attempt_from-After parse k remote r r' none p h s =
      After-Resolved parse k r r' (transport remote r') s
        (transport-After parse k remote r' p (s.1.3.1 ∙ h))

  -- An attempt keeps the transport of the session, its plan, its device and its progress, and it
  -- sets the dialer, with a carrier of that transport, where it gives no reason and only there. There
  -- the resolver has set the servers and the domains of the plan too, as its DNS mode asks, where
  -- there is a device and the mode is not none. netip.ParseAddr is `parse` in all its calls.
  pub attempt-After :
      (parse : Text → Option Addr) (k : TransportKind) (remote : Remote D) (r : Runner D)
      → Parses parse remote
      → r.state.transport ≡ some k
      → After parse k r (attempt remote r)
  unfolding attempt resolve_remote
  attempt-After parse k remote r p h =
      attempt_from-After parse k remote r (resolve_remote remote r).0 (resolve_remote remote r).1 p
        h (with_status-Resolved remote r remote.tail_status)
