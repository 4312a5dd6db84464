-- ===== src/Manifest/Networks/Covered.antt =====
-- Which addresses the prefixes of ComputeNetworks cover.
use tailjump.Prelude.{◌≡◌, Bool, true, ◌&&◌, ◌||◌, not, List, [], ◌∷◌, ok, All, arith, refl, ◌∙◌}
use tailjump.Net.{Addr}
use tailjump.Net.Prefix.{Prefix}
use tailjump.Manifest.Networks.{
  IpSets, Inputs, IsPlain, is_prefix, is_plain, covers, listed, reserved, add_prefixes, add_addrs,
  incl, excl, out, compute_networks,
}
use tailjump.Prelude.{bind_ok}
use tailjump.Prelude.{subst}
use tailjump.Prelude.{ok-injective}

-- The abstract view: an address is routed where a source includes it and nothing excludes it.
unfoldable pub included : Inputs → Addr → Bool
included i a =
    covers i.manifest_networks a || covers i.discovery_link_routes a || covers i.discovery_cloud a

unfoldable pub excluded : Inputs → Addr → Bool
excluded i a =
    covers i.manifest_exclude a
    || covers i.client_connected a
    || covers i.local_exclude a
    || covers reserved a
    || listed i.remote_addrs a

-- Inputs of prefixes that netip.ParsePrefix made, and of addresses without a zone.
abbrev pub Prefixes : List Prefix → Type 0
Prefixes = All (λ p. is_prefix p ≡ true)

pub record IsInput (i : Inputs) : Type 0 where
  pub manifest_networks : Prefixes i.manifest_networks
  pub manifest_exclude : Prefixes i.manifest_exclude
  pub discovery_link_routes : Prefixes i.discovery_link_routes
  pub discovery_cloud : Prefixes i.discovery_cloud
  pub remote_addrs : All (λ a. is_plain a ≡ true) i.remote_addrs
  pub client_connected : Prefixes i.client_connected
  pub local_exclude : Prefixes i.local_exclude

reserved-Prefixes : Prefixes reserved
reserved-Prefixes = (refl, (refl, (refl, (refl, (refl, (refl, (refl, (refl, (refl, tt)))))))))

module _ (sets : IpSets) where
  holds-add_prefixes :
      (b : sets.Builder) (ps : List Prefix) (a : Addr)
      → IsPlain a
      → sets.holds (add_prefixes sets b ps) a ≡ sets.holds b a || covers ps a
  unfolding add_prefixes covers
  holds-add_prefixes b [] a h = ground arith
  holds-add_prefixes b (p ∷ ps) a h =
      ground (arith, holds-add_prefixes (sets.add_prefix b p) ps a h, sets.holds-add_prefix b p a h)

  holds-add_addrs :
      (b : sets.Builder) (l : List Addr) (a : Addr)
      → IsPlain a
      → sets.holds (add_addrs sets b l) a ≡ sets.holds b a || listed l a
  unfolding add_addrs listed
  holds-add_addrs b [] a h = ground arith
  holds-add_addrs b (x ∷ l) a h =
      ground (arith, holds-add_addrs (sets.add b x) l a h, sets.holds-add b x a h)

  sound-add_prefixes :
      (b : sets.Builder) (ps : List Prefix)
      → sets.sound b ≡ true
      → Prefixes ps
      → sets.sound (add_prefixes sets b ps) ≡ true
  unfolding add_prefixes
  sound-add_prefixes b [] s h = s
  sound-add_prefixes b (p ∷ ps) s h =
      sound-add_prefixes (sets.add_prefix b p) ps (sets.sound-add_prefix b p s h.0) h.1

  sound-add_addrs :
      (b : sets.Builder) (l : List Addr)
      → sets.sound b ≡ true
      → All (λ a. is_plain a ≡ true) l
      → sets.sound (add_addrs sets b l) ≡ true
  unfolding add_addrs
  sound-add_addrs b [] s h = s
  sound-add_addrs b (a ∷ l) s h = sound-add_addrs (sets.add b a) l (sets.sound-add b a s h.0) h.1

  holds-incl : (i : Inputs) (a : Addr) → IsPlain a → sets.holds (incl sets i) a ≡ included i a
  unfolding incl included
  holds-incl i a h =
      rw
        (
          holds-add_prefixes _ i.discovery_cloud a h,
          holds-add_prefixes _ i.discovery_link_routes a h,
          holds-add_prefixes _ i.manifest_networks a h,
          sets.holds-empty a,
        )
        (ground arith)

  holds-excl : (i : Inputs) (a : Addr) → IsPlain a → sets.holds (excl sets i) a ≡ excluded i a
  unfolding excl excluded
  holds-excl i a h =
      rw
        (
          holds-add_addrs _ i.remote_addrs a h,
          holds-add_prefixes _ reserved a h,
          holds-add_prefixes _ i.local_exclude a h,
          holds-add_prefixes _ i.client_connected a h,
          holds-add_prefixes _ i.manifest_exclude a h,
          sets.holds-empty a,
        )
        (ground arith)

  sound-incl : (i : Inputs) → IsInput i → sets.sound (incl sets i) ≡ true
  unfolding incl
  sound-incl i v =
      sound-add_prefixes _ _
        (sound-add_prefixes _ _ (sound-add_prefixes _ _ sets.sound-empty v.manifest_networks)
          v.discovery_link_routes)
        v.discovery_cloud

  sound-excl : (i : Inputs) → IsInput i → sets.sound (excl sets i) ≡ true
  unfolding excl
  sound-excl i v =
      sound-add_addrs _ _
        (sound-add_prefixes _ _
          (sound-add_prefixes _ _
            (sound-add_prefixes _ _ (sound-add_prefixes _ _ sets.sound-empty v.manifest_exclude)
              v.client_connected)
            v.local_exclude)
          reserved-Prefixes)
        v.remote_addrs

  sound-out : (s t : sets.Set) → sets.sound (out sets s t) ≡ true
  unfolding out
  sound-out s t = sets.sound-remove_set _ t (sets.sound-add_set _ s sets.sound-empty)

  holds-out :
      (s t : sets.Set) (a : Addr)
      → IsPlain a
      → sets.holds (out sets s t) a ≡ sets.member s a && not (sets.member t a)
  unfolding out
  holds-out s t a h =
      rw (sets.holds-remove_set _ t a h, sets.holds-add_set _ s a h, sets.holds-empty a)
        (ground arith)

  -- ComputeNetworks makes the prefix list, and the list covers just the addresses that a source
  -- includes and nothing excludes: the specification is set difference on addresses.
  pub compute_networks-covers :
      (i : Inputs) (a : Addr)
      → IsInput i
      → IsPlain a
      → (ps : List Prefix) × (compute_networks sets i ≡ ok ps)
        × (covers ps a ≡ included i a && not (excluded i a))
  unfolding compute_networks
  compute_networks-covers i a v h =
      let s = sets.ip_set-sound (incl sets i) (sound-incl i v) in
      let t = sets.ip_set-sound (excl sets i) (sound-excl i v) in
      let r = sets.ip_set-sound (out sets s.0 t.0) (sound-out s.0 t.0) in
      (
        sets.prefixes r.0,
        rw (s.1, t.1, r.1),
        sets.prefixes-covers r.0 a h
            ∙ r.2 a h
            ∙ holds-out s.0 t.0 a h
            ∙ rw (s.2 a h, t.2 a h, holds-incl i a h, holds-excl i a h),
      )

  -- Every prefix of the list is a valid one.
  pub compute_networks_valid :
      (i : Inputs) (ps : List Prefix) → compute_networks sets i ≡ ok ps → Prefixes ps
  unfolding compute_networks
  compute_networks_valid i ps h =
      let (s, _, h) = bind_ok (sets.ip_set (incl sets i)) _ ps h in
      let (t, _, h) = bind_ok (sets.ip_set (excl sets i)) _ ps h in
      let (r, _, h) = bind_ok (sets.ip_set (out sets s t)) _ ps h in
      subst Prefixes (ok-injective _ ps h) (sets.prefixes_valid r)
