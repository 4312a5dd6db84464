-- ===== src/Manifest/Networks.antt =====
-- internal/manifest/networks.go, over the interface of go4.org/netipx that it calls.
pub mod Covered
pub mod Listing
mod Tests
use tailjump.Prelude.{
  All, Bool, true, false, ◌&&◌, ◌||◌, not, List, [], ◌∷◌, leb, ◌≡◌, Outcome, ok, ◌>>=◌,
}
use tailjump.Text.{Text}
use tailjump.Net.{Addr, v4, v6, is_set, addr_eq, IsAddr}
use tailjump.Net.Prefix.{Prefix, contains, has_zone, bit_len}
use tailjump.Prelude.{◌≡◌}
use tailjump.Prelude.{Bool, List, Outcome, true}
use tailjump.Prelude.{false, ◌&&◌, ◌∷◌}
use tailjump.Prelude.{[], not, ◌||◌}

-- An address that a packet can have.
pub record IsPlain (a : Addr) : Type 0 where
  pub set : is_set a ≡ true
  pub zoneless : has_zone a ≡ false
  pub fits : IsAddr a

-- `Prefix.IsValid`: a netip.Prefix has no zone.
abbrev pub is_prefix : Prefix → Bool
is_prefix p = is_set p.addr && not (has_zone p.addr) && leb p.bits (bit_len p.addr)

-- `Addr.IsValid`, without a zone.
abbrev pub is_plain : Addr → Bool
is_plain a = is_set a && not (has_zone a)

unfoldable pub covers : List Prefix → Addr → Bool
covers [] a = false
covers (p ∷ ps) a = contains p a || covers ps a

unfoldable pub listed : List Addr → Addr → Bool
listed [] a = false
listed (b ∷ bs) a = addr_eq b a || listed bs a

-- `netipx.IPSetBuilder` and `netipx.IPSet`. A builder holds the addresses that its calls left in
-- it, and it keeps the errors of its calls for IPSet: a builder without one is sound.
pub record IpSets : Type 1 where
  pub Builder : Type 0
  pub Set : Type 0
  pub empty : Builder
  pub add_prefix : Builder → Prefix → Builder
  pub add : Builder → Addr → Builder
  pub add_set : Builder → Set → Builder
  pub remove_set : Builder → Set → Builder
  pub ip_set : Builder → Outcome Text Set
  pub prefixes : Set → List Prefix
  pub holds : Builder → Addr → Bool
  pub member : Set → Addr → Bool
  pub sound : Builder → Bool
  pub holds-empty : (a : Addr) → holds empty a ≡ false
  pub holds-add_prefix :
      (b : Builder) (p : Prefix) (a : Addr)
      → IsPlain a
      → holds (add_prefix b p) a ≡ holds b a || contains p a
  pub holds-add :
      (b : Builder) (x a : Addr) → IsPlain a → holds (add b x) a ≡ holds b a || addr_eq x a
  pub holds-add_set :
      (b : Builder) (t : Set) (a : Addr)
      → IsPlain a
      → holds (add_set b t) a ≡ holds b a || member t a
  pub holds-remove_set :
      (b : Builder) (t : Set) (a : Addr)
      → IsPlain a
      → holds (remove_set b t) a ≡ holds b a && not (member t a)
  pub sound-empty : sound empty ≡ true
  pub sound-add_prefix :
      (b : Builder) (p : Prefix)
      → sound b ≡ true
      → is_prefix p ≡ true
      → sound (add_prefix b p) ≡ true
  pub sound-add :
      (b : Builder) (x : Addr) → sound b ≡ true → is_plain x ≡ true → sound (add b x) ≡ true
  pub sound-add_set : (b : Builder) (t : Set) → sound b ≡ true → sound (add_set b t) ≡ true
  pub sound-remove_set : (b : Builder) (t : Set) → sound b ≡ true → sound (remove_set b t) ≡ true
  pub ip_set-sound :
      (b : Builder)
      → sound b ≡ true
      → (t : Set) × (ip_set b ≡ ok t) × ((a : Addr) → IsPlain a → member t a ≡ holds b a)
  pub prefixes-covers : (t : Set) (a : Addr) → IsPlain a → covers (prefixes t) a ≡ member t a
  pub prefixes_valid : (t : Set) → All (λ p. is_prefix p ≡ true) (prefixes t)

-- The ranges that a session never routes.
abbrev pub reserved : List Prefix
reserved =
    record { addr = v4 0x64400000; bits = 10 }
    ∷ record { addr = v6 0xfd7a115ca1e000000000000000000000 []; bits = 48 }
    ∷ record { addr = v4 0; bits = 8 }
    ∷ record { addr = v4 0x7f000000; bits = 8 }
    ∷ record { addr = v4 0xa9fe0000; bits = 16 }
    ∷ record { addr = v4 0xe0000000; bits = 3 }
    ∷ record { addr = v6 1 []; bits = 128 }
    ∷ record { addr = v6 0xfe800000000000000000000000000000 []; bits = 10 }
    ∷ record { addr = v6 0xff000000000000000000000000000000 []; bits = 8 }
    ∷ []

pub record Inputs : Type 0 where
  pub manifest_networks : List Prefix
  pub manifest_exclude : List Prefix
  pub discovery_link_routes : List Prefix
  pub discovery_cloud : List Prefix
  pub remote_addrs : List Addr
  pub client_connected : List Prefix
  pub local_exclude : List Prefix

module _ (sets : IpSets) where
  -- A loop over AddPrefix, and one over Add.
  unfoldable pub add_prefixes : sets.Builder → List Prefix → sets.Builder
  add_prefixes b [] = b
  add_prefixes b (p ∷ ps) = add_prefixes (sets.add_prefix b p) ps

  unfoldable pub add_addrs : sets.Builder → List Addr → sets.Builder
  add_addrs b [] = b
  add_addrs b (a ∷ l) = add_addrs (sets.add b a) l

  -- What is included, what is excluded, and what is left.
  unfoldable pub incl : Inputs → sets.Builder
  incl i =
      let b = add_prefixes sets.empty i.manifest_networks in
      let b = add_prefixes b i.discovery_link_routes in add_prefixes b i.discovery_cloud

  unfoldable pub excl : Inputs → sets.Builder
  excl i =
      let b = add_prefixes sets.empty i.manifest_exclude in
      let b = add_prefixes b i.client_connected in
      let b = add_prefixes b i.local_exclude in
      let b = add_prefixes b reserved in add_addrs b i.remote_addrs

  unfoldable pub out : sets.Set → sets.Set → sets.Builder
  out incl_set excl_set = sets.remove_set (sets.add_set sets.empty incl_set) excl_set

  unfoldable pub compute_networks : Inputs → Outcome Text (List Prefix)
  compute_networks i = sets.ip_set (incl i) >>= λ incl_set. sets.ip_set (excl i) >>= λ excl_set.
      sets.ip_set (out incl_set excl_set) >>= λ final_set. ok (sets.prefixes final_set)
