-- ===== src/Manifest/Networks/Listing.antt =====
-- An implementation of the interface to netipx by listing, which shows that its laws can hold.
use tailjump.Prelude.{
  All, All-append, ℕ, zero, suc, ◌^◌, ◌≡◌, refl, Bool, true, false, ◌&&◌, ◌||◌, not, List, [], ◌∷◌,
  ◌++◌, ok, ltb, ◌==◌, arith, ◌∙◌, if◌then◌else◌, Bool-cases, inl, inr, lt→ltb,
}
use tailjump.Net.{Addr, invalid, v4, v6, addr_eq}
use tailjump.Net.Prefix.{Prefix, contains, host_prefix}
use tailjump.Manifest.Networks.{is_prefix, IpSets, IsPlain, covers}
use tailjump.Prelude.{subst}
use tailjump.Prelude.{==_iff}

-- The host prefixes of the addresses below `k` that `make` makes and `s` has.
hosts : (ℕ → Addr) → (Addr → Bool) → ℕ → List Prefix
hosts make s zero = []
hosts make s (suc k) =
    let rest = hosts make s k in if s (make k) then host_prefix (make k) ∷ rest else rest

pub all_hosts : (Addr → Bool) → List Prefix
all_hosts s = hosts v4 s (2 ^ 32) ++ hosts (λ n. v6 n []) s (2 ^ 128)

covers-append : (ps qs : List Prefix) (a : Addr) → covers (ps ++ qs) a ≡ covers ps a || covers qs a
unfolding covers
covers-append [] qs a = refl
covers-append (p ∷ ps) qs a = ground (arith, covers-append ps qs a)

host_step :
    (b c d : Bool) (p : Prefix) (rest : List Prefix) (a : Addr)
    → contains p a ≡ c
    → covers rest a ≡ d
    → covers (if b then p ∷ rest else rest) a ≡ (b && c) || d
unfolding covers
host_step true c d p rest a h k = rw (h, k)
host_step false c d p rest a h k = k

host_of_v4 : (m n : ℕ) → contains (host_prefix (v4 m)) (v4 n) ≡ (n == m)
unfolding contains
host_of_v4 m n = ground arith

host_of_v6 : (m n : ℕ) → contains (host_prefix (v6 m [])) (v6 n []) ≡ (n == m)
unfolding contains
host_of_v6 m n = ground arith

other_v4 : (m n : ℕ) → contains (host_prefix (v4 m)) (v6 n []) ≡ false
unfolding contains
other_v4 m n = refl

other_v6 : (m n : ℕ) → contains (host_prefix (v6 m [])) (v4 n) ≡ false
unfolding contains
other_v6 m n = refl

picked : (s : ℕ → Bool) (k n : ℕ) → (s k && (n == k)) || (s n && ltb n k) ≡ s n && ltb n (suc k)
picked s k n = elim (Bool-cases (n == k)) [
  | inl e ↦
      subst (λ m. (s m && (n == k)) || (s n && ltb n k) ≡ s n && ltb n (suc k)) ((==_iff n k).0 e)
        (ground arith)
  | inr e ↦ ground arith
]

hosts_v4 : (s : Addr → Bool) (k n : ℕ) → covers (hosts v4 s k) (v4 n) ≡ s (v4 n) && ltb n k
unfolding hosts covers
hosts_v4 s zero n = ground arith
hosts_v4 s (suc k) n =
    host_step (s (v4 k)) _ _ _ _ _ (host_of_v4 k n) (hosts_v4 s k n) ∙ picked (λ m. s (v4 m)) k n

hosts_v6 :
    (s : Addr → Bool) (k n : ℕ)
    → covers (hosts (λ m. v6 m []) s k) (v6 n []) ≡ s (v6 n []) && ltb n k
unfolding hosts covers
hosts_v6 s zero n = ground arith
hosts_v6 s (suc k) n =
    host_step (s (v6 k [])) _ _ _ _ _ (host_of_v6 k n) (hosts_v6 s k n)
    ∙ picked (λ m. s (v6 m [])) k n

none_v4 : (s : Addr → Bool) (k n : ℕ) → covers (hosts v4 s k) (v6 n []) ≡ false
unfolding hosts covers
none_v4 s zero n = refl
none_v4 s (suc k) n = host_step (s (v4 k)) _ _ _ _ _ (other_v4 k n) (none_v4 s k n) ∙ ground arith

none_v6 : (s : Addr → Bool) (k n : ℕ) → covers (hosts (λ m. v6 m []) s k) (v4 n) ≡ false
unfolding hosts covers
none_v6 s zero n = refl
none_v6 s (suc k) n =
    host_step (s (v6 k [])) _ _ _ _ _ (other_v6 k n) (none_v6 s k n) ∙ ground arith

pub all_hosts-covers : (s : Addr → Bool) (a : Addr) → IsPlain a → covers (all_hosts s) a ≡ s a
unfolding all_hosts
all_hosts-covers s invalid h = ground arith
all_hosts-covers s (v4 n) h =
    covers-append (hosts v4 s (2 ^ 32)) _ (v4 n)
    ∙ rw (hosts_v4 s (2 ^ 32) n, none_v6 s (2 ^ 128) n, lt→ltb n (2 ^ 32) h.fits) (ground arith)
all_hosts-covers s (v6 n []) h =
    covers-append (hosts v4 s (2 ^ 32)) _ (v6 n [])
    ∙ rw (none_v4 s (2 ^ 32) n, hosts_v6 s (2 ^ 128) n, lt→ltb n (2 ^ 128) h.fits) (ground arith)
all_hosts-covers s (v6 n (c ∷ zone)) h = ground arith

host_valid :
    (b : Bool) (p : Prefix) (rest : List Prefix)
    → is_prefix p ≡ true
    → All (λ q. is_prefix q ≡ true) rest
    → All (λ q. is_prefix q ≡ true) (if b then p ∷ rest else rest)
host_valid true p rest h k = (h, k)
host_valid false p rest h k = k

hosts_valid :
    (make : ℕ → Addr) (s : Addr → Bool) (k : ℕ)
    → ((n : ℕ) → is_prefix (host_prefix (make n)) ≡ true)
    → All (λ q. is_prefix q ≡ true) (hosts make s k)
unfolding hosts
hosts_valid make s zero h = tt
hosts_valid make s (suc k) h = host_valid (s (make k)) _ _ (h k) (hosts_valid make s k h)

pub all_hosts_valid : (s : Addr → Bool) → All (λ q. is_prefix q ≡ true) (all_hosts s)
unfolding all_hosts
all_hosts_valid s =
    All-append _ (hosts v4 s (2 ^ 32)) _ (hosts_valid v4 s (2 ^ 32) (λ n. refl))
      (hosts_valid (λ n. v6 n []) s (2 ^ 128) (λ n. refl))

-- A builder and a set are the addresses in them, and no call fails.
abbrev pub by_listing : IpSets
by_listing = record {
  Builder = Addr → Bool;
  Set = Addr → Bool;
  empty = λ a. false;
  add_prefix = λ b p a. b a || contains p a;
  add = λ b x a. b a || addr_eq x a;
  add_set = λ b t a. b a || t a;
  remove_set = λ b t a. b a && not (t a);
  ip_set = λ b. ok b;
  prefixes = all_hosts;
  holds = λ b. b;
  member = λ t. t;
  sound = λ b. true;
  holds-empty = λ a. refl;
  holds-add_prefix = λ b p a h. refl;
  holds-add = λ b x a h. refl;
  holds-add_set = λ b t a h. refl;
  holds-remove_set = λ b t a h. refl;
  sound-empty = refl;
  sound-add_prefix = λ b p s h. refl;
  sound-add = λ b x s h. refl;
  sound-add_set = λ b t s. refl;
  sound-remove_set = λ b t s. refl;
  ip_set-sound = λ b s. (b, refl, λ a h. refl);
  prefixes-covers = all_hosts-covers;
  prefixes_valid = all_hosts_valid;
}
