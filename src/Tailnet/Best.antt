-- ===== src/Tailnet/Best.antt =====
-- The peer that the resolvers choose, and when they refuse.
use tailjump.Prelude.{
  ℕ, ◌<◌, ◌≡◌, refl, sym, Bool, true, false, List, [], ◌∷◌, arith, All, inl, inr,
}
use tailjump.Prelude.{some, ok, err, ◌⊎◌, if◌then◌else◌, map, Option-cases}
use tailjump.Text.{Text}
use tailjump.Tailnet.{Peer, HostMatch, ResolveError, no_host, newer}
use tailjump.Tailnet.{match_hostname, matches, online_matches, better_host_match}
use tailjump.Tailnet.{resolve_hostname, best_host}
use tailjump.Tailnet.Order.{best_of, IsRanking, IsBest, best_of-IsBest}
use mathlib.Core.List.{Memᴰ}
use tailjump.Prelude.{subst}

pub newer-IsRanking : IsRanking newer
newer-IsRanking = record {
  irrefl = λ a. ground arith;
  trans = λ a b c h k. ground arith;
  beats = λ a b c h k. ground arith;
}

better-IsRanking : IsRanking better_host_match
unfolding better_host_match
better-IsRanking = record {
  irrefl = λ a. ground arith;
  trans = λ a b c h k. ground arith;
  beats = λ a b c h k. ground arith;
}

pub All-mem {ℓ κ} : {A : Type ℓ} (P : A → Type κ) {x : A} (xs : List A) → All P xs → Memᴰ x xs → P x
All-mem P [] h m = elim m [ ]
All-mem P (y ∷ xs) h (Memᴰ.head e) = subst P (sym e) h.0
All-mem P (y ∷ xs) h (Memᴰ.tail m) = All-mem P xs h.1 m

pub not_in_nil {ℓ} : {A : Type ℓ} {x : A} → ¬ Memᴰ x []
not_in_nil m = elim m [ ]

-- One step of a filter, read in both directions.
pub kept {ℓ} :
    {A : Type ℓ} {m c : A} {rest : List A} (b : Bool)
    → Memᴰ m (if b then c ∷ rest else rest)
    → (m ≡ c) × (b ≡ true) ⊎ Memᴰ m rest
kept true (Memᴰ.head e) = inl (e, refl)
kept true (Memᴰ.tail q) = inr q
kept false q = inr q

pub keep_head {ℓ} :
    {A : Type ℓ} {m c : A} (rest : List A) (b : Bool)
    → m ≡ c
    → b ≡ true
    → Memᴰ m (if b then c ∷ rest else rest)
keep_head rest true e h = Memᴰ.head e
keep_head rest false e h = cc

pub keep_tail {ℓ} :
    {A : Type ℓ} {m : A} (c : A) (rest : List A) (b : Bool)
    → Memᴰ m rest
    → Memᴰ m (if b then c ∷ rest else rest)
keep_tail c rest true q = Memᴰ.tail q
keep_tail c rest false q = q

-- An online peer of the list whose hostname matches as `m` says.
abbrev pub Found : Text → HostMatch → List Peer → Type 0
Found ref m ps =
    Memᴰ m.peer ps
    × (m.peer.online ≡ true)
    × (match_hostname m.peer.host_name ref ≡ some (m.exact, m.suffix))

Found-here :
    (ref : Text) (m : HostMatch) (p : Peer) (ps : List Peer) (e : Bool) (n : ℕ)
    → match_hostname p.host_name ref ≡ some (e, n)
    → m ≡ record { peer = p; exact = e; suffix = n }
    → p.online ≡ true
    → Found ref m (p ∷ ps)
Found-here ref m p ps e n h q o = subst (λ c. Found ref c (p ∷ ps)) (sym q) (Memᴰ.head refl, o, h)

matches-Found :
    (ref : Text) (m : HostMatch) (ps : List Peer)
    → Memᴰ m (online_matches (matches ref ps))
    → Found ref m ps
matches-Found ref m [] q = elim q [ ]
matches-Found ref m (p ∷ ps) q = elim (Option-cases (match_hostname p.host_name ref)) [
  | inl e ↦ later (matches-Found ref m ps (rw e at q))
  | inr ((x, n), e) ↦ elim (kept p.online (rw e at q)) [
    | inl (same, o) ↦ Found-here ref m p ps x n e same o
    | inr r ↦ later (matches-Found ref m ps r)
  ]
]
  where
    later : Found ref m ps → Found ref m (p ∷ ps)
    later f = (Memᴰ.tail f.0, f.1, f.2)

Found-matches :
    (ref : Text) (m : HostMatch) (ps : List Peer)
    → Found ref m ps
    → Memᴰ m (online_matches (matches ref ps))
Found-matches ref m [] (q, o, h) = elim q [ ]
Found-matches ref m (p ∷ ps) (Memᴰ.head e, o, h) =
    let here : match_hostname p.host_name ref ≡ some (m.exact, m.suffix) =
      subst (λ (c : Peer). match_hostname c.host_name ref ≡ some (m.exact, m.suffix)) e h in
    let same : m ≡ record { peer = p; exact = m.exact; suffix = m.suffix } =
      λ i. record { peer = e i; exact = m.exact; suffix = m.suffix } in
    rw here (
      keep_head (online_matches (matches ref ps)) p.online same
        (subst (λ (c : Peer). c.online ≡ true) e o))
Found-matches ref m (p ∷ ps) (Memᴰ.tail q, o, h) =
    let rest = Found-matches ref m ps (q, o, h) in
    elim (Option-cases (match_hostname p.host_name ref)) [
      | inl e ↦ rw e rest
      | inr ((x, n), e) ↦ rw e (keep_tail _ (online_matches (matches ref ps)) p.online rest)
    ]

best_host_cases :
    (ref : Text) (all online : List HostMatch) (p : Peer)
    → best_host ref all online ≡ ok p
    → (m : HostMatch) × (m.peer ≡ p) × IsBest better_host_match m online
best_host_cases ref all [] p h = cc
best_host_cases ref all (m ∷ ms) p h =
    (best_of better_host_match m ms, cc h, best_of-IsBest better_host_match better-IsRanking m ms)

-- How one match beats another: it is exact and the other is not; both have a suffix and its own is
-- higher; or they are equal in this, and its peer had the later handshake.
pub data Beats (a b : HostMatch) : Type 0 where
  by_exact : a.exact ≡ true → b.exact ≡ false → Beats a b
  by_suffix : a.exact ≡ false → b.exact ≡ false → b.suffix < a.suffix → Beats a b
  by_handshake :
      a.exact ≡ b.exact
      → (a.exact ≡ true) ⊎ (a.suffix ≡ b.suffix)
      → b.peer.last_handshake < a.peer.last_handshake
      → Beats a b

Beats-better_host_match : (a b : HostMatch) → Beats a b → better_host_match a b ≡ true
unfolding better_host_match
Beats-better_host_match a b (by_exact h k) = rw (h, k) refl
Beats-better_host_match a b (by_suffix h k l) = rw (h, k) (ground (arith, l))
Beats-better_host_match a b (by_handshake h (inl k) l) = rw (sym h, k) (ground (arith, l))
Beats-better_host_match a b (by_handshake h (inr k) l) = ground (arith, h, k, l)

-- If the hostname resolver returns a peer, it is an online peer of the list whose hostname matches
-- the reference, and no online peer that matches beats it: an exact match beats one with a suffix, a
-- higher suffix a lower one, and a later handshake decides between equals.
pub resolve_hostname_best :
    (peers : List Peer) (ref : Text) (p : Peer)
    → resolve_hostname peers ref ≡ ok p
    → (m : HostMatch) × (m.peer ≡ p)
      × Found ref m peers
      × ((c : HostMatch) → Found ref c peers → ¬ Beats c m)
unfolding resolve_hostname
resolve_hostname_best peers ref p h =
    let online = online_matches (matches ref peers) in
    let (m, same, (mem, none_better)) = best_host_cases ref (matches ref peers) online p h in
    (
      m,
      same,
      matches-Found ref m peers mem,
      λ c f b. clash (Beats-better_host_match c m b) (
          All-mem (λ x. better_host_match x m ≡ false) online none_better
            (Found-matches ref c peers f)),
    )
  where
    clash : {b : Bool} → b ≡ true → b ≡ false → ⊥
    clash h k = cc

best_host_error :
    (ref : Text) (all online : List HostMatch) (e : ResolveError)
    → best_host ref all online ≡ err e
    → (online ≡ []) × (e ≡ no_host ref (map (λ m. m.peer.host_name) all))
best_host_error ref all [] e h = (refl, cc h)
best_host_error ref all (m ∷ ms) e h = cc

-- If it refuses, no online peer of the list matches, and the error has the reference and the
-- hostnames of the peers that match it, which are all offline.
pub resolve_hostname_error :
    (peers : List Peer) (ref : Text) (e : ResolveError)
    → resolve_hostname peers ref ≡ err e
    → (e ≡ no_host ref (map (λ m. m.peer.host_name) (matches ref peers)))
      × ((c : HostMatch) → ¬ Found ref c peers)
unfolding resolve_hostname
resolve_hostname_error peers ref e h =
    let online = online_matches (matches ref peers) in
    let (empty, names) = best_host_error ref (matches ref peers) online e h in
    (names, λ c f. not_in_nil (subst (λ l. Memᴰ c l) empty (Found-matches ref c peers f)))
