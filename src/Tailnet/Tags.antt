-- ===== src/Tailnet/Tags.antt =====
-- The peer that the tag resolver chooses.
use tailjump.Prelude.{◌≡◌, refl, sym, true, false, List, [], ◌∷◌, ok, err, map, inl, inr}
use tailjump.Text.{Text}
use tailjump.Tailnet.{
  Peer, ResolveError, no_tag, has_tag, tagged, online_peers, newer, best_tag, resolve_tag,
}
use tailjump.Tailnet.Order.{IsBest, best_of-IsBest}
use tailjump.Tailnet.Best.{newer-IsRanking, kept, keep_head, keep_tail, All-mem, not_in_nil}
use mathlib.Core.List.{Memᴰ}
use tailjump.Prelude.{subst}

-- An online peer of the list that carries the tag.
abbrev pub Carries : Text → Peer → List Peer → Type 0
Carries tag p ps = Memᴰ p ps × (p.online ≡ true) × (has_tag p.tags tag ≡ true)

tagged_sound :
    (tag : Text) (p : Peer) (ps : List Peer)
    → Memᴰ p (tagged tag ps)
    → Memᴰ p ps × (has_tag p.tags tag ≡ true)
tagged_sound tag p [] q = elim q [ ]
tagged_sound tag p (x ∷ ps) q = elim (kept (has_tag x.tags tag) q) [
  | inl (e, h) ↦ (Memᴰ.head e, subst (λ (y : Peer). has_tag y.tags tag ≡ true) (sym e) h)
  | inr r ↦ let (m, h) = tagged_sound tag p ps r in (Memᴰ.tail m, h)
]

tagged_complete :
    (tag : Text) (p : Peer) (ps : List Peer)
    → Memᴰ p ps
    → has_tag p.tags tag ≡ true
    → Memᴰ p (tagged tag ps)
tagged_complete tag p [] q h = elim q [ ]
tagged_complete tag p (x ∷ ps) (Memᴰ.head e) h =
    keep_head (tagged tag ps) (has_tag x.tags tag) e
      (subst (λ (y : Peer). has_tag y.tags tag ≡ true) e h)
tagged_complete tag p (x ∷ ps) (Memᴰ.tail q) h =
    keep_tail x (tagged tag ps) (has_tag x.tags tag) (tagged_complete tag p ps q h)

online_sound :
    (p : Peer) (ps : List Peer) → Memᴰ p (online_peers ps) → Memᴰ p ps × (p.online ≡ true)
online_sound p [] q = elim q [ ]
online_sound p (x ∷ ps) q = elim (kept x.online q) [
  | inl (e, h) ↦ (Memᴰ.head e, subst (λ (y : Peer). y.online ≡ true) (sym e) h)
  | inr r ↦ let (m, h) = online_sound p ps r in (Memᴰ.tail m, h)
]

online_complete :
    (p : Peer) (ps : List Peer) → Memᴰ p ps → p.online ≡ true → Memᴰ p (online_peers ps)
online_complete p [] q h = elim q [ ]
online_complete p (x ∷ ps) (Memᴰ.head e) h =
    keep_head (online_peers ps) x.online e (subst (λ (y : Peer). y.online ≡ true) e h)
online_complete p (x ∷ ps) (Memᴰ.tail q) h =
    keep_tail x (online_peers ps) x.online (online_complete p ps q h)

Carries-online :
    (tag : Text) (p : Peer) (ps : List Peer)
    → Carries tag p ps
    → Memᴰ p (online_peers (tagged tag ps))
Carries-online tag p ps (m, o, h) =
    online_complete p (tagged tag ps) (tagged_complete tag p ps m h) o

best_tag_cases :
    (tag : Text) (all online : List Peer) (p : Peer)
    → best_tag tag all online ≡ ok p
    → IsBest newer p online
best_tag_cases tag all [] p h = cc
best_tag_cases tag all (x ∷ xs) p h =
    subst (λ r. IsBest newer r (x ∷ xs)) (cc h) (best_of-IsBest newer newer-IsRanking x xs)

best_tag_error :
    (tag : Text) (all online : List Peer) (e : ResolveError)
    → best_tag tag all online ≡ err e
    → (online ≡ []) × (e ≡ no_tag tag (map (λ p. p.host_name) all))
best_tag_error tag all [] e h = (refl, cc h)
best_tag_error tag all (x ∷ xs) e h = cc

-- If the tag resolver returns a peer, it is an online peer of the list that carries the tag, and no
-- online peer with the tag has a later handshake.
pub resolve_tag_best :
    (peers : List Peer) (tag : Text) (p : Peer)
    → resolve_tag peers tag ≡ ok p
    → Carries tag p peers × ((c : Peer) → Carries tag c peers → newer c p ≡ false)
unfolding resolve_tag
resolve_tag_best peers tag p h =
    let online = online_peers (tagged tag peers) in
    let (mem, none_newer) = best_tag_cases tag (tagged tag peers) online p h in
    let (in_tagged, o) = online_sound p (tagged tag peers) mem in
    let (in_peers, t) = tagged_sound tag p peers in_tagged in
    (
      (in_peers, o, t),
      λ c f. All-mem (λ x. newer x p ≡ false) online none_newer (Carries-online tag c peers f),
    )

-- If it refuses, no online peer of the list carries the tag, and the error has the tag and the
-- hostnames of the peers that carry it, which are all offline.
pub resolve_tag_error :
    (peers : List Peer) (tag : Text) (e : ResolveError)
    → resolve_tag peers tag ≡ err e
    → (e ≡ no_tag tag (map (λ p. p.host_name) (tagged tag peers)))
      × ((c : Peer) → ¬ Carries tag c peers)
unfolding resolve_tag
resolve_tag_error peers tag e h =
    let online = online_peers (tagged tag peers) in
    let (empty, names) = best_tag_error tag (tagged tag peers) online e h in
    (names, λ c f. not_in_nil (subst (λ l. Memᴰ c l) empty (Carries-online tag c peers f)))
