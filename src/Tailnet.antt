-- ===== src/Tailnet.antt =====
-- internal/tailnet: a peer of the tailnet (tailnet.go) and the choice of one (resolve.go).
-- A time is the number of nanoseconds since a fixed instant.
pub mod Order
pub mod Hostname
pub mod Best
pub mod Tags
mod Tests
use tailjump.Prelude.{ℕ, ◌==◌, Bool, true, false, ◌&&◌, ◌||◌, not, List, [], ◌∷◌, ◌++◌, map}
use tailjump.Prelude.{Option, none, some, Outcome, ok, err, ltb, if◌then◌else◌}
use tailjump.Text.{Text, str, text_eq, cut_prefix}
use tailjump.Text.Decimal.{NumError, decimal}
use tailjump.Text.Integer.{atoi}
use tailjump.Net.{Addr, is4}
use Order.{best_of}

pub record Peer : Type 0 where
  pub host_name : Text
  pub tags : List Text
  pub online : Bool
  pub tailscale_ips : List Addr
  pub active : Bool
  pub cur_addr : Text
  pub relay : Text
  pub last_handshake : ℕ

unfoldable pub has_tag : List Text → Text → Bool
has_tag [] tag = false
has_tag (t ∷ tags) tag = text_eq t tag || has_tag tags tag

-- The loop of IPv4 over the addresses; the error names the peer.
unfoldable pub first_v4 : Text → List Addr → Outcome Text Addr
first_v4 name [] = err name
first_v4 name (a ∷ rest) = if is4 a then ok a else first_v4 name rest

unfoldable pub ipv4 : Peer → Outcome Text Addr
unfolding first_v4
ipv4 p = first_v4 p.host_name p.tailscale_ips

unfoldable pub is_tag_ref : Text → Bool
is_tag_ref ref = (cut_prefix ref (str "tag:")).1

-- `a.After(b)`.
abbrev pub after : ℕ → ℕ → Bool
after a b = ltb b a

-- No online peer matches: the reference, and the names of the offline peers that match it.
pub data ResolveError : Type 0 where
  no_tag no_host : Text → List Text → ResolveError

abbrev pub tagged : Text → List Peer → List Peer
tagged tag [] = []
tagged tag (p ∷ ps) = let rest = tagged tag ps in if has_tag p.tags tag then p ∷ rest else rest

abbrev pub online_peers : List Peer → List Peer
online_peers [] = []
online_peers (p ∷ ps) = let rest = online_peers ps in if p.online then p ∷ rest else rest

abbrev pub newer : Peer → Peer → Bool
newer p q = after p.last_handshake q.last_handshake

abbrev pub best_tag : Text → List Peer → List Peer → Outcome ResolveError Peer
best_tag tag all [] = err (no_tag tag (map (λ p. p.host_name) all))
best_tag tag all (p ∷ ps) = ok (best_of newer p ps)

unfoldable pub resolve_tag : List Peer → Text → Outcome ResolveError Peer
resolve_tag peers tag = let all = tagged tag peers in best_tag tag all (online_peers all)

-- A peer whose hostname matches a reference, exactly or with a collision suffix.
pub record HostMatch : Type 0 where
  pub peer : Peer
  pub exact : Bool
  pub suffix : ℕ

-- What follows the reference and a hyphen: a number that prints as it stands.
abbrev pub suffix_of : Text → Outcome NumError (Bool × ℕ) → Option (Bool × ℕ)
suffix_of rest (err e) = none
suffix_of rest (ok (true, n)) = none
suffix_of rest (ok (false, n)) = if text_eq (decimal n) rest then some (false, n) else none

-- Whether the match is exact, and the suffix.
unfoldable pub match_hostname : Text → Text → Option (Bool × ℕ)
match_hostname host ref =
    let cut = cut_prefix host (ref ++ str "-") in
    if text_eq host ref
    then some (true, 0)
    else if cut.1
    then suffix_of cut.0 (atoi cut.0)
    else none

abbrev pub add_match : Peer → Option (Bool × ℕ) → List HostMatch → List HostMatch
add_match p none rest = rest
add_match p (some (exact, suffix)) rest = record { peer = p; exact = exact; suffix = suffix } ∷ rest

abbrev pub matches : Text → List Peer → List HostMatch
matches ref [] = []
matches ref (p ∷ ps) = add_match p (match_hostname p.host_name ref) (matches ref ps)

abbrev pub online_matches : List HostMatch → List HostMatch
online_matches [] = []
online_matches (m ∷ ms) = let rest = online_matches ms in if m.peer.online then m ∷ rest else rest

abbrev bool_eq : Bool → Bool → Bool
bool_eq true b = b
bool_eq false b = not b

unfoldable pub better_host_match : HostMatch → HostMatch → Bool
better_host_match a b =
    if not (bool_eq a.exact b.exact)
    then a.exact
    else if not a.exact && not (a.suffix == b.suffix)
    then ltb b.suffix a.suffix
    else after a.peer.last_handshake b.peer.last_handshake

abbrev pub best_host : Text → List HostMatch → List HostMatch → Outcome ResolveError Peer
best_host ref all [] = err (no_host ref (map (λ m. m.peer.host_name) all))
best_host ref all (m ∷ ms) = ok ((best_of better_host_match m ms).peer)

unfoldable pub resolve_hostname : List Peer → Text → Outcome ResolveError Peer
resolve_hostname peers ref = let all = matches ref peers in best_host ref all (online_matches all)

unfoldable pub resolve : List Peer → Text → Outcome ResolveError Peer
resolve peers ref = if is_tag_ref ref then resolve_tag peers ref else resolve_hostname peers ref
