-- ===== src/Tailnet/Tests.antt =====
-- Resolutions on a small tailnet, and the theorems at concrete inputs.
use tailjump.Prelude.{ℕ, ◌≡◌, refl, true, false, List, [], ◌∷◌, ok, err, some, none, Bool}
use tailjump.Text.{Text, str, text_eq}
use tailjump.Text.Decimal.{decimal, parse_uint}
use tailjump.Text.Integer.{atoi}
use tailjump.Tailnet.{Peer, HostMatch, no_host, no_tag, has_tag, match_hostname, better_host_match}
use tailjump.Tailnet.{resolve, resolve_tag, resolve_hostname, is_tag_ref}
use tailjump.Tailnet.Order.{best_of}
use tailjump.Tailnet.Best.{Found, Beats, resolve_hostname_best}

abbrev node : Text → Bool → ℕ → Peer
node name online seen = record {
  host_name = name;
  tags = str "tag:gw" ∷ [];
  online = online;
  tailscale_ips = [];
  active = false;
  cur_addr = [];
  relay = [];
  last_handshake = seen;
}

abbrev peers : List Peer
peers =
    node (str "gw") false 9
    ∷ node (str "gw-1") true 5
    ∷ node (str "gw-10") true 3
    ∷ node (str "gw-02") true 7
    ∷ []

-- The exact match is offline, the highest suffix wins, and a leading zero is no suffix.
highest_suffix : resolve peers (str "gw") ≡ ok (node (str "gw-10") true 3)
unfolding resolve is_tag_ref resolve_hostname match_hostname text_eq atoi parse_uint decimal best_of
    better_host_match
highest_suffix = refl

last_handshake : resolve peers (str "tag:gw") ≡ ok (node (str "gw-02") true 7)
unfolding resolve is_tag_ref resolve_tag has_tag text_eq best_of
last_handshake = refl

abbrev offline : List Peer
offline = node (str "gw") false 9 ∷ []

offline_host : resolve_hostname offline (str "gw") ≡ err (no_host (str "gw") (str "gw" ∷ []))
unfolding resolve_hostname match_hostname text_eq
offline_host = refl

offline_tag : resolve_tag offline (str "tag:gw") ≡ err (no_tag (str "tag:gw") (str "gw" ∷ []))
unfolding resolve_tag has_tag text_eq
offline_tag = refl

online_host : resolve_hostname peers (str "gw") ≡ ok (node (str "gw-10") true 3)
unfolding resolve_hostname match_hostname text_eq atoi parse_uint decimal best_of better_host_match
online_host = refl

online_tag : resolve_tag peers (str "tag:gw") ≡ ok (node (str "gw-02") true 7)
unfolding resolve_tag has_tag text_eq best_of
online_tag = refl

resolve_hostname_best_example :
    (m : HostMatch) × (m.peer ≡ node (str "gw-10") true 3)
    × Found (str "gw") m peers
    × ((c : HostMatch) → Found (str "gw") c peers → ¬ Beats c m)
resolve_hostname_best_example =
    resolve_hostname_best peers (str "gw") (node (str "gw-10") true 3) online_host

suffix_ten : match_hostname (str "gw-10") (str "gw") ≡ some (false, 10)
unfolding match_hostname text_eq atoi parse_uint decimal
suffix_ten = refl

leading_zero : match_hostname (str "gw-01") (str "gw") ≡ none
unfolding match_hostname text_eq atoi parse_uint decimal
leading_zero = refl
