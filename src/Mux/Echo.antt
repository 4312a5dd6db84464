-- ===== src/Mux/Echo.antt =====
-- The echo socket info of internal/mux/echo.go, and the statuses of internal/mux/mux.go.
use tailjump.Prelude.{
  ℕ, ◌≡◌, refl, Bool, true, ◌||◌, not, Outcome, ok, err, if◌then◌else◌, List, [], ◌∷◌, ◌++◌, ◌==◌,
  ◌⊎◌, inl, inr,
}
use tailjump.Text.{Text, str, text_eq, is_empty}
use tailjump.Text.Space.{is_space, IsWord}
use tailjump.Text.Split.{fields, fields_cons, fields_last}
use tailjump.Text.Trim.{replace}
use tailjump.Mux.Negotiate.{verb_icmp}
use tailjump.Prelude.{arith}

abbrev pub socket_raw : Text
socket_raw = str "raw"

abbrev pub socket_ping : Text
socket_ping = str "ping"

abbrev pub socket_none : Text
socket_none = str "none"

pub record EchoSocketInfo : Type 0 where
  pub socket : Text
  pub ping_group_range : Text

abbrev range_part : Text → Text
range_part range =
    if is_empty range then [] else str " (ping_group_range " ++ (replace b'-' b' ' range ++ str ")")

unfoldable pub to_string : EchoSocketInfo → Text
to_string i =
    if text_eq i.socket socket_raw
    then str "raw socket"
    else if text_eq i.socket socket_ping
    then str "ping socket" ++ range_part i.ping_group_range
    else str "none" ++ range_part i.ping_group_range

-- The line without its newline.
unfoldable pub info_line : EchoSocketInfo → Text
info_line i =
    if is_empty i.ping_group_range
    then verb_icmp ++ (b' ' ∷ i.socket)
    else verb_icmp ++ (b' ' ∷ (i.socket ++ (b' ' ∷ i.ping_group_range)))

pub data EchoError : Type 0 where
  unexpected_line unknown_socket : Text → EchoError

abbrev pub is_socket : Text → Bool
is_socket s = text_eq s socket_raw || (text_eq s socket_ping || text_eq s socket_none)

abbrev info_of : Text → Text → Text → Text → Outcome EchoError EchoSocketInfo
info_of line verb socket range =
    if not (text_eq verb verb_icmp)
    then err (unexpected_line line)
    else if is_socket socket
    then ok (record { socket = socket; ping_group_range = range })
    else err (unknown_socket socket)

abbrev info_of_fields : Text → List Text → Outcome EchoError EchoSocketInfo
info_of_fields line (verb ∷ socket ∷ []) = info_of line verb socket []
info_of_fields line (verb ∷ socket ∷ range ∷ []) = info_of line verb socket range
info_of_fields line [] = err (unexpected_line line)
info_of_fields line (a ∷ []) = err (unexpected_line line)
info_of_fields line (a ∷ b ∷ c ∷ d ∷ l) = err (unexpected_line line)

unfoldable pub parse_info : Text → Outcome EchoError EchoSocketInfo
parse_info line = info_of_fields line (fields line)

-- The errors of a failed dial: what errors.As and errors.Is tell of it.
pub record DialFailure : Type 0 where
  pub net_timeout : Bool
  pub refused : Bool
  pub net_unreachable : Bool
  pub host_unreachable : Bool
  pub deadline_exceeded : Bool

unfoldable pub status_for : DialFailure → ℕ
status_for e =
    if e.net_timeout
    then 3
    else if e.refused
    then 1
    else if e.net_unreachable || e.host_unreachable
    then 2
    else if e.deadline_exceeded
    then 3
    else 4

pub data DialError : Type 0 where
  err_refused err_unreachable err_dial_timeout err_dial_failed : DialError

unfoldable pub status_error : ℕ → DialError
status_error status =
    if status == 1
    then err_refused
    else if status == 2
    then err_unreachable
    else if status == 3
    then err_dial_timeout
    else err_dial_failed

-- The answer of ReadStatus to a status byte.
pub data EchoStatus : Type 0 where
  echo_ok echo_unsupported : EchoStatus
  echo_failed : DialError → EchoStatus

unfoldable pub echo_status : ℕ → EchoStatus
echo_status status =
    if status == 0
    then echo_ok
    else if status == 5
    then echo_unsupported
    else echo_failed (status_error status)

-- The idle time of a UDP flow: queries close faster.
unfoldable pub idle_for : ℕ → ℕ → ℕ → ℕ
idle_for port default dns = if port == 53 then dns else default

space : is_space b' ' ≡ true
unfolding is_space
space = refl

icmp-IsWord : IsWord verb_icmp
unfolding is_space
icmp-IsWord = (refl, (refl, (refl, (refl, tt))))

socket-IsWord :
    (s : Text)
    → (s ≡ socket_raw) ⊎ (s ≡ socket_ping) ⊎ (s ≡ socket_none)
    → IsWord s × (is_socket s ≡ true)
unfolding is_space text_eq
socket-IsWord s (inl e) = rw e ((refl, (refl, (refl, tt))), refl)
socket-IsWord s (inr (inl e)) = rw e ((refl, (refl, (refl, (refl, tt)))), refl)
socket-IsWord s (inr (inr e)) = rw e ((refl, (refl, (refl, (refl, tt)))), refl)

icmp_same : text_eq verb_icmp verb_icmp ≡ true
unfolding text_eq
icmp_same = refl

-- The helper's answer to the icmp verb is read back: a known socket, with no range or with one of a
-- single word.
pub parse_info-info_line :
    (socket range : Text)
    → (socket ≡ socket_raw) ⊎ (socket ≡ socket_ping) ⊎ (socket ≡ socket_none)
    → (range ≡ []) ⊎ IsWord range
    → parse_info (info_line (record { socket = socket; ping_group_range = range }))
      ≡ ok (record { socket = socket; ping_group_range = range })
unfolding parse_info info_line
parse_info-info_line socket [] h k =
    let (word, known) = socket-IsWord socket h in
    rw
      (
        fields_cons verb_icmp b' ' socket icmp-IsWord space,
        fields_last socket word,
        icmp_same,
        known,
      )
      refl
parse_info-info_line socket (c ∷ range) h (inl e) = cc
parse_info-info_line socket (c ∷ range) h (inr w) =
    let (word, known) = socket-IsWord socket h in
    rw
      (
        fields_cons verb_icmp b' ' (socket ++ (b' ' ∷ c ∷ range)) icmp-IsWord space,
        fields_cons socket b' ' (c ∷ range) word space,
        fields_last (c ∷ range) w,
        icmp_same,
        known,
      )
      refl

-- The client's error for a failed dial is the helper's.
pub status_error-status_for :
    (e : DialFailure)
    → status_error (status_for e) ≡ (
        if e.net_timeout
        then err_dial_timeout
        else if e.refused
        then err_refused
        else if e.net_unreachable || e.host_unreachable
        then err_unreachable
        else if e.deadline_exceeded
        then err_dial_timeout
        else err_dial_failed)
unfolding status_error status_for
status_error-status_for e = ground arith
