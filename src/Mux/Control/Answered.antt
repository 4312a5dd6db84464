-- ===== src/Mux/Control/Answered.antt =====
-- What the client learns from the helper over the control stream, and the port that the helper binds.
use tailjump.Prelude.{
  ℕ, zero, suc, ◌+◌, ◌-◌, ◌^◌, ◌<◌, ◌≡◌, refl, sym, ◌∙◌, subst, true, false, Option, none, some,
  Outcome, ok, err, List, arith, Option-cases, inl, inr, ok-injective, wrap_ok,
}
use tailjump.Text.{Text, str, text_eq}
use tailjump.Text.Space.{trim_space}
use tailjump.Text.Trim.{replace}
use tailjump.Prelude.{◌≤◌, ◌==◌, ap, Bool-cases, leb, wrap, if◌then◌else◌, [], ◌∷◌, ◌++◌}
use tailjump.Text.Space.{is_space, IsWord}
use tailjump.Text.Decimal.{decimal}
use tailjump.Transport.Controllers
use tailjump.Mux.Stream.{drop_cr}
use tailjump.Mux.Negotiate.Lines.{fingerprint-IsWord}
use tailjump.Mux.Negotiate.{request_line, reply_line, unavailable_line, verb_unavailable}
use tailjump.Mux.Control.{
  Wire, NegotiateError, not_read, reply_too_long, refused, parsed_reply, read_reply, read_line,
  served, negotiated, byte_length, max_line_len,
}
use tailjump.Net.{Addr, as_slice}
use tailjump.Transport.Ports
use tailjump.Transport.Ports.{PortRange}
use tailjump.Mux.Negotiate.{
  QuicRequest, QuicReply, ReplyError, check_fingerprint, unavailable, parse_quic_reply, verb_quit,
  verb_quic,
}
use tailjump.Mux.Negotiate.Lines.{
  IsRequest, fields-request_line, parse_quic_request-fields, parse_quic_reply-reply_line,
  parse_quic_reply-unavailable_line,
}
use tailjump.Mux.Control.{
  Sockets, Server, Listener, bind_from, bind_in_range, start_quic, start_on, certified, listen_on,
  listening, started_line, answer_quic, control_line, negotiate_quic,
}
use tailjump.Prelude.{le→leb}

-- The ports from `p` on, `n` of them, none of which binds.
abbrev pub Busy : (ℕ → Option Text) → ℕ → ℕ → Type 0
Busy bind zero p = Unit
Busy bind (suc n) p = ((e : Text) × (bind p ≡ some e)) × Busy bind n (p + 1)

-- bindInRange took `q` out of `n` ports from `p`: it binds, and no port before it does.
pub record IsFirst (bind : ℕ → Option Text) (n p q : ℕ) : Type 0 where
  pub before : ℕ
  pub place : p + before ≡ q
  pub inside : before < n
  pub free : bind q ≡ none
  pub busy : Busy bind before p

bind_from-IsFirst :
    (bind : ℕ → Option Text) (n p q : ℕ) (last : Text)
    → bind_from bind n p last ≡ ok q
    → IsFirst bind n p q
bind_from-IsFirst bind zero p q last h = unfold bind_from in cc
bind_from-IsFirst bind (suc n) p q last h = elim (Option-cases (bind p)) [
  | inl e ↦
      let same = ok-injective p q (sym (bound_free p e) ∙ h) in
      record {
        before = 0;
        place = omega arith;
        inside = omega arith;
        free = subst (λ k. bind k ≡ none) same e;
        busy = tt;
      }
  | inr (e, taken) ↦
      let rest = bind_from-IsFirst bind n (p + 1) q e (sym (bound_busy p e taken) ∙ h) in
      record {
        before = suc rest.before;
        place = omega (arith, rest.place);
        inside = omega (arith, rest.inside);
        free = rest.free;
        busy = ((e, taken), rest.busy);
      }
]
  where
    bound_free : (p : ℕ) → bind p ≡ none → bind_from bind (suc n) p last ≡ ok p
    bound_free p e = unfold bind_from in rw e refl

    bound_busy :
        (p : ℕ) (e : Text)
        → bind p ≡ some e
        → bind_from bind (suc n) p last ≡ bind_from bind n (p + 1) e
    bound_busy p e h = unfold bind_from in rw h refl

-- The port that bindInRange answers is in the range and was free, and every port of the range below
-- it was not.
pub bind_in_range-IsFirst :
    (s : Sockets) (ip : List ℕ) (ports : PortRange) (q : ℕ)
    → bind_in_range s ip ports ≡ ok q
    → IsFirst (s.bind ip) (ports.last + 1 - ports.first) ports.first q
unfolding bind_in_range
bind_in_range-IsFirst s ip ports q h =
    bind_from-IsFirst (s.bind ip) (ports.last + 1 - ports.first) ports.first q (str "<nil>") (
      wrap_ok _ (bind_from (s.bind ip) (ports.last + 1 - ports.first) ports.first (str "<nil>")) q
        h)

-- The line with which the helper answers, and what the client makes of the helper's own result.
abbrev pub answer_line : Outcome Text QuicReply → Text
answer_line (ok reply) = reply_line reply
answer_line (err e) = unavailable_line e

abbrev pub answered : Outcome Text QuicReply → Outcome ReplyError QuicReply
answered (ok reply) = ok reply
answered (err e) = err (unavailable (trim_space (replace b'\n' b' ' (drop_cr e))))

-- What the client learns: the answer where it can be read in time and its line has 4096 bytes at most.
abbrev pub learned : Option Text → Outcome Text QuicReply → Outcome NegotiateError QuicReply
learned (some e) o = err (not_read e)
learned none o =
    if leb (byte_length (answer_line o)) max_line_len
    then wrap refused (answered o)
    else err reply_too_long

-- A port of 16 bits other than 0, and a fingerprint that the client accepts.
abbrev IsAnswer : Outcome Text QuicReply → Type 0
IsAnswer (err e) = Unit
IsAnswer (ok r) = (0 < r.port) × (r.port < 2 ^ 16) × (check_fingerprint r.fingerprint ≡ true)

-- A text whose last rune is no carriage return.
data NoCr : Text → Type 0 where
  last : {b : ℕ} → (b == b'\r') ≡ false → NoCr (b ∷ [])
  more : {b : ℕ} {s : Text} → NoCr s → NoCr (b ∷ s)

drop_cr-NoCr : (s : Text) → NoCr s → drop_cr s ≡ s
unfolding drop_cr
drop_cr-NoCr [] h = elim h [ ]
drop_cr-NoCr (b ∷ []) (last h) = rw h refl
drop_cr-NoCr (b ∷ []) (more h) = elim h [ ]
drop_cr-NoCr (b ∷ c ∷ s) (more h) = ap (λ t. b ∷ t) (drop_cr-NoCr (c ∷ s) h)

NoCr-append : (s : Text) {t : Text} → NoCr t → NoCr (s ++ t)
NoCr-append [] h = h
NoCr-append (b ∷ s) h = more (NoCr-append s h)

solid_no_cr : (b : ℕ) → is_space b ≡ false → (b == b'\r') ≡ false
unfolding is_space
solid_no_cr b h = ground (arith, h)

IsWord-NoCr : (s : Text) → IsWord s → NoCr s
IsWord-NoCr [] h = absurd h
IsWord-NoCr (b ∷ []) h = last (solid_no_cr b h.0)
IsWord-NoCr (b ∷ c ∷ s) h = more (IsWord-NoCr (c ∷ s) h.1)

-- A line that ends in a fingerprint comes as it was written.
request_line-NoCr :
    (addr_text : Addr → Text) (r : QuicRequest)
    → check_fingerprint r.fingerprint ≡ true
    → NoCr (request_line addr_text r)
unfolding request_line
request_line-NoCr addr_text r h = NoCr-append verb_quic (
    more (
      NoCr-append (addr_text r.bind_addr) (
        more (
          NoCr-append (Ports.to_string r.ports) (
            more (
              NoCr-append (Controllers.to_string r.controller)
                (more (IsWord-NoCr r.fingerprint (fingerprint-IsWord r.fingerprint h)))))))))

reply_line-NoCr : (r : QuicReply) → check_fingerprint r.fingerprint ≡ true → NoCr (reply_line r)
unfolding reply_line
reply_line-NoCr r h = NoCr-append verb_quic (
    more (
      NoCr-append (decimal r.port)
        (more (IsWord-NoCr r.fingerprint (fingerprint-IsWord r.fingerprint h)))))

-- Behind the verb, the line of a reason loses the carriage return at the end of the reason.
drop_cr-replace : (e : Text) → drop_cr (replace b'\n' b' ' e) ≡ replace b'\n' b' ' (drop_cr e)
unfolding drop_cr replace
drop_cr-replace [] = refl
drop_cr-replace (b ∷ []) = elim (Bool-cases (b == b'\r')) [
  | inl e ↦ rw (carriage b e, e) refl
  | inr e ↦ rw (solid b e, e) refl
]
  where
    carriage : (b : ℕ) → (b == b'\r') ≡ true → ((if b == b'\n' then b' ' else b) == b'\r') ≡ true
    carriage b e = ground (arith, e)

    solid : (b : ℕ) → (b == b'\r') ≡ false → ((if b == b'\n' then b' ' else b) == b'\r') ≡ false
    solid b e = ground (arith, e)
drop_cr-replace (b ∷ c ∷ e) =
    ap (λ t. (if b == b'\n' then b' ' else b) ∷ t) (drop_cr-replace (c ∷ e))

drop_cr-space : (t : Text) → drop_cr (b' ' ∷ t) ≡ b' ' ∷ drop_cr t
unfolding drop_cr
drop_cr-space [] = refl
drop_cr-space (c ∷ t) = refl

drop_cr-behind : (v : Text) (b : ℕ) (t : Text) → drop_cr (v ++ (b ∷ t)) ≡ v ++ drop_cr (b ∷ t)
unfolding drop_cr
drop_cr-behind [] b t = refl
drop_cr-behind (c ∷ []) b t = refl
drop_cr-behind (c ∷ d ∷ v) b t = ap (λ l. c ∷ l) (drop_cr-behind (d ∷ v) b t)

drop_cr-unavailable_line : (e : Text) → drop_cr (unavailable_line e) ≡ unavailable_line (drop_cr e)
unfolding unavailable_line
drop_cr-unavailable_line e =
    drop_cr-behind verb_unavailable b' ' (replace b'\n' b' ' e)
    ∙ ap (λ t. verb_unavailable ++ t)
        (drop_cr-space (replace b'\n' b' ' e) ∙ ap (λ t. b' ' ∷ t) (drop_cr-replace e))

drop_cr-answer_line :
    (o : Outcome Text QuicReply)
    → IsAnswer o
    → parse_quic_reply (drop_cr (answer_line o)) ≡ answered o
drop_cr-answer_line (ok r) h =
    ap parse_quic_reply (drop_cr-NoCr (reply_line r) (reply_line-NoCr r h.2))
    ∙ parse_quic_reply-reply_line r h.0 h.1 h.2
drop_cr-answer_line (err e) h =
    ap parse_quic_reply (drop_cr-unavailable_line e) ∙ parse_quic_reply-unavailable_line (drop_cr e)

read_back :
    (o : Outcome Text QuicReply)
    → IsAnswer o
    → parsed_reply (read_line (answer_line o)) ≡ learned none o
unfolding read_line
read_back o h = elim (Bool-cases (leb (byte_length (answer_line o)) max_line_len)) [
  | inl e ↦ rw e (ap (wrap refused) (drop_cr-answer_line o h))
  | inr e ↦ rw e refl
]

started :
    (o : Outcome Text QuicReply) (server : Server)
    → started_line (o, server) ≡ (answer_line o, server)
started (ok r) server = refl
started (err e) server = refl

listening-IsAnswer :
    (server : Server) (r : QuicRequest) (port : ℕ) (fp : Text) (o : Option Text)
    → 0 < port
    → port < 2 ^ 16
    → check_fingerprint fp ≡ true
    → IsAnswer (listening server r port fp o).0
listening-IsAnswer server r port fp none lo hi h = (lo, hi, h)
listening-IsAnswer server r port fp (some e) lo hi h = tt

listen_on-IsAnswer :
    (s : Sockets) (server : Server) (r : QuicRequest) (fp : Text) (o : Outcome Text ℕ)
    → ((q : ℕ) → o ≡ ok q → (0 < q) × (q < 2 ^ 16))
    → check_fingerprint fp ≡ true
    → IsAnswer (listen_on s server r fp o).0
listen_on-IsAnswer s server r fp (err e) h k = tt
listen_on-IsAnswer s server r fp (ok port) h k =
    listening-IsAnswer server r port fp (s.listen port) (h port refl).0 (h port refl).1 k

bound_port :
    (s : Sockets) (ip : List ℕ) (ports : PortRange) (q : ℕ)
    → Ports.IsValid ports
    → bind_in_range s ip ports ≡ ok q
    → (0 < q) × (q < 2 ^ 16)
bound_port s ip ports q v h =
    let first = bind_in_range-IsFirst s ip ports q h in
    (
      omega (arith, first.place, v.positive),
      omega (arith, first.place, first.inside, v.fits, v.ordered),
    )

certified-IsAnswer :
    (s : Sockets) (server : Server) (r : QuicRequest) (o : Outcome Text Text)
    → ((fp : Text) → o ≡ ok fp → check_fingerprint fp ≡ true)
    → Ports.IsValid r.ports
    → IsAnswer (certified s server r o).0
certified-IsAnswer s server r (err e) h v = tt
certified-IsAnswer s server r (ok fp) h v =
    listen_on-IsAnswer s server r fp _ (λ q e. bound_port s (as_slice r.bind_addr) r.ports q v e)
      (h fp refl)

start_quic-IsAnswer :
    (s : Sockets) (server : Server) (r : QuicRequest)
    → ((fp : Text) → s.certificate ≡ ok fp → check_fingerprint fp ≡ true)
    → Ports.IsValid r.ports
    → IsAnswer (start_quic s server r).0
unfolding start_quic
start_quic-IsAnswer s server r h v = start_on-IsAnswer server.quic
  where
    start_on-IsAnswer : (q : Option Listener) → IsAnswer (start_on s server r q).0
    start_on-IsAnswer none = certified-IsAnswer s server r s.certificate h v
    start_on-IsAnswer (some q) = tt

quic_verb : (text_eq verb_quic verb_quit ≡ false) × (text_eq verb_quic verb_quic ≡ true)
unfolding text_eq
quic_verb = (refl, refl)

-- The helper answers a request with what starting the listener gives.
control_line-request :
    (s : Sockets) (server : Server) (r : QuicRequest)
    → IsRequest s.addr_text s.parse_addr r
    → control_line s server (request_line s.addr_text r)
      ≡ ((start_quic s server r).1, some (answer_line (start_quic s server r).0))
unfolding control_line answer_quic
control_line-request s server r v =
    let line = started (start_quic s server r).0 (start_quic s server r).1 in
    rw
      (
        fields-request_line s.addr_text s.parse_addr r v,
        quic_verb.0,
        quic_verb.1,
        parse_quic_request-fields s.addr_text s.parse_addr r v,
      )
      (λ i. ((line i).1, some (line i).0))

read_line-request :
    (addr_text : Addr → Text) (r : QuicRequest)
    → check_fingerprint r.fingerprint ≡ true
    → byte_length (request_line addr_text r) ≤ max_line_len
    → read_line (request_line addr_text r) ≡ some (request_line addr_text r)
unfolding read_line
read_line-request addr_text r h l =
    rw (le→leb _ _ l)
      (ap some (drop_cr-NoCr (request_line addr_text r) (request_line-NoCr addr_text r h)))

learned_reply :
    (read : Option Text) (o : Outcome Text QuicReply)
    → IsAnswer o
    → read_reply read (some (answer_line o)) ≡ learned read o
learned_reply none o h = read_back o h
learned_reply (some e) o h = refl

-- Where a request of at most 4096 bytes is written, the helper is left as starting the listener leaves
-- it, and the client learns the port and the fingerprint with which the helper listens, or that QUIC is
-- unavailable with the helper's error, its newlines replaced and without the spaces around it and a
-- carriage return at its end. That is so where the client reads the answer before its deadline and its
-- line has at most 4096 bytes; else the client gets the error of the read.
pub negotiate_quic-answered :
    (s : Sockets) (wire : Wire) (server : Server) (r : QuicRequest)
    → IsRequest s.addr_text s.parse_addr r
    → ((fp : Text) → s.certificate ≡ ok fp → check_fingerprint fp ≡ true)
    → wire.write ≡ none
    → byte_length (request_line s.addr_text r) ≤ max_line_len
    → negotiate_quic s wire server r
      ≡ (learned wire.read (start_quic s server r).0, (start_quic s server r).1)
unfolding negotiate_quic
negotiate_quic-answered s wire server r v h w l =
    ap (negotiated s server r wire) w
    ∙ ap (λ o. (read_reply wire.read (served s server o).1, (served s server o).0))
        (read_line-request s.addr_text r v.fingerprint l)
    ∙ ap (λ t. (read_reply wire.read t.1, t.0)) (control_line-request s server r v)
    ∙ ap (λ a. (a, (start_quic s server r).1))
        (learned_reply wire.read (start_quic s server r).0
          (start_quic-IsAnswer s server r h v.ports))
