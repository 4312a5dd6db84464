-- ===== src/Mux/Negotiate/Lines.antt =====
-- The lines of the control stream are read back.
use tailjump.Prelude.{
  append_assoc, ℕ, ◌^◌, ◌<◌, ◌≡◌, refl, sym, ap, ◌∙◌, subst, true, false, Option, none, some, ok,
  err, [], ◌∷◌, ◌++◌, arith, if◌then◌else◌,
}
use tailjump.Text.{Text, str, text_eq, cut_prefix, cut_prefix_found}
use tailjump.Text.Space.{is_space, IsSolid, IsWord, trim_space, trim_space_words}
use tailjump.Text.Split.{cut, cut-append, fields, fields_cons, fields_last, Lacks}
use tailjump.Text.Trim.{replace, after_verb_lem}
use tailjump.Text.Decimal.{decimal, parse_uint-decimal, decimal-IsWord}
use tailjump.Net.{Addr}
use tailjump.Transport.Ports
use tailjump.Transport.Ports.{PortRange, parse_port_range-to_string, to_string-IsSolid}
use tailjump.Transport.Controllers
use tailjump.Transport.Controllers.{IsCanonical, parse_controller-to_string, to_string-IsWord}
use tailjump.Manifest.Settings.{ports_nonempty}
use tailjump.Mux.Negotiate.{
  QuicRequest, QuicReply, check_fingerprint, fingerprint_prefix, is_hex, all_hex,
  parse_quic_request, request_line, reply_line, unavailable_line, unlink_line, parse_unlink_reply,
  parse_quic_reply, verb_quic, verb_unavailable, verb_unlink, unavailable, unlink_ok, unlink_failed,
}
use tailjump.Text.{is_empty, text_eq_refl}

hex_solid : (c : ℕ) → is_hex c ≡ true → is_space c ≡ false
unfolding is_space
hex_solid c h = ground arith

all_hex-IsSolid : (s : Text) → all_hex s ≡ true → IsSolid s
all_hex-IsSolid [] h = tt
all_hex-IsSolid (c ∷ s) h = (hex_solid c (ground arith), all_hex-IsSolid s (ground arith))

prefix-IsWord : (s : Text) → IsSolid s → IsWord (fingerprint_prefix ++ s)
unfolding is_space
prefix-IsWord s h = (refl, (refl, (refl, (refl, (refl, (refl, (refl, h)))))))

pub fingerprint-IsWord : (s : Text) → check_fingerprint s ≡ true → IsWord s
unfolding check_fingerprint
fingerprint-IsWord s h =
    let hex = cut_prefix s fingerprint_prefix in
    subst IsWord (sym (cut_prefix_found s fingerprint_prefix (ground arith)))
      (prefix-IsWord hex.0 (all_hex-IsSolid hex.0 (ground arith)))

ports-IsWord : (r : PortRange) → IsWord (Ports.to_string r)
ports-IsWord r = word_of (Ports.to_string r) (ports_nonempty r) (to_string-IsSolid r)
  where
    word_of : (s : Text) → is_empty s ≡ false → IsSolid s → IsWord s
    word_of [] h k = cc
    word_of (c ∷ s) h k = k

space : is_space b' ' ≡ true
unfolding is_space
space = refl

quic-IsWord : IsWord verb_quic
unfolding is_space
quic-IsWord = (refl, (refl, (refl, (refl, tt))))

-- A request that the client can make, with an address that is read back from one word.
pub record IsRequest (addr_text : Addr → Text) (parse_addr : Text → Option Addr) (r : QuicRequest)
    : Type 0 where
  pub addr_word : IsWord (addr_text r.bind_addr)
  pub addr_read : parse_addr (addr_text r.bind_addr) ≡ some r.bind_addr
  pub ports : Ports.IsValid r.ports
  pub controller : IsCanonical r.controller
  pub fingerprint : check_fingerprint r.fingerprint ≡ true

pub fields-request_line :
    (addr_text : Addr → Text) (parse_addr : Text → Option Addr) (r : QuicRequest)
    → IsRequest addr_text parse_addr r
    → fields (request_line addr_text r)
      ≡ verb_quic
        ∷ addr_text r.bind_addr
        ∷ Ports.to_string r.ports
        ∷ Controllers.to_string r.controller
        ∷ r.fingerprint
        ∷ []
unfolding request_line
fields-request_line addr_text parse_addr r v =
    fields_cons verb_quic b' ' _ quic-IsWord space
    ∙ ap (λ l. verb_quic ∷ l)
        (fields_cons (addr_text r.bind_addr) b' ' _ v.addr_word space
          ∙ ap (λ l. addr_text r.bind_addr ∷ l)
              (fields_cons (Ports.to_string r.ports) b' ' _ (ports-IsWord r.ports) space
                ∙ ap (λ l. Ports.to_string r.ports ∷ l)
                    (fields_cons (Controllers.to_string r.controller) b' ' _
                        (to_string-IsWord r.controller) space
                      ∙ ap (λ l. Controllers.to_string r.controller ∷ l)
                          (fields_last r.fingerprint
                            (fingerprint-IsWord r.fingerprint v.fingerprint)))))

pub parse_quic_request-fields :
    (addr_text : Addr → Text) (parse_addr : Text → Option Addr) (r : QuicRequest)
    → IsRequest addr_text parse_addr r
    → parse_quic_request parse_addr (
        addr_text r.bind_addr
        ∷ Ports.to_string r.ports
        ∷ Controllers.to_string r.controller
        ∷ r.fingerprint
        ∷ [])
      ≡ ok r
unfolding parse_quic_request
parse_quic_request-fields addr_text parse_addr r v =
    rw
      (
        v.addr_read,
        parse_port_range-to_string r.ports v.ports,
        parse_controller-to_string r.controller v.controller,
        v.fingerprint,
      )
      refl

-- What stands behind the verb of a line of words.
quic_rest :
    (w v : Text)
    → IsWord w
    → IsWord v
    → cut b' ' (trim_space (verb_quic ++ (b' ' ∷ (w ++ (b' ' ∷ v)))))
      ≡ (verb_quic, w ++ (b' ' ∷ v), true)
quic_rest w v h k =
    ap (cut b' ') (
      ap (λ t. trim_space (verb_quic ++ (b' ' ∷ t))) (sym (append_assoc w (b' ' ∷ []) v))
      ∙ trim_space_words verb_quic (b' ' ∷ (w ++ (b' ' ∷ []))) v quic-IsWord k
      ∙ ap (λ t. verb_quic ++ (b' ' ∷ t)) (append_assoc w (b' ' ∷ []) v))
    ∙ cut-append b' ' verb_quic (w ++ (b' ' ∷ v)) (refl, (refl, (refl, (refl, tt))))

verbs_differ : text_eq verb_quic verb_unavailable ≡ false
unfolding text_eq
verbs_differ = refl

verb_same : text_eq verb_quic verb_quic ≡ true
unfolding text_eq
verb_same = refl

pub parse_quic_reply-reply_line :
    (r : QuicReply)
    → 0 < r.port
    → r.port < 2 ^ 16
    → check_fingerprint r.fingerprint ≡ true
    → parse_quic_reply (reply_line r) ≡ ok r
unfolding parse_quic_reply reply_line
parse_quic_reply-reply_line r lo hi h =
    rw
      (
        quic_rest (decimal r.port) r.fingerprint (decimal-IsWord r.port)
            (fingerprint-IsWord r.fingerprint h),
        verbs_differ,
        verb_same,
        fields_cons (decimal r.port) b' ' r.fingerprint (decimal-IsWord r.port) space,
        fields_last r.fingerprint (fingerprint-IsWord r.fingerprint h),
        parse_uint-decimal 16 r.port hi,
        h,
      )
      (ground arith)

unavailable-IsSolid : IsSolid verb_unavailable
unfolding is_space
unavailable-IsSolid = (
  refl,
  (
    refl,
    (
      refl,
      (
        refl,
        (
          refl,
          (
            refl,
            (refl, (refl, (refl, (refl, (refl, (refl, (refl, (refl, (refl, (refl, tt)))))))))),
          ),
        ),
      ),
    ),
  ),
)

unavailable-Lacks : Lacks b' ' verb_unavailable
unavailable-Lacks = (
  refl,
  (
    refl,
    (
      refl,
      (
        refl,
        (
          refl,
          (
            refl,
            (refl, (refl, (refl, (refl, (refl, (refl, (refl, (refl, (refl, (refl, tt)))))))))),
          ),
        ),
      ),
    ),
  ),
)

unlink-IsSolid : IsSolid verb_unlink
unfolding is_space
unlink-IsSolid = (refl, (refl, (refl, (refl, (refl, (refl, tt))))))

unlink-Lacks : Lacks b' ' verb_unlink
unlink-Lacks = (refl, (refl, (refl, (refl, (refl, (refl, tt))))))

pub parse_quic_reply-unavailable_line :
    (reason : Text)
    → parse_quic_reply (unavailable_line reason)
      ≡ err (unavailable (trim_space (replace b'\n' b' ' reason)))
unfolding parse_quic_reply unavailable_line
parse_quic_reply-unavailable_line reason =
    let (verb, rest) =
      after_verb_lem b'q' (str "uic-unavailable") (replace b'\n' b' ' reason) unavailable-IsSolid
        unavailable-Lacks in
    rw (verb, text_eq_refl verb_unavailable, rest) refl

-- The client reads the helper's answer to unlink: no error for ok, and otherwise the reason, with
-- its newlines replaced and without the spaces around it; a reason that reads ok is none.
pub parse_unlink_reply-unlink_line :
    (result : Text)
    → parse_unlink_reply (unlink_line result) ≡ (
        let reason = trim_space (replace b'\n' b' ' result) in
        if text_eq reason unlink_ok then none else some (unlink_failed reason))
unfolding parse_unlink_reply unlink_line
parse_unlink_reply-unlink_line result =
    let (verb, rest) =
      after_verb_lem b'u' (str "nlink") (replace b'\n' b' ' result) unlink-IsSolid unlink-Lacks in
    rw (verb, text_eq_refl verb_unlink, rest) refl
