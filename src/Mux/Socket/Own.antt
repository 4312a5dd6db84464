-- ===== src/Mux/Socket/Own.antt =====
-- The errors that a raw socket takes for its own.
use tailjump.Prelude.{
  ℕ, zero, suc, ◌*◌, ◌/◌, ◌%◌, ◌^◌, ◌≤◌, ◌<◌, ◌≡◌, refl, sym, ap, ◌∙◌, Bool, true, false, some,
  List, [], ◌∷◌, ◌++◌, length, length-append, drop, drop-append, arith, ltb, ==_refl, Bool-cases,
  inl, inr,
}
use tailjump.Net.{is_set, unmap, addr_from_slice}
use tailjump.Net.Bytes.{u16_bytes, u32_bytes, u16, u32}
use tailjump.Mux.Socket.{
  byte, EchoSocket, request, unsummed, quoted_request, request_in, error_from, raw_error,
  is_icmp_error_type, icmp_checksum, echo_request_type,
}

-- The IP header in front of a quoted message, of either family.
pub data IsHeader : Bool → List ℕ → Type 0 where
  header4 :
      {h : List ℕ} → length h ≡ byte 0 h % 16 * 4 → 20 ≤ length h → byte 9 h ≡ 1 → IsHeader false h
  header6 : {h : List ℕ} → length h ≡ 40 → byte 6 h ≡ 58 → IsHeader true h

byte-append : (n : ℕ) (h t : List ℕ) → n < length h → byte n (h ++ t) ≡ byte n h
byte-append n [] t l = absurd (omega (arith, l))
byte-append zero (b ∷ h) t l = refl
byte-append (suc n) (b ∷ h) t l = byte-append n h t (omega (arith, l))

drop_header : (n : ℕ) (h t : List ℕ) → length h ≡ n → drop n (h ++ t) ≡ t
drop_header n h t e = ap (λ n. drop n (h ++ t)) (sym e) ∙ drop-append h t

-- A quoted request is found behind its header.
found_request :
    (six : Bool) (h inner : List ℕ)
    → IsHeader six h
    → 8 ≤ length inner
    → quoted_request six (h ++ inner) ≡ request_in six inner
unfolding quoted_request
found_request false h inner (header4 e l p) k =
    rw
      (
        byte-append 0 h inner (omega (arith, l)),
        byte-append 9 h inner (omega (arith, l)),
        length-append h inner,
        sym e,
        drop-append h inner,
        p,
      )
      (ground (arith, l, k))
found_request true h inner (header6 e p) k =
    rw
      (
        byte-append 6 h inner (omega (arith, e)),
        length-append h inner,
        drop_header 40 h inner e,
        e,
        p,
      )
      (ground (arith, k))

request_shape :
    (s : EchoSocket) (seq : ℕ) (payload : List ℕ)
    → (sum : ℕ) × (request s seq payload ≡ unsummed s seq payload sum)
unfolding request
request_shape s seq payload = elim (Bool-cases s.v6) [
  | inl e ↦ (0, rw e refl)
  | inr e ↦ (icmp_checksum (unsummed s seq payload 0), rw e refl)
]

-- The error that stands in front of a quoted packet.
abbrev pub error_message : ℕ → ℕ → ℕ → ℕ → List ℕ → List ℕ
error_message type code sum info quoted = type ∷ code ∷ u16_bytes sum (u32_bytes info quoted)

u16_back : (n : ℕ) → n < 2 ^ 16 → u16 (n / 2 ^ 8 % 256) (n % 256) ≡ n
u16_back n h = omega arith

u32_back :
    (n : ℕ) → n < 2 ^ 32 → u32 (n / 2 ^ 24 % 256) (n / 2 ^ 16 % 256) (n / 2 ^ 8 % 256) (n % 256) ≡ n
u32_back n h = omega arith

long_enough :
    (a b c d e f g h : ℕ) (l : List ℕ) → ltb (length (a ∷ b ∷ c ∷ d ∷ e ∷ f ∷ g ∷ h ∷ l)) 8 ≡ false
long_enough a b c d e f g h l = ground arith

-- The rest of rawError on a request of the socket.
error_taken :
    (s : EchoSocket) (seq sum : ℕ) (payload msg from : List ℕ)
    → s.ident < 2 ^ 16
    → is_set (addr_from_slice from) ≡ true
    → error_from s msg (request_in s.v6 (unsummed s seq payload sum)) (some from)
      ≡ some (record {
        type = byte 0 msg;
        code = byte 1 msg;
        info = u32 (byte 4 msg) (byte 5 msg) (byte 6 msg) (byte 7 msg);
        from = unmap (addr_from_slice from);
        inner = unsummed s seq payload sum;
      })
error_taken s seq sum payload msg from h k =
    rw (==_refl (echo_request_type s.v6), u16_back s.ident h, ==_refl s.ident, k) refl

-- An ICMP error that quotes a request of a raw socket behind an IP header is taken for one of the
-- socket, with its type, its code, its info word, its sender and the request, where the type is one
-- that quotes and the sender has an IP address.
pub raw_error-request :
    (s : EchoSocket) (seq : ℕ) (payload : List ℕ) (type code sum info : ℕ) (h from : List ℕ)
    → IsHeader s.v6 h
    → is_icmp_error_type s.v6 type ≡ true
    → is_set (addr_from_slice from) ≡ true
    → s.ident < 2 ^ 16
    → info < 2 ^ 32
    → raw_error s (error_message type code sum info (h ++ request s seq payload)) (some from)
      ≡ some (record {
        type = type;
        code = code;
        info = info;
        from = unmap (addr_from_slice from);
        inner = request s seq payload;
      })
unfolding raw_error
raw_error-request s seq payload type code sum info h from v t a i n =
    let (k, shape) = request_shape s seq payload in
    rw shape (
      rw
        (
          long_enough type code (sum / 2 ^ 8 % 256) (sum % 256) (info / 2 ^ 24 % 256)
              (info / 2 ^ 16 % 256) (info / 2 ^ 8 % 256) (info % 256)
              (h ++ unsummed s seq payload k),
          t,
        )
        (ap
            (λ o.
              error_from s (error_message type code sum info (h ++ unsummed s seq payload k)) o
                (some from))
            (found_request s.v6 h (unsummed s seq payload k) v (omega arith))
          ∙ error_taken s seq k payload
              (error_message type code sum info (h ++ unsummed s seq payload k)) from i a
          ∙ ap
              (λ m. some (record {
                type = type;
                code = code;
                info = m;
                from = unmap (addr_from_slice from);
                inner = unsummed s seq payload k;
              }))
              (u32_back info n)))
