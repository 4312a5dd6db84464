-- ===== src/Mux/Socket.antt =====
-- internal/mux/echo_socket.go: the messages of an echo socket of the helper, and its send times.
pub mod Checksum
pub mod Own
mod Tests
use tailjump.Prelude.{
  ℕ, ◌+◌, ◌-◌, ◌*◌, ◌/◌, ◌%◌, ◌^◌, ◌==◌, ltb, leb, Bool, true, false, ◌&&◌, ◌||◌, not, zero, suc,
  Option, none, some, if◌then◌else◌, List, [], ◌∷◌, ◌++◌, length, drop, take,
}
use tailjump.Net.{Addr, is_set, unmap, addr_from_slice}
use tailjump.Net.Bytes.{u16_bytes, u16, u32}
use tailjump.Mux.Frames.{IcmpError}

abbrev pub icmp_header_len : ℕ
icmp_header_len = 8

abbrev pub ipv6_header_len : ℕ
ipv6_header_len = 40

abbrev pub echo_request_type : Bool → ℕ
echo_request_type v6 = if v6 then 128 else 8

abbrev pub echo_reply_type : Bool → ℕ
echo_reply_type v6 = if v6 then 129 else 0

-- The byte at an index, which is in range wherever the code reads one.
abbrev pub byte : ℕ → List ℕ → ℕ
byte n [] = 0
byte zero (b ∷ l) = b
byte (suc n) (b ∷ l) = byte n l

-- icmpChecksum: the loop over the words, from the offset `i`; the word at 2 counts as zero.
unfoldable pub word_sum : ℕ → List ℕ → ℕ
word_sum i [] = 0
word_sum i (a ∷ []) = a * 2 ^ 8
word_sum i (a ∷ b ∷ rest) = (if i == 2 then 0 else a * 2 ^ 8 + b) + word_sum (i + 2) rest

-- The loop that folds the carries: two rounds are enough for a uint32.
unfoldable pub fold_carries : ℕ → ℕ → ℕ
fold_carries zero sum = sum
fold_carries (suc rounds) sum =
    let rest = fold_carries rounds (sum % 2 ^ 16 + sum / 2 ^ 16) in
    if sum / 2 ^ 16 == 0 then sum else rest

unfoldable pub icmp_checksum : List ℕ → ℕ
icmp_checksum msg = 2 ^ 16 - 1 - fold_carries 2 (word_sum 0 msg % 2 ^ 32)

pub record EchoSocket : Type 0 where
  pub v6 : Bool
  pub raw : Bool
  pub ident : ℕ

-- send: the message, with its checksum on IPv4.
abbrev pub unsummed : EchoSocket → ℕ → List ℕ → ℕ → List ℕ
unsummed s seq payload sum =
    echo_request_type s.v6 ∷ 0 ∷ u16_bytes sum (u16_bytes s.ident (u16_bytes seq payload))

unfoldable pub request : EchoSocket → ℕ → List ℕ → List ℕ
request s seq payload =
    if s.v6
    then unsummed s seq payload 0
    else unsummed s seq payload (icmp_checksum (unsummed s seq payload 0))

unfoldable pub is_icmp_error_type : Bool → ℕ → Bool
is_icmp_error_type v6 type =
    if v6 then leb 1 type && leb type 4 else type == 3 || type == 11 || type == 12

-- rawError: the quoted packet behind its IP header, where it is an echo request.
abbrev pub request_in : Bool → List ℕ → Option (List ℕ)
request_in v6 inner = if byte 0 inner == echo_request_type v6 then some inner else none

unfoldable pub quoted_request : Bool → List ℕ → Option (List ℕ)
quoted_request true quoted =
    if ltb (length quoted) (ipv6_header_len + icmp_header_len) || not (byte 6 quoted == 58)
    then none
    else request_in true (drop ipv6_header_len quoted)
quoted_request false quoted =
    let ihl = byte 0 quoted % 16 * 4 in
    if ltb (length quoted) 1
      || ltb ihl 20
      || ltb (length quoted) (ihl + icmp_header_len)
      || not (byte 9 quoted == 1)
    then none
    else request_in false (drop ihl quoted)

-- The rest of rawError: the identifier and the address of the sender.
abbrev pub error_from : EchoSocket → List ℕ → Option (List ℕ) → Option (List ℕ) → Option IcmpError
error_from s msg none from = none
error_from s msg (some inner) none = none
error_from s msg (some inner) (some from) =
    let src = addr_from_slice from in
    if u16 (byte 4 inner) (byte 5 inner) == s.ident && is_set src
    then some (record {
      type = byte 0 msg;
      code = byte 1 msg;
      info = u32 (byte 4 msg) (byte 5 msg) (byte 6 msg) (byte 7 msg);
      from = unmap src;
      inner = inner;
    })
    else none

-- `from` is the bytes of the sender's address, none where it is no IP address.
unfoldable pub raw_error : EchoSocket → List ℕ → Option (List ℕ) → Option IcmpError
raw_error s msg from =
    if ltb (length msg) icmp_header_len || not (is_icmp_error_type s.v6 (byte 0 msg))
    then none
    else error_from s msg (quoted_request s.v6 (drop icmp_header_len msg)) from

-- What recv makes of one message: an error, a reply with its sequence, or nothing.
pub data EchoEvent : Type 0 where
  failed : IcmpError → EchoEvent
  replied : ℕ → List ℕ → EchoEvent

abbrev pub reply_in : EchoSocket → List ℕ → Option EchoEvent
reply_in s msg =
    if ltb (length msg) icmp_header_len
      || not (byte 0 msg == echo_reply_type s.v6)
      || not (byte 1 msg == 0)
    then none
    else if s.raw && not (u16 (byte 4 msg) (byte 5 msg) == s.ident)
    then none
    else some (replied (u16 (byte 6 msg) (byte 7 msg)) (drop icmp_header_len msg))

abbrev pub or_reply : EchoSocket → List ℕ → Option IcmpError → Option EchoEvent
or_reply s msg none = reply_in s msg
or_reply s msg (some e) = some (failed e)

unfoldable pub received : EchoSocket → List ℕ → Option (List ℕ) → Option EchoEvent
received s msg from = or_reply s msg (if s.raw then raw_error s msg from else none)
