-- ===== src/Mux/Socket/Tests.antt =====
-- A raw socket with the identifier 300, and the theorems at it.
use tailjump.Prelude.{refl, ◌≡◌, ◌^◌, true, false, none, some, List, ℕ, [], ◌∷◌, ◌++◌, arith}
use tailjump.Net.{addr_from_slice, unmap}
use tailjump.Mux.Socket.{
  EchoSocket, request, received, replied, raw_error, fold_carries, icmp_checksum, word_sum,
  is_icmp_error_type,
}
use tailjump.Mux.Socket.Checksum.{all_words, request_sums}
use tailjump.Mux.Socket.Own.{header4, error_message, raw_error-request}
use tailjump.Prelude.{◌-◌}

abbrev socket : EchoSocket
socket = record { v6 = false; raw = true; ident = 300 }

-- The header of an IPv4 packet of 20 bytes with ICMP in it.
abbrev header : List ℕ
header = 69 ∷ 0 ∷ 0 ∷ 31 ∷ 0 ∷ 0 ∷ 0 ∷ 0 ∷ 1 ∷ 1 ∷ 0 ∷ 0 ∷ 10 ∷ 0 ∷ 0 ∷ 1 ∷ 10 ∷ 0 ∷ 0 ∷ 2 ∷ []

odd_request :
    request socket 7 (1 ∷ 2 ∷ 3 ∷ []) ≡ 8 ∷ 0 ∷ 242 ∷ 202 ∷ 1 ∷ 44 ∷ 0 ∷ 7 ∷ 1 ∷ 2 ∷ 3 ∷ []
unfolding request icmp_checksum word_sum fold_carries
odd_request = refl

own_reply :
    received socket (0 ∷ 0 ∷ 0 ∷ 0 ∷ 1 ∷ 44 ∷ 0 ∷ 7 ∷ 5 ∷ []) none ≡ some (replied 7 (5 ∷ []))
unfolding received raw_error is_icmp_error_type
own_reply = refl

other_reply : received socket (0 ∷ 0 ∷ 0 ∷ 0 ∷ 1 ∷ 45 ∷ 0 ∷ 7 ∷ 5 ∷ []) none ≡ none
unfolding received raw_error is_icmp_error_type
other_reply = refl

request_sums_example : fold_carries 2 (all_words (request socket 7 (1 ∷ 2 ∷ 3 ∷ []))) ≡ 2 ^ 16 - 1
request_sums_example =
    request_sums socket 7 (1 ∷ 2 ∷ 3 ∷ []) refl (omega arith, (omega arith, (omega arith, tt)))
      (omega arith)

raw_error-request_example :
    raw_error socket
      (error_message 11 0 0 0 (header ++ request socket 7 (1 ∷ [])))
      (some (10 ∷ 0 ∷ 0 ∷ 9 ∷ []))
    ≡ some (record {
      type = 11;
      code = 0;
      info = 0;
      from = unmap (addr_from_slice (10 ∷ 0 ∷ 0 ∷ 9 ∷ []));
      inner = request socket 7 (1 ∷ []);
    })
unfolding is_icmp_error_type addr_from_slice
raw_error-request_example =
    raw_error-request socket 7 (1 ∷ []) 11 0 0 0 header (10 ∷ 0 ∷ 0 ∷ 9 ∷ [])
      (header4 refl (omega arith) refl) refl refl (omega arith) (omega arith)
