-- ===== src/Mux/Stream.antt =====
-- The stream functions of internal/mux/mux.go: destinations, frames, status bytes and lines.
-- A reader is the list of the bytes that the stream still delivers before its end; a function that
-- reads returns what is left. A writer returns the bytes that one Write call sends.
pub mod RoundTrip
mod Tests
use tailjump.Prelude.{ℕ, zero, suc, ◌+◌, ◌-◌, ◌*◌, ◌/◌, ◌%◌, ◌^◌, Bool, true, false}
use tailjump.Prelude.{List, [], ◌∷◌, ◌++◌, Outcome, ok, err, ◌>>=◌, ltb, leb, ◌==◌}
use tailjump.Prelude.{if◌then◌else◌, length, take, drop}
use tailjump.Net.{Addr, AddrPort, v4, v6, unmap, as_slice, addr_from_slice}
use tailjump.Net.Bytes.{bytes_of, number_of, u16_bytes, u16}

pub data StreamError : Type 0 where
  eof unexpected_eof : StreamError
  bad_length too_large line_too_long : ℕ → StreamError

-- `io.ReadFull` into `n` bytes: io.EOF where nothing is left, and io.ErrUnexpectedEOF where less
-- than `n` is. A read of no bytes succeeds.
unfoldable pub read_full : ℕ → List ℕ → Outcome StreamError (List ℕ × List ℕ)
read_full zero r = ok ([], r)
read_full (suc n) [] = err eof
read_full (suc n) (b ∷ r) =
    if ltb (length (b ∷ r)) (suc n)
    then err unexpected_eof
    else ok (take (suc n) (b ∷ r), drop (suc n) (b ∷ r))

-- `Addr.As4` or `Addr.As16` of the unmapped address; As16 of the zero Addr is 16 zero bytes.
abbrev pub raw_addr : Addr → List ℕ
raw_addr Addr.invalid = bytes_of 16 0
raw_addr (v4 n) = bytes_of 4 n
raw_addr (v6 n zone) = bytes_of 16 n

unfoldable pub write_dest : AddrPort → List ℕ
write_dest dst =
    let raw = raw_addr (unmap dst.addr) in (length raw % 256) ∷ (raw ++ u16_bytes dst.port [])

-- The port behind an address that was read.
abbrev pub read_port : Addr → List ℕ → Outcome StreamError (AddrPort × List ℕ)
read_port addr r = read_full 2 r >>= λ p. ok (record { addr = addr; port = number_of p.0 }, p.1)

abbrev pub read_addr : ℕ → List ℕ → Outcome StreamError (AddrPort × List ℕ)
read_addr n r =
    if n == 4
    then (read_full 4 r >>= λ p. read_port (v4 (number_of p.0)) p.1)
    else if n == 16
    then (read_full 16 r >>= λ p. read_port (v6 (number_of p.0) []) p.1)
    else err (bad_length n)

unfoldable pub read_dest : List ℕ → Outcome StreamError (AddrPort × List ℕ)
read_dest r = read_full 1 r >>= λ p. read_addr (number_of p.0) p.1

abbrev pub max_udp_frame : ℕ
max_udp_frame = 0xffff

unfoldable pub write_frame : List ℕ → Outcome StreamError (List ℕ)
write_frame p =
    if ltb max_udp_frame (length p)
    then err (too_large (length p))
    else ok (u16_bytes (length p % 2 ^ 16) p)

abbrev pub read_body : ℕ → List ℕ → Outcome StreamError (List ℕ × List ℕ)
read_body n r = if n == 0 then ok ([], r) else read_full n r

unfoldable pub read_frame : List ℕ → Outcome StreamError (List ℕ × List ℕ)
read_frame r = read_full 2 r >>= λ p. read_body (number_of p.0) p.1

unfoldable pub read_status : List ℕ → Outcome StreamError (ℕ × List ℕ)
read_status r = read_full 1 r >>= λ p. ok (number_of p.0, p.1)

-- A trailing carriage return is dropped from the line that was read.
unfoldable pub drop_cr : List ℕ → List ℕ
drop_cr [] = []
drop_cr (b ∷ []) = if b == b'\r' then [] else b ∷ []
drop_cr (b ∷ c ∷ s) = b ∷ drop_cr (c ∷ s)

-- The loop of readLine, a byte at a time; `buf` is what it has read.
unfoldable pub read_line_from : ℕ → List ℕ → List ℕ → Outcome StreamError (List ℕ × List ℕ)
read_line_from limit buf [] = err eof
read_line_from limit buf (b ∷ r) =
    let rest = read_line_from limit (buf ++ (b ∷ [])) r in
    if b == b'\n'
    then ok (drop_cr buf, r)
    else if leb limit (length buf)
    then err (line_too_long limit)
    else rest

unfoldable pub read_line : ℕ → List ℕ → Outcome StreamError (List ℕ × List ℕ)
unfolding read_line_from drop_cr
read_line limit r = read_line_from limit [] r
