-- ===== src/Mux/Stream/RoundTrip.antt =====
-- What one side writes on a stream the other side reads, and nothing behind it.
use tailjump.Prelude.{ℕ, suc, ◌+◌, ◌%◌, ◌^◌, ◌<◌, ◌≤◌, ◌≡◌, refl, ap, ◌∙◌, arith}
use tailjump.Prelude.{
  true, false, List, [], ◌∷◌, ◌++◌, ok, err, ◌⊎◌, inl, inr, append_assoc, append-nil,
}
use tailjump.Prelude.{length, length-append, take-append, drop-append, ltb, leb}
use tailjump.Text.Split.{Lacks}
use tailjump.Net.{
  Addr, AddrPort, v4, v6, IsAddr, is_set, unmap, unmap-IsAddr, on_wire, without_zone, is_set-unmap,
}
use tailjump.Net.Bytes.{bytes_of, number_of, u16_bytes, length-bytes_of, number_of-bytes_of}
use tailjump.Mux.Stream.{read_full, write_dest, raw_addr, read_port, read_addr, read_dest}
use tailjump.Mux.Stream.{
  max_udp_frame, write_frame, read_body, read_frame, drop_cr, read_line_from, read_line,
}
use tailjump.Mux.Stream.{too_large, line_too_long}
use tailjump.Prelude.{Bool-cases}
use tailjump.Prelude.{leb→le, ltb→lt}

read_full-append : (s r : List ℕ) → read_full (length s) (s ++ r) ≡ ok (s, r)
unfolding read_full
read_full-append [] r = refl
read_full-append (b ∷ s) r = rw (enough, take-append s r, drop-append s r)
  where
    enough : ltb (length (b ∷ (s ++ r))) (suc (length s)) ≡ false
    enough = ground (arith, length-append s r)

-- The same with the number of bytes given apart.
read_full_exact : (n : ℕ) (s r : List ℕ) → length s ≡ n → read_full n (s ++ r) ≡ ok (s, r)
read_full_exact n s r e = rw (← e) (read_full-append s r)

read_two : (n : ℕ) (r : List ℕ) → read_full 2 (u16_bytes n r) ≡ ok (u16_bytes n [], r)
read_two n r = read_full-append (u16_bytes n []) r

number_two : (n : ℕ) → n < 2 ^ 16 → number_of (u16_bytes n []) ≡ n
unfolding number_of
number_two n h = omega arith

read_port_back :
    (a : Addr) (port : ℕ) (r : List ℕ)
    → port < 2 ^ 16
    → read_port a (u16_bytes port r) ≡ ok (record { addr = a; port = port }, r)
read_port_back a port r h = rw (read_two port r, number_two port h)

read_v4 :
    (n port : ℕ) (r : List ℕ)
    → n < 2 ^ 32
    → port < 2 ^ 16
    → read_addr 4 (bytes_of 4 n ++ u16_bytes port r) ≡ ok (record { addr = v4 n; port = port }, r)
read_v4 n port r h k =
    rw
      (
        read_full_exact 4 (bytes_of 4 n) (u16_bytes port r) (length-bytes_of 4 n),
        number_of-bytes_of 4 n h,
      )
      (read_port_back (v4 n) port r k)

read_v6 :
    (n port : ℕ) (r : List ℕ)
    → n < 2 ^ 128
    → port < 2 ^ 16
    → read_addr 16 (bytes_of 16 n ++ u16_bytes port r)
      ≡ ok (record { addr = v6 n []; port = port }, r)
read_v6 n port r h k =
    rw
      (
        read_full_exact 16 (bytes_of 16 n) (u16_bytes port r) (length-bytes_of 16 n),
        number_of-bytes_of 16 n h,
      )
      (read_port_back (v6 n []) port r k)

read_dest_step : (n : ℕ) (r : List ℕ) → read_dest (n ∷ r) ≡ read_addr n r
unfolding read_dest
read_dest_step n r = rw (read_full-append (n ∷ []) r, one)
  where
    one : number_of (n ∷ []) ≡ n
    one = unfold number_of in omega arith

read_raw :
    (a : Addr) (port : ℕ) (r : List ℕ)
    → IsAddr a
    → is_set a ≡ true
    → port < 2 ^ 16
    → read_dest ((length (raw_addr a) % 256) ∷ (raw_addr a ++ u16_bytes port r))
      ≡ ok (record { addr = without_zone a; port = port }, r)
read_raw Addr.invalid port r h s k = cc
read_raw (v4 n) port r h s k = rw (length-bytes_of 4 n) (read_dest_step 4 _ ∙ read_v4 n port r h k)
read_raw (v6 n zone) port r h s k =
    rw (length-bytes_of 16 n) (read_dest_step 16 _ ∙ read_v6 n port r h k)

-- A destination is read back with its address unmapped and without a zone, and what follows it on
-- the stream is left.
pub read_dest-write_dest :
    (dst : AddrPort) (r : List ℕ)
    → IsAddr dst.addr
    → is_set dst.addr ≡ true
    → dst.port < 2 ^ 16
    → read_dest (write_dest dst ++ r) ≡ ok (record { addr = on_wire dst.addr; port = dst.port }, r)
unfolding write_dest
read_dest-write_dest dst r h s k =
    rw (append_assoc (raw_addr (unmap dst.addr)) (u16_bytes dst.port []) r)
      (read_raw (unmap dst.addr) dst.port r (unmap-IsAddr dst.addr h) (is_set-unmap dst.addr ∙ s) k)

read_body_back : (p r : List ℕ) → read_body (length p) (p ++ r) ≡ ok (p, r)
read_body_back [] r = refl
read_body_back (b ∷ p) r = ground (arith, read_full-append (b ∷ p) r)

read_frame_back :
    (p r : List ℕ) → length p < 2 ^ 16 → read_frame (u16_bytes (length p) (p ++ r)) ≡ ok (p, r)
unfolding read_frame
read_frame_back p r h =
    rw (read_two (length p) (p ++ r), number_two (length p) h) (read_body_back p r)

write_frame_fits : (p : List ℕ) → length p < 2 ^ 16 → write_frame p ≡ ok (u16_bytes (length p) p)
unfolding write_frame
write_frame_fits p h = ground arith

-- A frame of at most 65535 bytes, the empty one included, is written and read back whole, and what
-- follows it on the stream is left. A longer one is refused.
pub read_frame-write_frame :
    (p r : List ℕ)
    → ((length p ≤ max_udp_frame)
        × (w : List ℕ) × (write_frame p ≡ ok w)
        × (read_frame (w ++ r) ≡ ok (p, r)))
      ⊎ ((max_udp_frame < length p) × (write_frame p ≡ err (too_large (length p))))
unfolding write_frame
read_frame-write_frame p r = elim (Bool-cases (ltb max_udp_frame (length p))) [
  | inl e ↦ inr (ltb→lt _ _ e, rw e)
  | inr e ↦ inl (
    ground arith,
    u16_bytes (length p) p,
    write_frame_fits p (ground arith),
    read_frame_back p r (ground arith),
  )
]

read_line_from_back :
    (limit : ℕ) (buf line r : List ℕ)
    → Lacks b'\n' line
    → length buf + length line ≤ limit
    → read_line_from limit buf (line ++ (b'\n' ∷ r)) ≡ ok (drop_cr (buf ++ line), r)
unfolding read_line_from
read_line_from_back limit buf [] r h k = rw append-nil
read_line_from_back limit buf (b ∷ line) r h k =
    rw (h.0, room)
      (read_line_from_back limit (buf ++ (b ∷ [])) line r h.1
          (omega (arith, length-append buf (b ∷ [])))
        ∙ ap (λ l. ok (drop_cr l, r)) (append_assoc buf (b ∷ []) line))
  where
    room : leb limit (length buf) ≡ false
    room = ground arith

read_line_from_long :
    (limit : ℕ) (buf line r : List ℕ)
    → Lacks b'\n' line
    → limit < length buf + length line
    → length buf ≤ limit
    → read_line_from limit buf (line ++ r) ≡ err (line_too_long limit)
unfolding read_line_from
read_line_from_long limit buf [] r h k m = absurd (omega arith)
read_line_from_long limit buf (b ∷ line) r h k m = elim (Bool-cases (leb limit (length buf))) [
  | inl e ↦ rw (h.0, e)
  | inr e ↦
      rw (h.0, e)
        (read_line_from_long limit (buf ++ (b ∷ [])) line r h.1
          (omega (arith, length-append buf (b ∷ []))) (ground (arith, length-append buf (b ∷ []))))
]

-- A line of at most `limit` bytes is read without its newline and a carriage return before it, and
-- what follows the newline is left. Where no newline comes among the first `limit` + 1 bytes, the
-- answer is an error, whatever follows.
pub read_line_lem :
    (limit : ℕ) (line r : List ℕ)
    → Lacks b'\n' line
    → ((length line ≤ limit) × (read_line limit (line ++ (b'\n' ∷ r)) ≡ ok (drop_cr line, r)))
      ⊎ ((limit < length line) × (read_line limit (line ++ r) ≡ err (line_too_long limit)))
unfolding read_line
read_line_lem limit line r h = elim (Bool-cases (leb (length line) limit)) [
  | inl e ↦ inl (leb→le _ _ e, read_line_from_back limit [] line r h (ground arith))
  | inr e ↦ inr (ground arith, read_line_from_long limit [] line r h (ground arith) (omega arith))
]
