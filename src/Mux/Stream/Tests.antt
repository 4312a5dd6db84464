-- ===== src/Mux/Stream/Tests.antt =====
-- Streams at concrete bytes.
use tailjump.Prelude.{ℕ, ◌≤◌, ◌<◌, ◌≡◌, refl, arith, List, [], ◌∷◌, ◌++◌, ok, err}
use tailjump.Text.{str}
use tailjump.Net.{AddrPort, v6, unmap, on_wire}
use tailjump.Net.Bytes.{bytes_of, number_of}
use tailjump.Prelude.{◌⊎◌}
use tailjump.Mux.Stream.{
  write_dest, read_dest, read_full, write_frame, read_frame, read_line, drop_cr,
}
use tailjump.Mux.Stream.{too_large, line_too_long, unexpected_eof, max_udp_frame}
use tailjump.Mux.Stream.RoundTrip.{read_dest-write_dest, read_frame-write_frame, read_line_lem}

abbrev mapped_dest : AddrPort
mapped_dest = record { addr = v6 0xffff0a000001 (str "eth0"); port = 53 }

dest_bytes : write_dest mapped_dest ≡ 4 ∷ 10 ∷ 0 ∷ 0 ∷ 1 ∷ 0 ∷ 53 ∷ []
unfolding write_dest unmap bytes_of
dest_bytes = refl

cut_frame : read_frame (0 ∷ 3 ∷ 1 ∷ 2 ∷ []) ≡ err unexpected_eof
unfolding read_frame read_full number_of
cut_frame = refl

crlf_line : read_line 4096 (str "TJ5\r\nrest") ≡ ok (str "TJ5", str "rest")
unfolding read_line
crlf_line = refl

read_dest-write_dest_example :
    read_dest (write_dest mapped_dest ++ (9 ∷ []))
    ≡ ok (record { addr = on_wire mapped_dest.addr; port = 53 }, 9 ∷ [])
read_dest-write_dest_example =
    read_dest-write_dest mapped_dest (9 ∷ []) (omega arith) refl (omega arith)

read_frame-write_frame_example :
    ((3 ≤ max_udp_frame)
      × (w : List ℕ) × (write_frame (1 ∷ 2 ∷ 3 ∷ []) ≡ ok w)
      × (read_frame (w ++ (9 ∷ [])) ≡ ok (1 ∷ 2 ∷ 3 ∷ [], 9 ∷ [])))
    ⊎ ((max_udp_frame < 3) × (write_frame (1 ∷ 2 ∷ 3 ∷ []) ≡ err (too_large 3)))
read_frame-write_frame_example = read_frame-write_frame (1 ∷ 2 ∷ 3 ∷ []) (9 ∷ [])

read_line_lem_example :
    ((2 ≤ 4) × (read_line 4 (7 ∷ 8 ∷ b'\n' ∷ 9 ∷ []) ≡ ok (drop_cr (7 ∷ 8 ∷ []), 9 ∷ [])))
    ⊎ ((4 < 2) × (read_line 4 (7 ∷ 8 ∷ 9 ∷ []) ≡ err (line_too_long 4)))
read_line_lem_example = read_line_lem 4 (7 ∷ 8 ∷ []) (9 ∷ []) (refl, (refl, tt))
