-- ===== src/Net.antt =====
-- The values of net/netip that the program uses, and big-endian numbers of encoding/binary.
pub mod Bytes
pub mod Prefix
use tailjump.Prelude.{
  ◌⊎◌, inl, inr, length, refl, ℕ, ◌*◌, ◌/◌, ◌%◌, ◌^◌, ◌<◌, ◌≡◌, Bool, true, false, ◌&&◌, arith, [],
  ◌==◌,
}
use tailjump.Prelude.{Option, none, some, List, if◌then◌else◌}
use tailjump.Text.{Text, text_eq}
use tailjump.Net.Bytes.{bytes_of, number_of}
use tailjump.Net.Bytes.{length-bytes_of}
use tailjump.Net.Bytes.{number_of-bytes_of}

-- `netip.Addr`: the zero Addr, an IPv4 address, or an IPv6 address with its zone.
pub data Addr : Type 0 where
  invalid : Addr
  v4 : ℕ → Addr
  v6 : ℕ → Text → Addr

abbrev pub IsAddr : Addr → Type 0
IsAddr invalid = Unit
IsAddr (v4 n) = n < 2 ^ 32
IsAddr (v6 n zone) = n < 2 ^ 128

-- `Addr.Unmap`: an IPv4-mapped IPv6 address, ::ffff:a.b.c.d, becomes the IPv4 address.
unfoldable pub unmap : Addr → Addr
unmap invalid = invalid
unmap (v4 n) = v4 n
unmap (v6 n zone) = if n / 2 ^ 32 == 0xffff then v4 (n % 2 ^ 32) else v6 n zone

abbrev pub is4 : Addr → Bool
is4 (v4 n) = true
is4 invalid = false
is4 (v6 n zone) = false

abbrev pub is6 : Addr → Bool
is6 (v6 n zone) = true
is6 invalid = false
is6 (v4 n) = false

-- `Addr.IsValid`.
abbrev pub is_set : Addr → Bool
is_set invalid = false
is_set (v4 n) = true
is_set (v6 n zone) = true

-- `Addr.AsSlice`, which drops the zone.
unfoldable pub as_slice : Addr → List ℕ
as_slice invalid = []
as_slice (v4 n) = bytes_of 4 n
as_slice (v6 n zone) = bytes_of 16 n

-- `netip.AddrFromSlice`: 4 or 16 bytes; other lengths give the zero Addr.
unfoldable pub addr_from_slice : List ℕ → Addr
addr_from_slice bytes =
    if length bytes == 4
    then v4 (number_of bytes)
    else if length bytes == 16
    then v6 (number_of bytes) []
    else invalid

-- `a == b` on addresses.
unfoldable pub addr_eq : Addr → Addr → Bool
unfolding text_eq
addr_eq invalid invalid = true
addr_eq (v4 m) (v4 n) = m == n
addr_eq (v6 m z) (v6 n w) = m == n && text_eq z w
addr_eq _ _ = false

-- `netip.AddrPort`.
pub record AddrPort : Type 0 where
  pub addr : Addr
  pub port : ℕ

-- The address that is left of `a` on the wire: unmapped, and with no zone.
abbrev pub without_zone : Addr → Addr
without_zone invalid = invalid
without_zone (v4 n) = v4 n
without_zone (v6 n zone) = v6 n []

abbrev pub on_wire : Addr → Addr
on_wire a = without_zone (unmap a)

pub unmap-IsAddr : (a : Addr) → IsAddr a → IsAddr (unmap a)
unfolding unmap
unmap-IsAddr invalid h = tt
unmap-IsAddr (v4 n) h = h
unmap-IsAddr (v6 n zone) h = ground arith

slice_v4 : (n : ℕ) → n < 2 ^ 32 → addr_from_slice (bytes_of 4 n) ≡ v4 n
unfolding addr_from_slice
slice_v4 n h = rw (length-bytes_of 4 n, number_of-bytes_of 4 n h)

slice_v6 : (n : ℕ) → n < 2 ^ 128 → addr_from_slice (bytes_of 16 n) ≡ v6 n []
unfolding addr_from_slice
slice_v6 n h = rw (length-bytes_of 16 n, number_of-bytes_of 16 n h)

slice_back : (a : Addr) → IsAddr a → addr_from_slice (as_slice a) ≡ without_zone a
unfolding as_slice
slice_back invalid h = unfold addr_from_slice in refl
slice_back (v4 n) h = slice_v4 n h
slice_back (v6 n zone) h = slice_v6 n h

-- The bytes of an unmapped address give the address back, without its zone.
pub addr_from_slice-as_slice :
    (a : Addr) → IsAddr a → addr_from_slice (as_slice (unmap a)) ≡ on_wire a
addr_from_slice-as_slice a h = slice_back (unmap a) (unmap-IsAddr a h)

-- An address that is set has 4 or 16 bytes.
pub length-as_slice :
    (a : Addr) → is_set a ≡ true → (length (as_slice a) ≡ 4) ⊎ (length (as_slice a) ≡ 16)
unfolding as_slice
length-as_slice invalid h = cc
length-as_slice (v4 n) h = inl (length-bytes_of 4 n)
length-as_slice (v6 n zone) h = inr (length-bytes_of 16 n)

pub is_set-unmap : (a : Addr) → is_set (unmap a) ≡ is_set a
unfolding unmap
is_set-unmap invalid = refl
is_set-unmap (v4 n) = refl
is_set-unmap (v6 n zone) = ground arith
