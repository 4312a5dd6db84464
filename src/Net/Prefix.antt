-- ===== src/Net/Prefix.antt =====
-- `netip.Prefix` as far as the program uses it.
use tailjump.Prelude.{ℕ, ◌-◌, ◌/◌, ◌^◌, ◌==◌, ◌≡◌, Bool, true, false, if◌then◌else◌, ==_refl}
use tailjump.Text.{is_empty}
use tailjump.Net.{Addr, invalid, v4, v6, is_set, without_zone}
use tailjump.Prelude.{not, ◌||◌}
use tailjump.Prelude.{◌*◌}

pub record Prefix : Type 0 where
  pub addr : Addr
  pub bits : ℕ

-- `Addr.BitLen`, and the address as a number.
abbrev pub bit_len : Addr → ℕ
bit_len invalid = 0
bit_len (v4 n) = 32
bit_len (v6 n zone) = 128

abbrev pub number : Addr → ℕ
number invalid = 0
number (v4 n) = n
number (v6 n zone) = n

abbrev pub has_zone : Addr → Bool
has_zone (v6 n zone) = not (is_empty zone)
has_zone invalid = false
has_zone (v4 n) = false

-- `Prefix.Contains`: no address with a zone, none of another family.
unfoldable pub contains : Prefix → Addr → Bool
contains p ip =
    if has_zone ip || not (bit_len p.addr == bit_len ip) || bit_len ip == 0
    then false
    else let d = 2 ^ (bit_len ip - p.bits) in (number ip / d == number p.addr / d)

-- `netip.PrefixFrom(a, a.BitLen())`.
abbrev pub host_prefix : Addr → Prefix
host_prefix a = record { addr = without_zone a; bits = bit_len a }

pub host_prefix-contains :
    (a : Addr) → is_set a ≡ true → has_zone a ≡ false → contains (host_prefix a) a ≡ true
unfolding contains
host_prefix-contains invalid h z = cc
host_prefix-contains (v4 n) h z = ==_refl (n / 2 ^ (32 - 32))
host_prefix-contains (v6 n zone) h z = rw z (==_refl (n / 2 ^ (128 - 128)))

-- `Prefix.Masked`: the bits behind the prefix are cleared.
abbrev pub masked_addr : Addr → ℕ → Addr
masked_addr invalid d = invalid
masked_addr (v4 n) d = v4 (n / 2 ^ d * 2 ^ d)
masked_addr (v6 n zone) d = v6 (n / 2 ^ d * 2 ^ d) zone

abbrev pub masked : Prefix → Prefix
masked p = record p { addr = masked_addr p.addr (bit_len p.addr - p.bits) }
