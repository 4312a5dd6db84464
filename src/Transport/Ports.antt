-- ===== src/Transport/Ports.antt =====
-- The QUIC port range of internal/transport/transport.go.
use tailjump.Prelude.{ℕ, ◌^◌, ◌≤◌, ◌<◌, ◌≡◌, refl, Bool, true, ◌&&◌, arith}
use tailjump.Prelude.{◌++◌, leb, ltb, ◌==◌, if◌then◌else◌, All-append}
use tailjump.Prelude.{Outcome, ok, err}
use tailjump.Text.{Text, str}
use tailjump.Text.Space.{is_space, IsSolid, trim_space, trim_space_solid}
use tailjump.Text.Split.{cut, cut-append}
use tailjump.Text.Decimal.{NumError, parse_uint, parse_uint-lt, decimal, decimal-IsDigits}
use tailjump.Text.Decimal.{parse_uint-decimal, IsDigits→IsSolid, IsDigits→Lacks}

-- The inclusive UDP port range the helper listens in, of two uint16.
pub record PortRange : Type 0 where
  pub first : ℕ
  pub last : ℕ

abbrev pub default_ports : PortRange
default_ports = record { first = 7443; last = 7452 }

pub data RangeError : Type 0 where
  bad_first bad_last : Text → RangeError
  above_last : RangeError

-- `parsePort`: the error is the port's text.
abbrev port_of : Text → Outcome NumError ℕ → Outcome Text ℕ
port_of s (ok n) = if n == 0 then err s else ok n
port_of s (err e) = err s

unfoldable pub parse_port : Text → Outcome Text ℕ
parse_port s = port_of s (parse_uint 16 (trim_space s))

-- ParsePortRange with both ports parsed: the last port is read where the first one is good.
abbrev range_of : Outcome Text ℕ → Outcome Text ℕ → Outcome RangeError PortRange
range_of (err e) last = err (bad_first e)
range_of (ok lo) (err e) = err (bad_last e)
range_of (ok lo) (ok hi) =
    if ltb hi lo then err above_last else ok (record { first = lo; last = hi })

unfoldable pub parse_port_range : Text → Outcome RangeError PortRange
parse_port_range s =
    let parts = cut b'-' (trim_space s) in
    range_of (parse_port parts.0) (parse_port (if parts.2 then parts.1 else parts.0))

unfoldable pub to_string : PortRange → Text
to_string r = decimal r.first ++ (str "-" ++ decimal r.last)

pub contains : PortRange → ℕ → Bool
contains r p = leb r.first p && leb p r.last

-- The tailnet policy entry that passes the range.
unfoldable pub policy_rule : PortRange → Text
policy_rule r = str "udp:" ++ (decimal r.first ++ (str "-" ++ decimal r.last))

-- Two ports other than 0, in order.
pub record IsValid (r : PortRange) : Type 0 where
  pub positive : 0 < r.first
  pub ordered : r.first ≤ r.last
  pub fits : r.last < 2 ^ 16

parse_port-decimal : (n : ℕ) → 0 < n → n < 2 ^ 16 → parse_port (decimal n) ≡ ok n
unfolding parse_port
parse_port-decimal n h k =
    rw
      (
        trim_space_solid (decimal n) (IsDigits→IsSolid _ (decimal-IsDigits n)),
        parse_uint-decimal 16 n k,
      )
      (ground arith)

port_of_bounds :
    (s : Text) (p : Outcome NumError ℕ) (n : ℕ)
    → ((v : ℕ) → p ≡ ok v → v < 2 ^ 16)
    → port_of s p ≡ ok n
    → (0 < n) × (n < 2 ^ 16)
port_of_bounds s (ok v) n h e = ground (arith, h v refl)
port_of_bounds s (err e) n h k = cc

parse_port_bounds : (s : Text) (n : ℕ) → parse_port s ≡ ok n → (0 < n) × (n < 2 ^ 16)
unfolding parse_port
parse_port_bounds s n h = port_of_bounds s _ n (parse_uint-lt 16 (trim_space s)) h

pub to_string-IsSolid : (r : PortRange) → IsSolid (to_string r)
unfolding to_string
to_string-IsSolid r =
    All-append _ (decimal r.first) (str "-" ++ decimal r.last)
      (IsDigits→IsSolid _ (decimal-IsDigits r.first))
      (unfold is_space in refl, IsDigits→IsSolid _ (decimal-IsDigits r.last))

-- ParsePortRange reads back what String printed.
pub parse_port_range-to_string : (r : PortRange) → IsValid r → parse_port_range (to_string r) ≡ ok r
unfolding parse_port_range
parse_port_range-to_string r v =
    rw
      (
        trim_space_solid (to_string r) (to_string-IsSolid r),
        cut_range r,
        parse_port-decimal r.first v.positive (omega arith),
        parse_port-decimal r.last (omega arith) v.fits,
      )
      (ground arith)
  where
    cut_range : (r : PortRange) → cut b'-' (to_string r) ≡ (decimal r.first, decimal r.last, true)
    cut_range r =
        unfold to_string in
        cut-append b'-' (decimal r.first) (decimal r.last)
          (IsDigits→Lacks b'-' _ refl (decimal-IsDigits r.first))

range_of-IsValid :
    (p q : Outcome Text ℕ) (r : PortRange)
    → ((n : ℕ) → p ≡ ok n → (0 < n) × (n < 2 ^ 16))
    → ((n : ℕ) → q ≡ ok n → (0 < n) × (n < 2 ^ 16))
    → range_of p q ≡ ok r
    → IsValid r
range_of-IsValid (err e) q r hp hq h = cc
range_of-IsValid (ok lo) (err e) r hp hq h = cc
range_of-IsValid (ok lo) (ok hi) r hp hq h = ground (arith, hp lo refl, hq hi refl)

parsed_IsValid : (s : Text) (r : PortRange) → parse_port_range s ≡ ok r → IsValid r
unfolding parse_port_range
parsed_IsValid s r h = range_of-IsValid _ _ r (parse_port_bounds _) (parse_port_bounds _) h

-- Whatever ParsePortRange accepts is a range of ports other than 0, in order, so it prints and
-- reads back as itself.
pub parse_port_range-IsValid :
    (s : Text) (r : PortRange)
    → parse_port_range s ≡ ok r
    → IsValid r × (parse_port_range (to_string r) ≡ ok r)
parse_port_range-IsValid s r h = let v = parsed_IsValid s r h in (v, parse_port_range-to_string r v)
