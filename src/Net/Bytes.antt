-- ===== src/Net/Bytes.antt =====
-- Big-endian numbers of any width, and the two widths of the frames written out.
use tailjump.Prelude.{ℕ, zero, suc, ◌+◌, ◌*◌, ◌/◌, ◌%◌, ◌^◌, ◌<◌, ◌≡◌, refl, ap, ◌∙◌, arith}
use tailjump.Prelude.{List, [], ◌∷◌, ◌++◌, All, All-append, length, length-append}
use native.Mathlib.Nat.{pow-suc}

abbrev pub IsByte : ℕ → Type 0
IsByte b = b < 256

abbrev pub IsBytes : List ℕ → Type 0
IsBytes = All IsByte

-- The lowest `k` bytes of `n`, the highest first.
unfoldable pub bytes_of : ℕ → ℕ → List ℕ
bytes_of zero n = []
bytes_of (suc k) n = bytes_of k (n / 256) ++ ((n % 256) ∷ [])

unfoldable pub number_from : ℕ → List ℕ → ℕ
number_from acc [] = acc
number_from acc (b ∷ bs) = number_from (acc * 256 + b) bs

unfoldable pub number_of : List ℕ → ℕ
unfolding number_from
number_of = number_from 0

number_from-append :
    (acc : ℕ) (s t : List ℕ) → number_from acc (s ++ t) ≡ number_from (number_from acc s) t
unfolding number_from
number_from-append acc [] t = refl
number_from-append acc (b ∷ s) t = number_from-append (acc * 256 + b) s t

pub length-bytes_of : (k n : ℕ) → length (bytes_of k n) ≡ k
unfolding bytes_of
length-bytes_of zero n = refl
length-bytes_of (suc k) n =
    omega
      (arith, length-append (bytes_of k (n / 256)) ((n % 256) ∷ []), length-bytes_of k (n / 256))

pub bytes_of-IsBytes : (k n : ℕ) → IsBytes (bytes_of k n)
unfolding bytes_of
bytes_of-IsBytes zero n = tt
bytes_of-IsBytes (suc k) n =
    All-append IsByte (bytes_of k (n / 256)) ((n % 256) ∷ []) (bytes_of-IsBytes k (n / 256))
      (omega arith, tt)

pub number_of-bytes_of : (k n : ℕ) → n < 256 ^ k → number_of (bytes_of k n) ≡ n
unfolding number_of bytes_of
number_of-bytes_of zero n h = omega arith
number_of-bytes_of (suc k) n h =
    let small : n / 256 < 256 ^ k = omega (arith, pow-suc 256 k) in
    number_from-append 0 (bytes_of k (n / 256)) ((n % 256) ∷ [])
    ∙ ap (λ v. v * 256 + n % 256) (number_of-bytes_of k (n / 256) small)
    ∙ omega arith

-- `binary.BigEndian.PutUint16` and `PutUint32`, and their readers.
abbrev pub u16_bytes : ℕ → List ℕ → List ℕ
u16_bytes n rest = (n / 2 ^ 8 % 256) ∷ (n % 256) ∷ rest

abbrev pub u32_bytes : ℕ → List ℕ → List ℕ
u32_bytes n rest = (n / 2 ^ 24 % 256) ∷ (n / 2 ^ 16 % 256) ∷ (n / 2 ^ 8 % 256) ∷ (n % 256) ∷ rest

abbrev pub u16 : ℕ → ℕ → ℕ
u16 a b = a * 2 ^ 8 + b

abbrev pub u32 : ℕ → ℕ → ℕ → ℕ → ℕ
u32 a b c d = a * 2 ^ 24 + b * 2 ^ 16 + c * 2 ^ 8 + d
