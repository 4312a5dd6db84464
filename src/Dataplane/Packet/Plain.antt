-- ===== src/Dataplane/Packet/Plain.antt =====
-- Headers that keep their fields in their first bytes: the laws of the headers can hold.
use tailjump.Prelude.{ℕ, zero, suc, refl, true, Option, none, some, List, [], ◌∷◌, drop}
use tailjump.Net.{Addr, invalid, v4, v6}
use tailjump.Dataplane.Packet.{Headers, View}
use tailjump.Dataplane.Packet.Built.{IsHeaders}

abbrev pub zeros : ℕ → List ℕ
zeros zero = []
zeros (suc n) = 0 ∷ zeros n

abbrev pub number : Addr → ℕ
number invalid = 0
number (v4 n) = n
number (v6 n zone) = n

abbrev pub plain_view : (ℕ → Addr) → ℕ → List ℕ → Option View
plain_view make skip (b ∷ s ∷ d ∷ p ∷ rest) = some (record {
  src = make s;
  dst = make d;
  protocol = p;
  ttl = 64;
  whole = true;
  body = drop skip rest;
})
plain_view make skip [] = none
plain_view make skip (a ∷ []) = none
plain_view make skip (a ∷ b ∷ []) = none
plain_view make skip (a ∷ b ∷ c ∷ []) = none

abbrev pub headers : Headers
headers = record {
  view4 = plain_view v4 16;
  view6 = plain_view (λ n. v6 n []) 36;
  encode4 = λ src dst p n. 64 ∷ number src ∷ number dst ∷ p ∷ zeros 16;
  encode6 = λ src dst p n. 96 ∷ number src ∷ number dst ∷ p ∷ zeros 36;
  checksum4 = λ l. 0;
  checksum6 = λ src dst l. 0;
}

abbrev pub headers-IsHeaders : IsHeaders headers
headers-IsHeaders = record {
  length4 = λ src dst p n. refl;
  length6 = λ src dst p n. refl;
  starts4 = λ src dst p n. record {
    byte = 64;
    rest = number src ∷ number dst ∷ p ∷ zeros 16;
    shape = refl;
    version_eq = refl;
  };
  starts6 = λ src dst p n. record {
    byte = 96;
    rest = number src ∷ number dst ∷ p ∷ zeros 36;
    shape = refl;
    version_eq = refl;
  };
  read4 = λ m n p body a b c l. refl;
  read6 = λ m n p body a b c l. refl;
}
