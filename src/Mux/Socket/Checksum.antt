-- ===== src/Mux/Socket/Checksum.antt =====
-- The checksum of a request.
use tailjump.Prelude.{
  ℕ, suc, ◌+◌, ◌-◌, ◌*◌, ◌/◌, ◌%◌, ◌^◌, ◌≤◌, ◌<◌, ◌==◌, ◌≡◌, refl, ap, ◌∙◌, false, List, [], ◌∷◌,
  length, arith, Bool-cases, inl, inr,
}
use tailjump.Net.Bytes.{IsBytes, u16_bytes}
use tailjump.Mux.Socket.{word_sum, fold_carries, icmp_checksum, EchoSocket, request}

-- The sum of the words of a message, as a receiver of RFC 1071 takes it.
unfoldable pub all_words : List ℕ → ℕ
all_words [] = 0
all_words (a ∷ []) = a * 2 ^ 8
all_words (a ∷ b ∷ rest) = a * 2 ^ 8 + b + all_words rest

-- The fold of a sum: the same but for a multiple of 65535, in one word, and zero for zero only.
record IsFold (sum g : ℕ) : Type 0 where
  quotient : ℕ
  equal : sum ≡ g + 65535 * quotient
  word : g < 2 ^ 16
  positive : 0 < sum → 0 < g

IsFold-step : (sum g : ℕ) → IsFold (sum % 2 ^ 16 + sum / 2 ^ 16) g → IsFold sum g
IsFold-step sum g v = record {
  quotient = v.quotient + sum / 2 ^ 16;
  equal = omega (arith, v.equal);
  word = v.word;
  positive = λ p. v.positive (omega (arith, p));
}

IsFold-same : (sum : ℕ) → sum < 2 ^ 16 → IsFold sum sum
IsFold-same sum h = record { quotient = 0; equal = omega arith; word = h; positive = λ p. p }

IsFold-round :
    (rounds sum : ℕ)
    → IsFold (sum % 2 ^ 16 + sum / 2 ^ 16) (fold_carries rounds (sum % 2 ^ 16 + sum / 2 ^ 16))
    → IsFold sum (fold_carries (suc rounds) sum)
unfolding fold_carries
IsFold-round rounds sum v = elim (Bool-cases (sum / 2 ^ 16 == 0)) [
  | inl e ↦ rw e (IsFold-same sum (ground (arith, e)))
  | inr e ↦ rw e (IsFold-step sum _ v)
]

-- Two rounds are enough for a uint32.
fold_carries-IsFold : (sum : ℕ) → sum < 2 ^ 32 → IsFold sum (fold_carries 2 sum)
unfolding fold_carries
fold_carries-IsFold sum h =
    let one = sum % 2 ^ 16 + sum / 2 ^ 16 in
    let two = one % 2 ^ 16 + one / 2 ^ 16 in
    IsFold-round 1 sum (IsFold-round 0 one (IsFold-same two (omega arith)))

-- Behind the checksum, the sum of the sender skips nothing.
word_sum-all_words : (i : ℕ) (msg : List ℕ) → 2 < i → word_sum i msg ≡ all_words msg
unfolding word_sum all_words
word_sum-all_words i [] h = refl
word_sum-all_words i (a ∷ []) h = refl
word_sum-all_words i (a ∷ b ∷ rest) h = elim (Bool-cases (i == 2)) [
  | inl e ↦ absurd (ground (arith, h, e))
  | inr e ↦ rw e (ap (λ n. a * 2 ^ 8 + b + n) (word_sum-all_words (i + 2) rest (omega arith)))
]

all_words_bound : (msg : List ℕ) → IsBytes msg → all_words msg ≤ 2 ^ 16 * length msg
unfolding all_words
all_words_bound [] h = omega arith
all_words_bound (a ∷ []) h = omega (arith, h.0)
all_words_bound (a ∷ b ∷ rest) h = omega (arith, h.0, h.1.0, all_words_bound rest h.1.1)

-- A checksum that completes the sum folds to 65535.
completed :
    (sum : ℕ)
    → 0 < sum
    → sum < 2 ^ 31
    → fold_carries 2 (sum + (2 ^ 16 - 1 - fold_carries 2 sum)) ≡ 2 ^ 16 - 1
completed sum p h =
    let k = fold_carries-IsFold sum (omega arith) in
    let v = fold_carries-IsFold (sum + (2 ^ 16 - 1 - fold_carries 2 sum)) (omega arith) in
    omega (arith, k.equal, k.word, v.equal, v.word, v.positive (omega arith))

word_back : (k : ℕ) → k < 2 ^ 16 → k / 2 ^ 8 % 256 * 2 ^ 8 + k % 256 ≡ k
word_back k h = omega arith

head_words :
    (type k : ℕ) (rest : List ℕ)
    → k < 2 ^ 16
    → all_words (type ∷ 0 ∷ u16_bytes k rest) ≡ type * 2 ^ 8 + all_words rest + k
unfolding all_words
head_words type k rest h = omega (arith, word_back k h)

head_sum :
    (type : ℕ) (rest : List ℕ)
    → word_sum 0 (type ∷ 0 ∷ u16_bytes 0 rest) ≡ type * 2 ^ 8 + all_words rest
unfolding word_sum
head_sum type rest = omega (arith, word_sum-all_words 4 rest (omega arith))

whole_sum :
    (type : ℕ) (rest : List ℕ)
    → type < 256
    → all_words rest < 2 ^ 31 - 2 ^ 16
    → word_sum 0 (type ∷ 0 ∷ u16_bytes 0 rest) % 2 ^ 32 ≡ type * 2 ^ 8 + all_words rest
whole_sum type rest t h = omega (arith, head_sum type rest)

-- A message whose checksum is that of icmpChecksum.
summed_folds :
    (type : ℕ) (rest : List ℕ)
    → 0 < type
    → type < 256
    → all_words rest < 2 ^ 31 - 2 ^ 16
    → fold_carries 2
        (all_words (type ∷ 0 ∷ u16_bytes (icmp_checksum (type ∷ 0 ∷ u16_bytes 0 rest)) rest))
      ≡ 2 ^ 16 - 1
unfolding icmp_checksum
summed_folds type rest p t h =
    let sum = type * 2 ^ 8 + all_words rest in
    let k = 2 ^ 16 - 1 - fold_carries 2 sum in
    ap (λ n. fold_carries 2 (all_words (type ∷ 0 ∷ u16_bytes (2 ^ 16 - 1 - fold_carries 2 n) rest)))
      (whole_sum type rest t h)
    ∙ ap (fold_carries 2) (head_words type k rest (omega arith))
    ∙ completed sum (omega arith) (omega arith)

words_bound :
    (a b c d : ℕ) (payload : List ℕ)
    → a < 256
    → c < 256
    → b < 256
    → d < 256
    → IsBytes payload
    → length payload < 32000
    → all_words (a ∷ b ∷ c ∷ d ∷ payload) < 2 ^ 31 - 2 ^ 16
unfolding all_words
words_bound a b c d payload p q r t h l = omega (arith, all_words_bound payload h)

-- A receiver that sums the words of a request of an IPv4 socket, its checksum among them, gets 65535,
-- for every payload of fewer than 32000 bytes.
pub request_sums :
    (s : EchoSocket) (seq : ℕ) (payload : List ℕ)
    → s.v6 ≡ false
    → IsBytes payload
    → length payload < 32000
    → fold_carries 2 (all_words (request s seq payload)) ≡ 2 ^ 16 - 1
unfolding request
request_sums s seq payload four h l = rw four (
    summed_folds 8 (u16_bytes s.ident (u16_bytes seq payload)) (omega arith) (omega arith)
      (words_bound _ _ _ _ payload (omega arith) (omega arith) (omega arith) (omega arith) h l))
