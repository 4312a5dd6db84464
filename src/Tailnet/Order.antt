-- ===== src/Tailnet/Order.antt =====
-- The selection loop of both resolvers: the first candidate, replaced by each better one.
use tailjump.Prelude.{
  ◌≡◌, refl, Bool, true, false, List, [], ◌∷◌, if◌then◌else◌, All, Bool-cases, inl, inr,
}
use mathlib.Core.List.{Memᴰ}
use tailjump.Prelude.{subst}
use tailjump.Prelude.{sym}

unfoldable pub best_of {ℓ} : {A : Type ℓ} → (A → A → Bool) → A → List A → A
best_of better best [] = best
best_of better best (x ∷ xs) = best_of better (if better x best then x else best) xs

-- What `better` has in common with the order by which it ranks.
pub record IsRanking {ℓ} {A : Type ℓ} (better : A → A → Bool) : Type ℓ where
  pub irrefl : (a : A) → better a a ≡ false
  pub trans : (a b c : A) → better a b ≡ false → better b c ≡ false → better a c ≡ false
  pub beats : (a b c : A) → better a b ≡ true → better a c ≡ false → better b c ≡ false

-- A candidate that no candidate beats.
abbrev pub IsBest {ℓ} : {A : Type ℓ} → (A → A → Bool) → A → List A → Type ℓ
IsBest better r xs = Memᴰ r xs × All (λ x. better x r ≡ false) xs

skip_mem {ℓ} : {A : Type ℓ} {r b x : A} {xs : List A} → Memᴰ r (b ∷ xs) → Memᴰ r (b ∷ x ∷ xs)
skip_mem (Memᴰ.head p) = Memᴰ.head p
skip_mem (Memᴰ.tail q) = Memᴰ.tail (Memᴰ.tail q)

module _ {ℓ} {A : Type ℓ} (better : A → A → Bool) (o : IsRanking better) where
  best_of_step :
      (b x : A) (xs : List A) {t : Bool}
      → better x b ≡ t
      → best_of better b (x ∷ xs) ≡ best_of better (if t then x else b) xs
  unfolding best_of
  best_of_step b x xs e = rw e

  -- The result is one of the candidates, and no candidate is better.
  pub best_of-IsBest : (b : A) (xs : List A) → IsBest better (best_of better b xs) (b ∷ xs)
  best_of-IsBest b [] = unfold best_of in (Memᴰ.head refl, (o.irrefl b, tt))
  best_of-IsBest b (x ∷ xs) = elim (Bool-cases (better x b)) [
    | inl e ↦
        let (m, h) = best_of-IsBest x xs in
        subst (λ r. IsBest better r (b ∷ x ∷ xs)) (sym (best_of_step b x xs e))
          (Memᴰ.tail m, (o.beats x b _ e h.0, h))
    | inr e ↦
        let (m, h) = best_of-IsBest b xs in
        subst (λ r. IsBest better r (b ∷ x ∷ xs)) (sym (best_of_step b x xs e))
          (skip_mem m, (h.0, (o.trans x b _ e h.0, h.1)))
  ]
