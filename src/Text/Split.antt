-- ===== src/Text/Split.antt =====
-- strings.Cut, strings.Split, strings.Join with a separator of one rune, and strings.Fields.
use tailjump.Prelude.{ℕ, ◌≡◌, refl, sym, ap, ◌∙◌, Bool, true, false, List, [], ◌∷◌, ◌++◌}
use tailjump.Prelude.{◌==◌, ==_refl, if◌then◌else◌, All, append_assoc, append-nil}
use tailjump.Text.{Text}
use tailjump.Text.Space.{is_space, IsSolid, IsWord}
use tailjump.Prelude.{Bool-cases, ◌≢◌}
use tailjump.Prelude.{inl, subst}
use tailjump.Prelude.{inr}

abbrev pub Lacks : ℕ → Text → Type 0
Lacks sep = All (λ c. (c == sep) ≡ false)

-- What stands before and after the first separator, and whether there is one.
unfoldable pub cut : ℕ → Text → Text × Text × Bool
cut sep [] = ([], [], false)
cut sep (c ∷ s) =
    let rest = cut sep s in if c == sep then ([], s, true) else (c ∷ rest.0, rest.1, rest.2)

pub cut-append : (sep : ℕ) (s t : Text) → Lacks sep s → cut sep (s ++ (sep ∷ t)) ≡ (s, t, true)
unfolding cut
cut-append sep [] t h = rw (==_refl sep)
cut-append sep (c ∷ s) t h = rw (h.0, cut-append sep s t h.1)

pub cut_none : (sep : ℕ) (s : Text) → Lacks sep s → cut sep s ≡ (s, [], false)
unfolding cut
cut_none sep [] h = refl
cut_none sep (c ∷ s) h = rw (h.0, cut_none sep s h.1)

abbrev put_front : ℕ → List Text → List Text
put_front c [] = (c ∷ []) ∷ []
put_front c (w ∷ ws) = (c ∷ w) ∷ ws

-- The first part is always there, so `put_front` never meets the empty list.
unfoldable pub split : ℕ → Text → List Text
split sep [] = [] ∷ []
split sep (c ∷ s) = let rest = split sep s in if c == sep then [] ∷ rest else put_front c rest

unfoldable pub join : Text → List Text → Text
join sep [] = []
join sep (w ∷ []) = w
join sep (w ∷ v ∷ ws) = w ++ (sep ++ join sep (v ∷ ws))

split_word : (sep : ℕ) (w : Text) → Lacks sep w → split sep w ≡ w ∷ []
unfolding split
split_word sep [] h = refl
split_word sep (c ∷ w) h = rw (h.0, split_word sep w h.1)

pub split-append :
    (sep : ℕ) (w s : Text) → Lacks sep w → split sep (w ++ (sep ∷ s)) ≡ w ∷ split sep s
unfolding split
split-append sep [] s h = rw (==_refl sep)
split-append sep (c ∷ w) s h = rw (h.0, split-append sep w s h.1)

split-join_step :
    (sep : ℕ) (w v : Text) (ws : List Text)
    → Lacks sep w
    → split sep (join (sep ∷ []) (w ∷ v ∷ ws)) ≡ w ∷ split sep (join (sep ∷ []) (v ∷ ws))
unfolding join
split-join_step sep w v ws h = split-append sep w (join (sep ∷ []) (v ∷ ws)) h

-- Splitting undoes joining, where there is a part and no part has the separator.
pub split-join :
    (sep : ℕ) (w : Text) (ws : List Text)
    → Lacks sep w
    → All (Lacks sep) ws
    → split sep (join (sep ∷ []) (w ∷ ws)) ≡ w ∷ ws
split-join sep w [] h k = unfold join in split_word sep w h
split-join sep w (v ∷ ws) h k =
    split-join_step sep w v ws h ∙ ap (λ l. w ∷ l) (split-join sep v ws k.0 k.1)

-- `strings.Fields`: the runs of runes that are no spaces. `cur` is the run being read.
abbrev flush : Text → List Text → List Text
flush [] ws = ws
flush (c ∷ s) ws = (c ∷ s) ∷ ws

unfoldable pub fields_from : Text → Text → List Text
fields_from cur [] = flush cur []
fields_from cur (c ∷ s) =
    let ended = flush cur (fields_from [] s) in
    let longer = fields_from (cur ++ (c ∷ [])) s in if is_space c then ended else longer

unfoldable pub fields : Text → List Text
unfolding fields_from is_space
fields s = fields_from [] s

fields_run : (cur w s : Text) → IsSolid w → fields_from cur (w ++ s) ≡ fields_from (cur ++ w) s
unfolding fields_from
fields_run cur [] s h = ap (λ t. fields_from t s) (rw append-nil)
fields_run cur (c ∷ w) s h =
    rw h.0 (
      fields_run (cur ++ (c ∷ [])) w s h.1
      ∙ ap (λ t. fields_from t s) (append_assoc cur (c ∷ []) w))

fields_flush :
    (c : ℕ) (cur s : Text)
    → is_space c ≡ true
    → IsWord cur
    → fields_from cur (c ∷ s) ≡ cur ∷ fields_from [] s
unfolding fields_from
fields_flush c [] s h k = absurd k
fields_flush c (d ∷ cur) s h k = rw h

-- A word and a space in front of a text.
pub fields_cons :
    (w : Text) (c : ℕ) (s : Text)
    → IsWord w
    → is_space c ≡ true
    → fields (w ++ (c ∷ s)) ≡ w ∷ fields s
fields_cons [] c s h k = absurd h
fields_cons (d ∷ w) c s h k =
    unfold fields in fields_run [] (d ∷ w) (c ∷ s) h ∙ fields_flush c (d ∷ w) s k h

-- The last word.
pub fields_last : (w : Text) → IsWord w → fields w ≡ w ∷ []
fields_last [] h = absurd h
fields_last (d ∷ w) h =
    unfold fields in
    ap (fields_from []) (sym (append-nil (d ∷ w)))
    ∙ fields_run [] (d ∷ w) [] h
    ∙ unfold fields_from in refl

-- There is a first part always.
abbrev HasPart : List Text → Type 0
HasPart [] = ⊥
HasPart (w ∷ ws) = Unit

put_front-HasPart : (c : ℕ) (ws : List Text) → HasPart (put_front c ws)
put_front-HasPart c [] = tt
put_front-HasPart c (w ∷ ws) = tt

split-HasPart : (sep : ℕ) (s : Text) → HasPart (split sep s)
unfolding split
split-HasPart sep [] = tt
split-HasPart sep (c ∷ s) = elim (Bool-cases (c == sep)) [
  | inl h ↦ rw h tt
  | inr h ↦ rw h (put_front-HasPart c (split sep s))
]

pub split_nonempty : (sep : ℕ) (s : Text) → split sep s ≢ []
split_nonempty sep s h = subst HasPart h (split-HasPart sep s)
