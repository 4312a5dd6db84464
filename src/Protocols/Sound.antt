-- ===== src/Protocols/Sound.antt =====
-- What Parse accepts, and the name that it reports.
use tailjump.Prelude.{
  ◌≢◌, ℕ, suc, ◌+◌, ◌≡◌, refl, sym, ap, ◌∙◌, Bool, true, false, List, [], ◌∷◌, ◌++◌, arith,
}
use tailjump.Prelude.{ok, err, All, length, ◌⊎◌, inl, inr, Outcome-cases, Bool-cases}
use tailjump.Text.{Text, text_eq, text_eq_iff, is_empty, is_empty→nil}
use tailjump.Text.Space.{trim_space}
use tailjump.Text.Split.{split, split_nonempty}
use tailjump.Protocols.{
  Set, Error, no_protocol, unknown, listed_twice, mark, parse_names, parse, resolve, resolve_first,
}
use tailjump.Protocols.{tcp_name, udp_name, icmp_name}

-- The name is one of the three, and its field is on.
abbrev pub IsOn : Set → Text → Type 0
IsOn s name =
    (name ≡ tcp_name) × (s.tcp ≡ true)
    ⊎ (name ≡ udp_name) × (s.udp ≡ true)
    ⊎ (name ≡ icmp_name) × (s.icmp ≡ true)

abbrev one_if : Bool → ℕ
one_if true = 1
one_if false = 0

-- The number of protocols of the set.
abbrev pub size : Set → ℕ
size s = one_if s.tcp + (one_if s.udp + one_if s.icmp)

-- A field that is on stays on.
abbrev Extends : Set → Set → Type 0
Extends s t =
    (s.tcp ≡ true → t.tcp ≡ true) × (s.udp ≡ true → t.udp ≡ true) × (s.icmp ≡ true → t.icmp ≡ true)

mark_sound :
    (name : Text) (s t : Set)
    → mark name s ≡ ok t
    → IsOn t name × (size t ≡ suc (size s)) × Extends s t
unfolding mark
mark_sound name s t h = ground (
  arith,
  (text_eq_iff name tcp_name).0,
  (text_eq_iff name udp_name).0,
  (text_eq_iff name icmp_name).0,
)

parse_names_step :
    (s u : Set) (name : Text) (names : List Text)
    → mark (trim_space name) s ≡ ok u
    → parse_names s (name ∷ names) ≡ parse_names u names
unfolding parse_names
parse_names_step s u name names e = rw e

parse_names_stop :
    (s : Set) (e : Error) (name : Text) (names : List Text)
    → mark (trim_space name) s ≡ err e
    → parse_names s (name ∷ names) ≡ err e
unfolding parse_names
parse_names_stop s e name names h = rw h

IsOn-Extends : (s t : Set) (name : Text) → Extends s t → IsOn s name → IsOn t name
IsOn-Extends s t name h k = ground arith

parse_names_sound :
    (s t : Set) (names : List Text)
    → parse_names s names ≡ ok t
    → All (λ n. IsOn t (trim_space n)) names × (size t ≡ size s + length names) × Extends s t
parse_names_sound s t [] h = unfold parse_names in ground arith
parse_names_sound s t (n ∷ names) h = elim (Outcome-cases (mark (trim_space n) s)) [
  | inl (u, e) ↦
      let (on, more, up) = mark_sound (trim_space n) s u e in
      let (rest, size_eq, up') =
        parse_names_sound u t names (sym (parse_names_step s u n names e) ∙ h) in
      (
        (IsOn-Extends u t (trim_space n) up' on, rest),
        omega arith,
        (λ p. up'.0 (up.0 p), λ p. up'.1 (up.1 p), λ p. up'.2 (up.2 p)),
      )
  | inr (e, r) ↦ cc (parse_names_stop s e n names r)
]

-- If Parse accepts a list, each part between the commas is, trimmed, one of the three names, its
-- protocol is in the set, and the set has as many protocols as the list has parts: no name comes
-- twice, and nothing is in the set that the list does not name.
pub parse_sound :
    (text : Text) (s : Set)
    → parse text ≡ ok s
    → All (λ n. IsOn s (trim_space n)) (split b',' text) × (size s ≡ length (split b',' text))
unfolding parse
parse_sound text s h = elim (Bool-cases (is_empty (trim_space text))) [
  | inl e ↦ cc (rw e at h)
  | inr e ↦
      let (on, size_eq, up) = parse_names_sound no_protocol s (split b',' text) (rw e at h) in
      (on, omega arith)
]

no_parts : (l : List Text) → size no_protocol ≡ length l → l ≡ []
no_parts [] h = refl
no_parts (w ∷ l) h = ground arith

-- Parse and Resolve give a set with a protocol at least.
pub parse_nonempty : (text : Text) (s : Set) → parse text ≡ ok s → s ≢ no_protocol
parse_nonempty text s h e =
    let counted = (parse_sound text s h).1 in
    split_nonempty b',' text (no_parts (split b',' text) (ap size (sym e) ∙ counted))

resolve_first_nonempty : (l : List Text) (s : Set) → resolve_first l ≡ ok s → s ≢ no_protocol
unfolding resolve_first
resolve_first_nonempty [] s h e = cc
resolve_first_nonempty ([] ∷ l) s h e = resolve_first_nonempty l s h e
resolve_first_nonempty ((c ∷ t) ∷ l) s h e = parse_nonempty (c ∷ t) s h e

pub resolve_nonempty :
    (flag remote defaults : Text) (s : Set) → resolve flag remote defaults ≡ ok s → s ≢ no_protocol
unfolding resolve
resolve_nonempty flag remote defaults s h =
    resolve_first_nonempty (flag ∷ remote ∷ defaults ∷ []) s h

abbrev IsKnown : Text → Type 0
IsKnown name = (name ≡ tcp_name) ⊎ (name ≡ udp_name) ⊎ (name ≡ icmp_name)

-- The parts before the reported one were accepted one by one, and gave the set `u`.
pub record Blames (s : Set) (names : List Text) (e : Error) : Type 0 where
  pub before : List Text
  pub name : Text
  pub after : List Text
  pub u : Set
  pub place : names ≡ before ++ (name ∷ after)
  pub accepted : parse_names s before ≡ ok u
  pub reason :
      (e ≡ unknown (trim_space name)) × ¬ IsKnown (trim_space name)
      ⊎ (e ≡ listed_twice (trim_space name)) × IsOn u (trim_space name)

not-IsKnown :
    (name : Text)
    → text_eq name tcp_name ≡ false
    → text_eq name udp_name ≡ false
    → text_eq name icmp_name ≡ false
    → ¬ IsKnown name
not-IsKnown name t u i (inl e) = cc ((text_eq_iff name tcp_name).1 e)
not-IsKnown name t u i (inr (inl e)) = cc ((text_eq_iff name udp_name).1 e)
not-IsKnown name t u i (inr (inr e)) = cc ((text_eq_iff name icmp_name).1 e)

mark_error :
    (name : Text) (s : Set) (e : Error)
    → mark name s ≡ err e
    → (e ≡ unknown name) × ¬ IsKnown name ⊎ (e ≡ listed_twice name) × IsOn s name
unfolding mark
mark_error name s e h = ground (
  arith,
  (text_eq_iff name tcp_name).0,
  (text_eq_iff name udp_name).0,
  (text_eq_iff name icmp_name).0,
  not-IsKnown name,
)

parse_names-Blames :
    (s : Set) (names : List Text) (e : Error) → parse_names s names ≡ err e → Blames s names e
parse_names-Blames s [] e h = unfold parse_names in cc
parse_names-Blames s (n ∷ names) e h = elim (Outcome-cases (mark (trim_space n) s)) [
  | inl (v, p) ↦
      let b = parse_names-Blames v names e (sym (parse_names_step s v n names p) ∙ h) in
      record {
        before = n ∷ b.before;
        name = b.name;
        after = b.after;
        u = b.u;
        place = ap (λ l. n ∷ l) b.place;
        accepted = parse_names_step s v n b.before p ∙ b.accepted;
        reason = b.reason;
      }
  | inr (e', p) ↦ record {
    before = [];
    name = n;
    after = names;
    u = s;
    place = refl;
    accepted = unfold parse_names in refl;
    reason = mark_error (trim_space n) s e (p ∙ sym (parse_names_stop s e' n names p) ∙ h);
  }
]

-- If Parse refuses a list, either the list is blank and the error is `empty_list`, or the error
-- names the first part, trimmed, that is not one of the three names or that names a protocol
-- which the parts before it have put into the set.
pub parse_error :
    (text : Text) (e : Error)
    → parse text ≡ err e
    → (e ≡ Error.empty_list) × (trim_space text ≡ []) ⊎ Blames no_protocol (split b',' text) e
unfolding parse
parse_error text e h = elim (Bool-cases (is_empty (trim_space text))) [
  | inl p ↦ inl (cc (rw p at h), is_empty→nil (trim_space text) p)
  | inr p ↦ inr (parse_names-Blames no_protocol (split b',' text) e (rw p at h))
]
