-- ===== src/Cli/Alias/Remotes.antt =====
-- The map of the remotes after a write and after a delete.
use tailjump.Prelude.{
  ◌≡◌, refl, ap, ◌∙◌, subst, Bool, true, false, ◌&&◌, ◌||◌, if◌then◌else◌, List, [], ◌∷◌, All,
  arith, Bool-cases, inl, inr,
}
use tailjump.Text.{Text, text_eq, text_eq_iff, text_eq_refl}
use tailjump.Config.{RemoteConfig, no_remote, remote_of}
use tailjump.Cli.Alias.{has_key, put, delete}

pick_same {ℓ} :
    {A : Type ℓ} (b : Bool) (x y z : A)
    → (if b then x else z) ≡ (if b then x else (if b then y else z))
pick_same true x y z = refl
pick_same false x y z = refl

pick_other {ℓ} :
    {A : Type ℓ} (b c : Bool) (x y z : A)
    → b && c ≡ false
    → (if b then y else (if c then x else z)) ≡ (if c then x else (if b then y else z))
pick_other true true x y z h = cc
pick_other true false x y z h = refl
pick_other false c x y z h = refl

-- Two names that differ do not both equal a third.
not_both : (s t u : Text) → text_eq s t ≡ false → text_eq s u && text_eq t u ≡ false
not_both s t u h = elim (Bool-cases (text_eq s u && text_eq t u)) [
  | inr e ↦ e
  | inl e ↦ ground (arith, (text_eq_iff s t).1, (text_eq_iff s u).0, (text_eq_iff t u).0)
]

pub remote_of-put :
    (name : Text) (rc : RemoteConfig) (l : List (Text × RemoteConfig)) (other : Text)
    → remote_of (put name rc l) other ≡ (if text_eq name other then rc else remote_of l other)
unfolding remote_of put
remote_of-put name rc [] other = refl
remote_of-put name rc (e ∷ l) other = elim (Bool-cases (text_eq e.0 name)) [
  | inl h ↦
      ap (λ t. remote_of (if t then (e.0, rc) ∷ l else e ∷ put name rc l) other) h
      ∙ subst
          (λ n. (if text_eq e.0 other then rc else remote_of l other) ≡ (
            if text_eq n other then rc else (if text_eq e.0 other then e.1 else remote_of l other)))
          ((text_eq_iff e.0 name).0 h) (pick_same (text_eq e.0 other) rc e.1 (remote_of l other))
  | inr h ↦
      ap (λ t. remote_of (if t then (e.0, rc) ∷ l else e ∷ put name rc l) other) h
      ∙ ap (λ t. if text_eq e.0 other then e.1 else t) (remote_of-put name rc l other)
      ∙ pick_other (text_eq e.0 other) (text_eq name other) rc e.1 (remote_of l other)
          (not_both e.0 name other h)
]

pub remote_of-delete :
    (name : Text) (l : List (Text × RemoteConfig)) (other : Text)
    → remote_of (delete name l) other
      ≡ (if text_eq name other then no_remote else remote_of l other)
unfolding remote_of delete
remote_of-delete name [] other =
    elim (text_eq name other) as (λ b. no_remote ≡ (if b then no_remote else no_remote)) [
      | true ↦ refl
      | false ↦ refl
    ]
remote_of-delete name (e ∷ l) other = elim (Bool-cases (text_eq e.0 name)) [
  | inl h ↦
      ap (λ t. remote_of (if t then delete name l else e ∷ delete name l) other) h
      ∙ remote_of-delete name l other
      ∙ subst
          (λ n. (if text_eq n other then no_remote else remote_of l other) ≡ (
            if text_eq n other
            then no_remote
            else (if text_eq e.0 other then e.1 else remote_of l other)))
          ((text_eq_iff e.0 name).0 h)
          (pick_same (text_eq e.0 other) no_remote e.1 (remote_of l other))
  | inr h ↦
      ap (λ t. remote_of (if t then delete name l else e ∷ delete name l) other) h
      ∙ ap (λ t. if text_eq e.0 other then e.1 else t) (remote_of-delete name l other)
      ∙ pick_other (text_eq e.0 other) (text_eq name other) no_remote e.1 (remote_of l other)
          (not_both e.0 name other h)
]

-- A test on the entry that each key of the map leads to.
abbrev pub Each :
    (RemoteConfig → Bool) → (Text → RemoteConfig) → List (Text × RemoteConfig) → Type 0
Each ok_remote look = All (λ e. ok_remote (look e.0) ≡ true)

pub Each-put :
    (f : RemoteConfig → Bool) (look : Text → RemoteConfig) (name : Text) (rc : RemoteConfig)
    (l : List (Text × RemoteConfig))
    → f rc ≡ true
    → Each f look l
    → Each f (λ other. if text_eq name other then rc else look other) (put name rc l)
unfolding put
Each-put f look name rc [] h k = (ap f (rw (text_eq_refl name) refl) ∙ h, tt)
Each-put f look name rc (e ∷ l) h k = elim (Bool-cases (text_eq e.0 name)) [
  | inl p ↦ rw p (either (text_eq name e.0) h k.0, rest l k.1)
  | inr p ↦ rw p (either (text_eq name e.0) h k.0, Each-put f look name rc l h k.1)
]
  where
    either :
        (b : Bool) {x y : RemoteConfig} → f x ≡ true → f y ≡ true → f (if b then x else y) ≡ true
    either true h k = h
    either false h k = k

    rest :
        (l : List (Text × RemoteConfig))
        → Each f look l
        → Each f (λ other. if text_eq name other then rc else look other) l
    rest [] k = tt
    rest (e ∷ l) k = (either (text_eq name e.0) h k.0, rest l k.1)

pub Each-delete :
    (f : RemoteConfig → Bool) (look : Text → RemoteConfig) (name : Text)
    (l : List (Text × RemoteConfig))
    → Each f look l
    → Each f (λ other. if text_eq name other then no_remote else look other) (delete name l)
unfolding delete
Each-delete f look name [] k = tt
Each-delete f look name (e ∷ l) k = elim (Bool-cases (text_eq e.0 name)) [
  | inl p ↦ rw p (Each-delete f look name l k.1)
  | inr p ↦ rw p (kept (text_eq name e.0) (differ p) k.0, Each-delete f look name l k.1)
]
  where
    kept :
        (b : Bool) {y : RemoteConfig}
        → b ≡ false
        → f y ≡ true
        → f (if b then no_remote else y) ≡ true
    kept true h k = cc
    kept false h k = k

    differ : text_eq e.0 name ≡ false → text_eq name e.0 ≡ false
    differ p = elim (Bool-cases (text_eq name e.0)) [
      | inr h ↦ h
      | inl h ↦ ground (arith, (text_eq_iff name e.0).0, (text_eq_iff e.0 name).1)
    ]

-- An entry of a key that is there.
pub Each-has_key :
    (f : RemoteConfig → Bool) (look : Text → RemoteConfig) (name : Text)
    (l : List (Text × RemoteConfig))
    → has_key l name ≡ true
    → Each f look l
    → f (look name) ≡ true
unfolding has_key
Each-has_key f look name [] h k = cc
Each-has_key f look name (e ∷ l) h k = elim (Bool-cases (text_eq e.0 name)) [
  | inl p ↦ subst (λ n. f (look n) ≡ true) ((text_eq_iff e.0 name).0 p) k.0
  | inr p ↦ Each-has_key f look name l (rw p at h) k.1
]

pub has_key-put :
    (name : Text) (rc : RemoteConfig) (l : List (Text × RemoteConfig))
    → has_key (put name rc l) name ≡ true
unfolding has_key put
has_key-put name rc [] = rw (text_eq_refl name) refl
has_key-put name rc (e ∷ l) = elim (Bool-cases (text_eq e.0 name)) [
  | inl h ↦
      ap (λ t. has_key (if t then (e.0, rc) ∷ l else e ∷ put name rc l) name) h
      ∙ ap (λ b. b || has_key l name) h
  | inr h ↦
      ap (λ t. has_key (if t then (e.0, rc) ∷ l else e ∷ put name rc l) name) h
      ∙ ap (λ b. b || has_key (put name rc l) name) h
      ∙ (has_key-put name rc l)
]
