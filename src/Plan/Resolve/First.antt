-- ===== src/Plan/Resolve/First.antt =====
-- The first of a list: what `find` gives.
use mathlib.Core.Option.{some-injective}
use degc.Prelude.{
  ◌≡◌, ◌↔◌, ◌⊎◌, inl, inr, refl, Bool, true, none, some, List, [], ◌∷◌, All, ap, ◌∙◌, sym, find,
  Bool-cases, if◌then◌else◌,
}

-- The first of a list of which something holds.
abbrev pub IsFirst : {A : Type 0} → (A → Type 0) → A → List A → Type 0
IsFirst P a [] = ⊥
IsFirst P a (x ∷ l) = (P x × (x ≡ a)) ⊎ ((¬ P x) × IsFirst P a l)

module _ {A : Type 0} (t : A → Bool) (P : A → Type 0) (means : (a : A) → (t a ≡ true) ↔ P a) where
  pub at_head :
      {B : Type 0} (x : A) (here later : B) {b : Bool}
      → t x ≡ b
      → (if t x then here else later) ≡ (if b then here else later)
  at_head x here later e = ap (λ b. if b then here else later) e

  pub find-IsFirst : (l : List A) (a : A) → find t l ≡ some a → IsFirst P a l
  unfolding find
  find-IsFirst [] a h = absurd (cc)
  find-IsFirst (x ∷ l) a h = elim (Bool-cases (t x)) [
    | inl e ↦ inl ((means x).0 e, some-injective x a (sym (at_head x _ _ e) ∙ h))
    | inr e ↦
        inr (λ k. let holds = (means x).1 k in cc, find-IsFirst l a (sym (at_head x _ _ e) ∙ h))
  ]

  pub IsFirst-find : (l : List A) (a : A) → IsFirst P a l → find t l ≡ some a
  unfolding find
  IsFirst-find [] a h = absurd h
  IsFirst-find (x ∷ l) a (inl (k, e)) = at_head x _ _ ((means x).1 k) ∙ ap some e
  IsFirst-find (x ∷ l) a (inr (k, h)) = elim (Bool-cases (t x)) [
    | inl e ↦ absurd (k ((means x).0 e))
    | inr e ↦ at_head x _ _ e ∙ IsFirst-find l a h
  ]

  pub find-none : (l : List A) → find t l ≡ none → All (λ a. ¬ P a) l
  unfolding find
  find-none [] h = tt
  find-none (x ∷ l) h = elim (Bool-cases (t x)) [
    | inl e ↦ absurd (let found = sym (at_head x _ _ e) ∙ h in cc)
    | inr e ↦ (λ k. let holds = (means x).1 k in cc, find-none l (sym (at_head x _ _ e) ∙ h))
  ]

  pub none-find : (l : List A) → All (λ a. ¬ P a) l → find t l ≡ none
  unfolding find
  none-find [] h = refl
  none-find (x ∷ l) (k, h) = elim (Bool-cases (t x)) [
    | inl e ↦ absurd (k ((means x).0 e))
    | inr e ↦ at_head x _ _ e ∙ none-find l h
  ]
