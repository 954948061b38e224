-- ===== src/Prelude/Search.antt =====
-- The Boolean searches of `Lists` against the predicates.
use mathlib.Core.Path.{◌≡◌, refl, sym, ap, ◌∙◌, subst}
use mathlib.Core.Logic.{inl, inr, ◌↔◌, ◌⊎◌}
use mathlib.Core.List.{List, [], ◌∷◌, ◌++◌}
use mathlib.Core.Bool.{Bool, true, false, ◌&&◌, ◌||◌}
use mathlib.Core.Option.{Option, some}
use native.Mathlib.Omega.{arith}
use degc.Prelude.Tests.{Bool-cases, if◌then◌else◌}
use degc.Prelude.Lists.{all, any, find, All, Any, In}

module _ {ℓ} {A : Type ℓ} (p : A → Bool) where
  pub any_iff : (xs : List A) → (any p xs ≡ true) ↔ Any (λ x. p x ≡ true) xs
  unfolding any
  any_iff [] = (λ h. absurd (cc), λ h. elim h [ ])
  any_iff (x ∷ xs) = (
    λ h. elim (Bool-cases (p x)) [
      | inl e ↦ inl e
      | inr e ↦ inr ((any_iff xs).0 (ground (arith, e)))
    ],
    λ h. elim h [ inl e ↦ ground (arith, e) | inr r ↦ ground (arith, (any_iff xs).1 r) ],
  )

  pub all_iff : (xs : List A) → (all p xs ≡ true) ↔ All (λ x. p x ≡ true) xs
  unfolding all
  all_iff [] = (λ h. tt, λ h. refl)
  all_iff (x ∷ xs) = (
    λ h. (ground arith, (all_iff xs).0 (ground arith)),
    λ h. ground (arith, h.0, (all_iff xs).1 h.1),
  )

module _ {ℓ} {A : Type ℓ} {P Q : A → Type 0} where
  pub Any-map : ((x : A) → P x → Q x) → (xs : List A) → Any P xs → Any Q xs
  Any-map f [] h = h
  Any-map f (x ∷ xs) (inl h) = inl (f x h)
  Any-map f (x ∷ xs) (inr h) = inr (Any-map f xs h)

-- A search that ends at its first element, or goes on.
pub at_head :
    {A : Type 0} (b : Bool) (x y : A) (o : Option A)
    → (if b then some x else o) ≡ some y
    → ((b ≡ true) × (x ≡ y)) ⊎ (o ≡ some y)
at_head true x y o e = inl (refl, cc)
at_head false x y o e = inr e

pub find-In :
    {A : Type 0} (f : A → Bool) (xs : List A) (x : A) → find f xs ≡ some x → In x xs × (f x ≡ true)
unfolding find
find-In f [] x e = cc
find-In f (y ∷ xs) x e = elim (at_head (f y) y x (find f xs) e) [
  | inl (h, same) ↦ (inl same, ap f (sym same) ∙ h)
  | inr later ↦ let (i, h) = find-In f xs x later in (inr i, h)
]

module _ {A : Type 0} (P : A → Type 0) where
  pub Any-left : (xs ys : List A) → Any P xs → Any P (xs ++ ys)
  Any-left [] ys h = elim h [ ]
  Any-left (x ∷ xs) ys (inl h) = inl h
  Any-left (x ∷ xs) ys (inr h) = inr (Any-left xs ys h)

  pub Any-right : (xs ys : List A) → Any P ys → Any P (xs ++ ys)
  Any-right [] ys h = h
  Any-right (x ∷ xs) ys h = inr (Any-right xs ys h)

pub All-at : {A : Type 0} (P : A → Type 0) (l : List A) (a : A) → All P l → In a l → P a
All-at P [] a h i = elim i [ ]
All-at P (x ∷ l) a (h, later) (inl e) = subst P e h
All-at P (x ∷ l) a (h, later) (inr i) = All-at P l a later i

pub All-of_In : {A : Type 0} {P : A → Type 0} (l : List A) → ((x : A) → In x l → P x) → All P l
All-of_In [] h = tt
All-of_In (x ∷ l) h = (h x (inl refl), All-of_In l (λ y i. h y (inr i)))

-- What holds of all holds of one that has something.
pub All-Any :
    {A : Type 0} {P Q : A → Type 0} {R : Type 0} (l : List A)
    → ((a : A) → P a → Q a → R)
    → All P l
    → Any Q l
    → R
All-Any [] f h i = elim i [ ]
All-Any (x ∷ l) f (h, rest) (inl q) = f x h q
All-Any (x ∷ l) f (h, rest) (inr i) = All-Any l f rest i

pub any-append :
    {A : Type 0} (p : A → Bool) (xs ys : List A) → any p (xs ++ ys) ≡ (any p xs || any p ys)
unfolding any
any-append p [] ys = refl
any-append p (x ∷ xs) ys = ground (arith, any-append p xs ys)

pub or_false : (b : Bool) → (b || false) ≡ b
or_false true = refl
or_false false = refl

pub and_false : (b : Bool) → (b && false) ≡ false
and_false true = refl
and_false false = refl

pub or_true : (b : Bool) → (b || true) ≡ true
or_true true = refl
or_true false = refl
