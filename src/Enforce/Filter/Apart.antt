-- ===== src/Enforce/Filter/Apart.antt =====
-- Gateways whose sets have names of their own, and whose marks differ.
use degc.Prelude.{
  ℕ, ◌≡◌, ◌≢◌, refl, Bool, true, false, ◌&&◌, List, [], ◌∷◌, any, any_iff, Any-map, All, All-map,
  In, inl, inr, ap, ◌∙◌, sym, map, arith, Bool-cases, ok, ◌==◌,
}
use degc.Text.{Text, same}
use degc.Text.Laws.{eq_of_same}
use degc.Api.{Gateway}
use degc.Api.Values.{mark_value, table_id}
use degc.Api.Gateways.Unique.{IsUnique, IsApart}
use degc.Plan.{GatewayPlan}
use degc.Enforce.Nft.{sanitize}

-- Nothing but `y` passes the test.
abbrev pub IsOnly : {A : Type 0} → (A → Bool) → A → List A → Type 0
IsOnly t y = All (λ x. t x ≡ true → x ≡ y)

any-none :
    {A : Type 0} (t f : A → Bool) (y : A) (l : List A)
    → f y ≡ false
    → IsOnly t y l
    → any (λ x. t x && f x) l ≡ false
unfolding any
any-none t f y [] h k = refl
any-none t f y (x ∷ l) h (k, rest) = elim (Bool-cases (t x)) [
  | inl e ↦ rw (e, ap f (k e), h) (any-none t f y l h rest)
  | inr e ↦ rw e (any-none t f y l h rest)
]

pub any-IsOnly :
    {A : Type 0} (t f : A → Bool) (y : A) (l : List A)
    → In y l
    → t y ≡ true
    → IsOnly t y l
    → any (λ x. t x && f x) l ≡ f y
any-IsOnly t f y l i e k = elim (Bool-cases (f y)) [
  | inl h ↦
      (any_iff (λ x. t x && f x) l).1
        (Any-map (λ x same_x. ap (λ z. t z && f z) same_x ∙ (rw (e, h) refl)) l i)
      ∙ sym h
  | inr h ↦ any-none t f y l h k ∙ sym h
]

-- No two of the list pass the test with each other.
abbrev Apart : {A : Type 0} → (A → A → Bool) → List A → Type 0
Apart t [] = Unit
Apart t (x ∷ rest) = All (λ y. (t x y ≡ false) × (t y x ≡ false)) rest × Apart t rest

apart_at :
    {A : Type 0} (t : A → A → Bool) (x y : A) (l : List A)
    → All (λ z. (t x z ≡ false) × (t z x ≡ false)) l
    → In y l
    → t x y ≡ false
apart_at t x y [] h i = elim i [ ]
apart_at t x y (z ∷ l) (h, rest) (inl e) = ap (t x) (sym e) ∙ h.0
apart_at t x y (z ∷ l) (h, rest) (inr i) = apart_at t x y l rest i

Apart-IsOnly :
    {A : Type 0} (t : A → A → Bool) (y : A) (l : List A)
    → Apart t l
    → In y l
    → IsOnly (λ x. t x y) y l
Apart-IsOnly t y [] h i = tt
Apart-IsOnly t y (x ∷ l) (h, rest) (inl e) =
    (λ k. e, All-map (λ z q k. absurd (let f : t z y ≡ false = ap (t z) (sym e) ∙ q.1 in cc)) l h)
Apart-IsOnly t y (x ∷ l) (h, rest) (inr i) =
    (λ k. absurd (let f = apart_at t x y l h i in cc), Apart-IsOnly t y l rest i)

-- The names of the gateways differ as they are written in the names of sets.
abbrev pub HasOwnSets : List GatewayPlan → Type 0
HasOwnSets [] = Unit
HasOwnSets (gp ∷ rest) =
    All (λ (g : GatewayPlan). sanitize gp.gateway.name ≢ sanitize g.gateway.name) rest
    × HasOwnSets rest

abbrev pub same_set : ℕ × GatewayPlan → ℕ × GatewayPlan → Bool
same_set x y = same (sanitize x.1.gateway.name) (sanitize y.1.gateway.name)

abbrev pub same_mark : ℕ × GatewayPlan → ℕ × GatewayPlan → Bool
same_mark x y = x.0 == y.0

abbrev pub plans_of : List (ℕ × GatewayPlan) → List GatewayPlan
plans_of = map (λ (mg : ℕ × GatewayPlan). mg.1)

abbrev pub gateways_of : List GatewayPlan → List Gateway
gateways_of = map (λ (gp : GatewayPlan). gp.gateway)

differ : (s t : Text) → s ≢ t → same s t ≡ false
differ s t h = elim (Bool-cases (same s t)) [ inl e ↦ absurd (h (eq_of_same s t e)) | inr e ↦ e ]

HasOwnSets-Apart : (ms : List (ℕ × GatewayPlan)) → HasOwnSets (plans_of ms) → Apart same_set ms
HasOwnSets-Apart [] h = tt
HasOwnSets-Apart (mg ∷ ms) (h, rest) = (from ms h, HasOwnSets-Apart ms rest)
  where
    from :
        (l : List (ℕ × GatewayPlan))
        → All
            (λ (g : GatewayPlan). sanitize mg.1.gateway.name ≢ sanitize g.gateway.name)
            (plans_of l)
        → All (λ y. (same_set mg y ≡ false) × (same_set y mg ≡ false)) l
    from [] k = tt
    from (y ∷ l) (k, more) = ((differ _ _ k, differ _ _ (λ e. k (sym e))), from l more)

IsUnique-Apart :
    (ms : List (ℕ × GatewayPlan))
    → All (λ (mg : ℕ × GatewayPlan). mark_value mg.1.gateway ≡ ok mg.0) ms
    → IsUnique (gateways_of (plans_of ms))
    → Apart same_mark ms
IsUnique-Apart [] k h = tt
IsUnique-Apart (mg ∷ ms) (e, k) ((mark, q, apart), rest) =
    (from ms k apart, IsUnique-Apart ms k rest)
  where
    from :
        (l : List (ℕ × GatewayPlan))
        → All (λ (y : ℕ × GatewayPlan). mark_value y.1.gateway ≡ ok y.0) l
        → All (IsApart mark (table_id mg.1.gateway)) (gateways_of (plans_of l))
        → All (λ y. (same_mark mg y ≡ false) × (same_mark y mg ≡ false)) l
    from [] m a = tt
    from (y ∷ l) (m, more) (a, others) =
        let other : mg.0 ≢ y.0 = λ s. a.0 (m ∙ ap ok (sym s) ∙ sym e ∙ q) in
        ((ground (arith, other), ground (arith, other)), from l more others)

pub set-IsOnly :
    (ms : List (ℕ × GatewayPlan)) (mg : ℕ × GatewayPlan)
    → HasOwnSets (plans_of ms)
    → In mg ms
    → IsOnly (λ x. same_set x mg) mg ms
set-IsOnly ms mg h i = Apart-IsOnly same_set mg ms (HasOwnSets-Apart ms h) i

pub mark-IsOnly :
    (ms : List (ℕ × GatewayPlan)) (mg : ℕ × GatewayPlan)
    → All (λ (x : ℕ × GatewayPlan). mark_value x.1.gateway ≡ ok x.0) ms
    → IsUnique (gateways_of (plans_of ms))
    → In mg ms
    → IsOnly (λ x. same_mark x mg) mg ms
mark-IsOnly ms mg k h i = Apart-IsOnly same_mark mg ms (IsUnique-Apart ms k h) i
