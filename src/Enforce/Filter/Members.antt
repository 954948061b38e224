-- ===== src/Enforce/Filter/Members.antt =====
-- The gateways of a plan with their marks, and their members as elements of sets.
use degc.Prelude.{
  or_true, ℕ, ◌≡◌, ◌↔◌, refl, Bool, true, false, ◌||◌, List, [], ◌∷◌, any, All, In, inl, inr, ap,
  ◌∙◌, sym, subst, map, filter, Bool-cases, ok, >>=-eq-ok, ◌>>=◌, if◌then◌else◌,
}
use degc.Text.{Text}
use degc.Net.{IpAddr}
use degc.Net.Print.{print}
use degc.Api.Values.{mark_value}
use degc.Plan.{GatewayPlan}
use degc.Enforce.Filter.{covered, marks_of}
use degc.Enforce.Filter.Apart.{plans_of}

-- Every gateway with its mark.
abbrev pub HasMarks : List (ℕ × GatewayPlan) → Type 0
HasMarks = All (λ mg. mark_value mg.1.gateway ≡ ok mg.0)

pub marks_of-HasMarks :
    (gps : List GatewayPlan) {ms : List (ℕ × GatewayPlan)}
    → marks_of gps ≡ ok ms
    → (plans_of ms ≡ gps) × HasMarks ms
unfolding marks_of
marks_of-HasMarks [] {ms} h =
    let e : [] ≡ ms = cc in subst (λ l. (plans_of l ≡ []) × HasMarks l) e (refl, tt)
marks_of-HasMarks (gp ∷ rest) {ms} h =
    let (mark, e, h1) =
      >>=-eq-ok (mark_value gp.gateway) (λ m. do l ← marks_of rest; ok ((m, gp) ∷ l)) h in
    let (l, e1, h2) = >>=-eq-ok (marks_of rest) (λ l. ok ((mark, gp) ∷ l)) h1 in
    let (p, k) = marks_of-HasMarks rest e1 in
    let same_list : (mark, gp) ∷ l ≡ ms = cc in
    subst (λ x. (plans_of x ≡ gp ∷ rest) × HasMarks x) same_list (ap (λ x. gp ∷ x) p, (e, k))

pub In-plans_of :
    (gp : GatewayPlan) (ms : List (ℕ × GatewayPlan))
    → In gp (plans_of ms)
    → (mark : ℕ) × In (mark, gp) ms
In-plans_of gp [] i = elim i [ ]
In-plans_of gp (mg ∷ ms) (inl e) = (mg.0, inl (ap (λ x. (mg.0, x)) e))
In-plans_of gp (mg ∷ ms) (inr i) = let (mark, j) = In-plans_of gp ms i in (mark, inr j)

pub plans_of-In :
    (mg : ℕ × GatewayPlan) (ms : List (ℕ × GatewayPlan)) → In mg ms → In mg.1 (plans_of ms)
plans_of-In mg [] i = elim i [ ]
plans_of-In mg (x ∷ ms) (inl e) = inl (ap (λ (y : ℕ × GatewayPlan). y.1) e)
plans_of-In mg (x ∷ ms) (inr i) = inr (plans_of-In mg ms i)

module _ (covers : Text → IpAddr → Bool) where
  -- As elements of a set, the addresses of a list cover themselves alone, as far as `ip` goes.
  abbrev pub IsExact : IpAddr → List IpAddr → Type 0
  IsExact ip = All (λ a. (covers (print a) ip ≡ true) ↔ (a ≡ ip))

  module _ (family : IpAddr → Bool) (ip : IpAddr) where
    abbrev elements_cover : List IpAddr → Bool
    elements_cover l = covered covers (map print (filter family l)) ip

    pub covered-In : (l : List IpAddr) → IsExact ip l → elements_cover l ≡ true → In ip l
    unfolding any filter
    covered-In [] exact h = absurd (cc)
    covered-In (x ∷ l) (exact, rest) h = elim (Bool-cases (family x)) [
      | inl f ↦ elim (Bool-cases (covers (print x) ip)) [
        | inl c ↦ inl (exact.0 c)
        | inr c ↦ inr (covered-In l rest (sym (ap (λ b. b || elements_cover l) c) ∙ with_family f))
      ]
      | inr f ↦ inr (covered-In l rest (with_family f))
    ]
      where
        with_family :
            {b : Bool}
            → family x ≡ b
            → any
                (λ e. covers e ip)
                (map print (if b then x ∷ filter family l else filter family l))
              ≡ true
        with_family f =
            sym (
              ap
                (λ b.
                  any (λ e. covers e ip)
                    (map print (if b then x ∷ filter family l else filter family l)))
                f)
            ∙ h

    pub In-covered :
        (l : List IpAddr) → IsExact ip l → family ip ≡ true → In ip l → elements_cover l ≡ true
    unfolding any filter
    In-covered [] exact f i = elim i [ ]
    In-covered (x ∷ l) (exact, rest) f (inl e) = rw (ap family e ∙ f, exact.1 e) refl
    In-covered (x ∷ l) (exact, rest) f (inr i) = elim (Bool-cases (family x)) [
      | inl g ↦ rw (g, In-covered l rest f i) (or_true (covers (print x) ip))
      | inr g ↦ rw g (In-covered l rest f i)
    ]

    pub not_In : (l : List IpAddr) → IsExact ip l → ¬ In ip l → elements_cover l ≡ false
    not_In l exact h = elim (Bool-cases (elements_cover l)) [
      | inl e ↦ absurd (h (covered-In l exact e))
      | inr e ↦ e
    ]
