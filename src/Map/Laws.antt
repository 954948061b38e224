-- ===== src/Map/Laws.antt =====
-- The laws of maps and sets, in the form that rewrites a look-up of an updated map.
use mathlib.Core.Bool.{false≢true}
use degc.Prelude.{
  ◌≢◌, sym, ◌∙◌, true, none, some, List, [], ◌∷◌, ◌≡◌, ◌↔◌, ◌||◌, refl, ap, if◌then◌else◌, arith,
  Bool-cases, inl, inr, In,
}
use degc.Text.Laws.{same_iff, same_refl}
use degc.Map.{Key, BTreeMap, BTreeSet, eqk, get, insert, remove, add, add_all, has}

module _ {K : Type 0} ⦃key : Key K⦄ where
  pub eqk_iff : (a b : K) → (eqk a b ≡ true) ↔ (a ≡ b)
  eqk_iff a b =
      (λ h. key.rank_injective a b ((same_iff _ _).0 h), λ e. (same_iff _ _).1 (ap key.rank e))

  pub eqk_refl : (a : K) → eqk a a ≡ true
  eqk_refl a = same_refl _

module _ {K V : Type 0} ⦃key : Key K⦄ where
  pub get-insert :
      (k j : K) (v : V) (m : BTreeMap K V)
      → get j (insert k v m) ≡ (if eqk k j then some v else get j m)
  unfolding get insert
  get-insert k j v [] = refl
  get-insert k j v ((i, w) ∷ m) =
      ground (arith, eqk_iff k j, eqk_iff i k, eqk_iff i j, get-insert k j v m)

module _ {K : Type 0} ⦃key : Key K⦄ where
  pub has-add : (k j : K) (m : BTreeSet K) → has j (add k m) ≡ (eqk k j || has j m)
  unfolding has add
  has-add k j [] = ground arith
  has-add k j (i ∷ m) = ground (arith, eqk_iff k j, eqk_iff i k, eqk_iff i j, has-add k j m)

  pub has-add_all :
      (l : List K) (j : K) (m : BTreeSet K) → has j (add_all l m) ≡ (has j l || has j m)
  unfolding has add_all
  has-add_all [] j m = refl
  has-add_all (k ∷ l) j m = ground (arith, has-add_all l j (add k m), has-add k j m)

  pub In-of_has : (k : K) (m : List K) → has k m ≡ true → In k m
  unfolding has
  In-of_has k [] h = absurd (cc)
  In-of_has k (j ∷ m) h = elim (Bool-cases (eqk j k)) [
    | inl e ↦ inl ((eqk_iff j k).0 e)
    | inr e ↦ inr (In-of_has k m (ground (arith, e)))
  ]

  pub has_of_In : (k : K) (m : List K) → In k m → has k m ≡ true
  unfolding has
  has_of_In k [] h = elim h [ ]
  has_of_In k (j ∷ m) (inl e) = ground (arith, eqk_iff j k)
  has_of_In k (j ∷ m) (inr i) = ground (arith, has_of_In k m i)

module _ {K V : Type 0} ⦃key : Key K⦄ where
  -- A key is free in an updated map if it is another key, and was free.
  pub get-insert-none :
      (k j : K) (v : V) (m : BTreeMap K V)
      → (get j (insert k v m) ≡ none) ↔ ((k ≢ j) × (get j m ≡ none))
  get-insert-none k j v m = elim (Bool-cases (eqk k j)) [
    | inl e ↦ rw (get-insert k j v m, e) (λ h. cc, λ h. absurd (h.0 ((eqk_iff k j).0 e)))
    | inr e ↦
        rw (get-insert k j v m, e) (λ h. (λ p. false≢true (sym e ∙ (eqk_iff k j).1 p), h), λ h. h.1)
  ]

module _ {K V : Type 0} ⦃key : Key K⦄ where
  pub get-remove :
      (k j : K) (m : BTreeMap K V) → get j (remove k m) ≡ (if eqk k j then none else get j m)
  unfolding get remove
  get-remove k j [] = ground arith
  get-remove k j ((i, w) ∷ m) =
      ground (arith, eqk_iff k j, eqk_iff i k, eqk_iff i j, get-remove k j m)

module _ {K V : Type 0} ⦃key : Key K⦄ where
  pub get-remove_ne : (k j : K) (m : BTreeMap K V) → k ≢ j → get j (remove k m) ≡ get j m
  get-remove_ne k j m h = ground (arith, get-remove k j m, eqk_iff k j)
