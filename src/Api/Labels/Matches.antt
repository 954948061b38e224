-- ===== src/Api/Labels/Matches.antt =====
-- What a selector selects.
use mathlib.Core.List.{cons-ne-nil}
use degc.Prelude.{
  ◌≡◌, ◌≢◌, ◌↔◌, refl, true, false, Option, none, some, [], ◌∷◌, All, All-map, all_iff, ap,
}
use degc.Text.{Text, same}
use degc.Text.Laws.{same_iff}
use degc.Map.{get, text_key}
use degc.Api.{Selector, Labels}
use degc.Api.Labels.{has_label, selector_matches}
use mathlib.Core.Option.{some-injective}

abbrev pub Carries : Labels → Text × Text → Type 0
Carries labels e = get e.0 labels ≡ some e.1

has_label_iff :
    (labels : Labels) (k v : Text) → (has_label labels k v ≡ true) ↔ (get k labels ≡ some v)
unfolding has_label
has_label_iff labels k v = found (get k labels)
  where
    found : (o : Option Text) → (elim o [ none ↦ false | some w ↦ same w v ] ≡ true) ↔ (o ≡ some v)
    found none = (λ h. cc, λ h. cc)
    found (some w) =
        (λ h. ap some ((same_iff w v).0 h), λ h. (same_iff w v).1 (some-injective w v h))

-- A selector matches exactly where it is not empty and the labels carry each of its entries.
pub selector_matches_iff :
    (selector : Selector) (labels : Labels)
    → (selector_matches selector labels ≡ true) ↔ ((selector ≢ []) × All (Carries labels) selector)
unfolding selector_matches
selector_matches_iff [] labels = (λ h. cc, λ (n, h). absurd (n refl))
selector_matches_iff (e ∷ rest) labels =
    let test = λ (x : Text × Text). has_label labels x.0 x.1 in
    (
      λ h. (
        cons-ne-nil e rest,
        All-map (λ x. (has_label_iff labels x.0 x.1).0) (e ∷ rest) ((all_iff test (e ∷ rest)).0 h),
      ),
      λ (n, h).
          (all_iff test (e ∷ rest)).1
            (All-map (λ x. (has_label_iff labels x.0 x.1).1) (e ∷ rest) h),
    )
