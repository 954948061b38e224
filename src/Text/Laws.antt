-- ===== src/Text/Laws.antt =====
-- The tests `same` and `before` decide equality and a strict total order.
use degc.Prelude.{◌≡◌, ◌↔◌, refl, true, [], ◌∷◌, arith}
use degc.Text.{Text, same}

pub same_refl : (s : Text) → same s s ≡ true
unfolding same
same_refl [] = refl
same_refl (a ∷ s) = ground (arith, same_refl s)

pub eq_of_same : (s t : Text) → same s t ≡ true → s ≡ t
unfolding same
eq_of_same [] [] h = refl
eq_of_same [] (b ∷ t) h = cc
eq_of_same (a ∷ s) [] h = cc
eq_of_same (a ∷ s) (b ∷ t) h = ground (arith, eq_of_same s t)

pub same_iff : (s t : Text) → (same s t ≡ true) ↔ (s ≡ t)
same_iff s t = (eq_of_same s t, λ e. ground (arith, same_refl s))
