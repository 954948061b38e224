-- ===== src/Daemon/System/Moves.antt =====
-- Invariants of the moves of `System`.
use mathlib.Core.Option.{some-injective}
use degc.Prelude.{ℕ, ◌≡◌, refl, Bool, true, false, Option, none, some, List, [], ◌∷◌, subst}
use degc.Daemon.Reconcile.{Setup}
use degc.Daemon.System.{System, Move, only_if, perform, performs}

abbrev pub Holds : {A : Type 0} → (A → Type 0) → Option A → Type 0
Holds P none = Unit {0}
Holds P (some a) = P a

pub where_true :
    {A : Type 0} (P : A → Type 0) (b : Bool) (a : A) → (b ≡ true → P a) → Holds P (only_if b a)
where_true P true a h = h refl
where_true P false a h = tt

abbrev pub advances : (Move → ℕ → ℕ) → List Move → ℕ → ℕ
advances advance [] n = n
advances advance (m ∷ rest) n = advances advance rest (advance m n)

-- What every move keeps, with a number that the moves advance, holds behind all of them.
module _ {S : Type 0} (c : Setup S) (Inv : ℕ → System S → Type 0) (advance : Move → ℕ → ℕ)
    (kept : (m : Move) (n : ℕ) (s : System S)
      → Inv n s
      → Holds (Inv (advance m n)) (perform c m s)) where
  pub performs-Inv :
      (moves : List Move) (n : ℕ) (s t : System S)
      → Inv n s
      → performs c moves s ≡ some t
      → Inv (advances advance moves n) t
  unfolding performs
  performs-Inv [] n s t h e = subst (Inv n) (some-injective s t e) h
  performs-Inv (m ∷ rest) n s t h e =
      next (perform c m s) (kept m n s h) (λ u k. performs-Inv rest (advance m n) u t k) e
    where
      next :
          (o : Option (System S))
          → Holds (Inv (advance m n)) o
          → ((u : System S)
              → Inv (advance m n) u
              → performs c rest u ≡ some t
              → Inv (advances advance rest (advance m n)) t)
          → elim o [ none ↦ none | some u ↦ performs c rest u ] ≡ some t
          → Inv (advances advance rest (advance m n)) t
      next none k later e' = cc
      next (some u) k later e' = later u k e'
