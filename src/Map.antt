-- ===== src/Map.antt =====
-- Rust's `BTreeMap` and `BTreeSet` as lists in the order of their keys. A key is compared by its
-- rank, a text: `String`, `u32` and `IpAddr` each have one, in the order of their `Ord`.
pub mod Laws
use degc.Prelude.{
  ℕ, Bool, true, false, Option, none, some, List, [], ◌∷◌, ◌≡◌, refl, if◌then◌else◌, map,
}
use degc.Text.{Text, same, before}

pub record Key (K : Type 0) : Type 0 where
  pub rank : K → Text
  pub rank_injective : (a b : K) → rank a ≡ rank b → a ≡ b

instance abbrev pub text_key : Key Text
text_key = record { rank = λ s. s; rank_injective = λ a b h. h }

pub singleton_injective : (a b : ℕ) → a ∷ [] ≡ b ∷ [] → a ≡ b
singleton_injective a b h = cc

instance abbrev pub nat_key : Key ℕ
nat_key = record { rank = λ n. n ∷ []; rank_injective = singleton_injective }

abbrev pub BTreeMap : Type 0 → Type 0 → Type 0
BTreeMap K V = List (K × V)

abbrev pub BTreeSet : Type 0 → Type 0
BTreeSet K = List K

module _ {K : Type 0} ⦃key : Key K⦄ where
  abbrev pub eqk : K → K → Bool
  eqk a b = same (key.rank a) (key.rank b)

module _ {K V : Type 0} ⦃key : Key K⦄ where
  unfoldable pub get : K → BTreeMap K V → Option V
  get k [] = none
  get k ((j, v) ∷ m) = let rest = get k m in if eqk j k then some v else rest

  -- `insert`; the value that was there is `get` of the map before.
  unfoldable pub insert : K → V → BTreeMap K V → BTreeMap K V
  insert k v [] = (k, v) ∷ []
  insert k v ((j, w) ∷ m) =
      let rest = insert k v m in
      if eqk j k
      then (k, v) ∷ m
      else if before (key.rank k) (key.rank j)
      then (k, v) ∷ (j, w) ∷ m
      else (j, w) ∷ rest

  unfoldable pub remove : K → BTreeMap K V → BTreeMap K V
  remove k [] = []
  remove k ((j, v) ∷ m) = let rest = remove k m in if eqk j k then rest else (j, v) ∷ rest

  -- `collect` of pairs: the last value of a key stays.
  unfoldable pub insert_all : List (K × V) → BTreeMap K V → BTreeMap K V
  insert_all [] m = m
  insert_all ((k, v) ∷ l) m = insert_all l (insert k v m)

  abbrev pub collect : List (K × V) → BTreeMap K V
  collect l = insert_all l []

abbrev pub values : {K V : Type 0} → BTreeMap K V → List V
values = map (λ e. e.1)

module _ {K : Type 0} ⦃key : Key K⦄ where
  unfoldable pub add : K → BTreeSet K → BTreeSet K
  add k [] = k ∷ []
  add k (j ∷ m) =
      let rest = add k m in
      if eqk j k then j ∷ m else if before (key.rank k) (key.rank j) then k ∷ j ∷ m else j ∷ rest

  -- `extend`
  unfoldable pub add_all : List K → BTreeSet K → BTreeSet K
  add_all [] m = m
  add_all (k ∷ l) m = add_all l (add k m)

  unfoldable pub has : K → BTreeSet K → Bool
  has k [] = false
  has k (j ∷ m) = let rest = has k m in if eqk j k then true else rest
