-- ===== src/Api/Gateways/Unique.antt =====
-- `check_unique_routing` accepts exactly the lists in which every mark is known and no two
-- gateways share a mark or a table.
use degc.Prelude.{
  ℕ, ◌≡◌, ◌≢◌, ◌↔◌, refl, Option, none, some, [], ◌∷◌, ok, ◌>>◌, >>=-eq-ok, >>-eq-ok, All, All-map,
  All-map2, ◌∙◌, sym, subst,
}
use degc.Text.{Text}
use degc.Map.{BTreeMap, get, insert, nat_key}
use degc.Map.Laws.{get-insert-none}
use degc.Api.{Gateway, GatewayList, Error, same_mark, same_table}
use degc.Api.Values.{mark_value, table_id}
use degc.Api.Gateways.{vacant, check_unique, check_unique_routing}

-- Another gateway has neither the mark nor the table.
abbrev pub IsApart : ℕ → ℕ → Gateway → Type 0
IsApart mark table h = (mark_value h ≢ ok mark) × (table_id h ≢ table)

abbrev pub IsUnique : GatewayList → Type 0
IsUnique [] = Unit
IsUnique (g ∷ rest) =
    ((mark : ℕ) × (mark_value g ≡ ok mark) × All (IsApart mark (table_id g)) rest) × IsUnique rest

-- The keys that the loop has met are not those of the gateway.
abbrev IsFresh : BTreeMap ℕ Text → BTreeMap ℕ Text → Gateway → Type 0
IsFresh marks tables g =
    ((m : ℕ) → mark_value g ≡ ok m → get m marks ≡ none) × (get (table_id g) tables ≡ none)

vacant-eq-ok : (o : Option Text) (e : Text → Error) → vacant o e ≡ ok tt → o ≡ none
vacant-eq-ok none e h = refl
vacant-eq-ok (some t) e h = cc

module _ (mark table : ℕ) (name : Text) (marks tables : BTreeMap ℕ Text) (g : Gateway) where
  IsFresh-before :
      IsFresh (insert mark name marks) (insert table name tables) g → IsFresh marks tables g
  IsFresh-before h = (
    λ m e. ((get-insert-none mark m name marks).0 (h.0 m e)).1,
    ((get-insert-none table (table_id g) name tables).0 h.1).1,
  )

  fresh-IsApart :
      IsFresh (insert mark name marks) (insert table name tables) g → IsApart mark table g
  fresh-IsApart h = (
    λ e. ((get-insert-none mark mark name marks).0 (h.0 mark e)).0 refl,
    λ e. ((get-insert-none table (table_id g) name tables).0 h.1).0 (sym e),
  )

  IsFresh-after :
      IsFresh marks tables g
      → IsApart mark table g
      → IsFresh (insert mark name marks) (insert table name tables) g
  IsFresh-after h apart = (
    λ m e. (get-insert-none mark m name marks).1 (λ p. apart.0 (rw p e), h.0 m e),
    (get-insert-none table (table_id g) name tables).1 (λ p. apart.1 (sym p), h.1),
  )

-- One round of the loop.
check_unique_step :
    (g : Gateway) (rest : GatewayList) (marks tables : BTreeMap ℕ Text) (m : ℕ)
    → mark_value g ≡ ok m
    → get m marks ≡ none
    → get (table_id g) tables ≡ none
    → check_unique (g ∷ rest) marks tables
      ≡ check_unique rest (insert m g.name marks) (insert (table_id g) g.name tables)
unfolding check_unique
check_unique_step g rest marks tables m e free_mark free_table = rw (e, free_mark, free_table)

-- What a round that succeeds has met.
check_unique_inv :
    (g : Gateway) (rest : GatewayList) (marks tables : BTreeMap ℕ Text)
    → check_unique (g ∷ rest) marks tables ≡ ok tt
    → (m : ℕ) × (mark_value g ≡ ok m)
      × (get m marks ≡ none)
      × (get (table_id g) tables ≡ none)
      × (check_unique rest (insert m g.name marks) (insert (table_id g) g.name tables) ≡ ok tt)
unfolding check_unique
check_unique_inv g rest marks tables h =
    let name = g.name in
    let table = table_id g in
    let later = λ (m : ℕ). check_unique rest (insert m name marks) (insert table name tables) in
    let on_table =
      λ (m : ℕ). vacant (get table tables) (λ other. same_table other name table) >> later m in
    let (m, e, after) =
      >>=-eq-ok (mark_value g)
        (λ m. vacant (get m marks) (λ other. same_mark other name m) >> on_table m) h in
    let mark_free =
      >>-eq-ok (vacant (get m marks) (λ other. same_mark other name m)) (on_table m) after in
    let table_free =
      >>-eq-ok (vacant (get table tables) (λ other. same_table other name table)) (later m)
        mark_free.1 in
    (m, e, vacant-eq-ok _ _ mark_free.0.1, vacant-eq-ok _ _ table_free.0.1, table_free.1)

check_unique_sound :
    (gws : GatewayList) (marks tables : BTreeMap ℕ Text)
    → check_unique gws marks tables ≡ ok tt
    → IsUnique gws × All (IsFresh marks tables) gws
check_unique_sound [] marks tables h = (tt, tt)
check_unique_sound (g ∷ rest) marks tables h =
    let (m, e, free_mark, free_table, after) = check_unique_inv g rest marks tables h in
    let table = table_id g in
    let (unique, fresh) =
      check_unique_sound rest (insert m g.name marks) (insert table g.name tables) after in
    (
      ((m, e, All-map (λ k. fresh-IsApart m table g.name marks tables k) rest fresh), unique),
      (
        (
          λ n p. subst (λ k. get k marks ≡ none) (let q : m ≡ n = cc (e, p) in q) free_mark,
          free_table,
        ),
        All-map (λ k. IsFresh-before m table g.name marks tables k) rest fresh,
      ),
    )

check_unique_complete :
    (gws : GatewayList) (marks tables : BTreeMap ℕ Text)
    → IsUnique gws
    → All (IsFresh marks tables) gws
    → check_unique gws marks tables ≡ ok tt
check_unique_complete [] marks tables u f = unfold check_unique in refl
check_unique_complete (g ∷ rest) marks tables ((m, e, apart), u) (fresh, f) =
    check_unique_step g rest marks tables m e (fresh.0 m e) fresh.1
    ∙ check_unique_complete rest (insert m g.name marks) (insert (table_id g) g.name tables) u
        (All-map2 (λ h. IsFresh-after m (table_id g) g.name marks tables h) rest f apart)

All-IsFresh : (gws : GatewayList) → All (IsFresh [] []) gws
unfolding get
All-IsFresh [] = tt
All-IsFresh (g ∷ rest) = ((λ m e. refl, refl), All-IsFresh rest)

-- The check accepts a list exactly where each mark is known and no two gateways share a mark or a
-- table.
pub check_unique_routing_iff :
    (gws : GatewayList) → (check_unique_routing gws ≡ ok tt) ↔ IsUnique gws
unfolding check_unique_routing
check_unique_routing_iff gws = (
  λ h. (check_unique_sound gws [] [] h).0,
  λ u. check_unique_complete gws [] [] u (All-IsFresh gws),
)
