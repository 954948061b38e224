-- ===== src/Api/Gateways/Clash.antt =====
-- What `check_unique_routing` names in an error.
use mathlib.Core.Option.{some-injective}
use degc.Prelude.{
  ℕ, ◌≡◌, ◌⊎◌, refl, Option, none, some, [], ◌∷◌, ◌++◌, append_assoc, Result, ok, err, ◌>>=◌, ◌>>◌,
  Any, Any-left, Any-right, inl, inr, Bool-cases, ◌∙◌, sym, subst, ap, if◌then◌else◌,
}
use degc.Text.{Text}
use degc.Map.{BTreeMap, get, insert, eqk, nat_key}
use degc.Map.Laws.{get-insert, eqk_iff}
use degc.Api.{Gateway, GatewayList, Error, same_mark, same_table}
use degc.Api.Values.{mark_value, table_id}
use degc.Api.Gateways.{vacant, check_unique, check_unique_routing}

-- Some gateway of the list has the name and the value.
abbrev pub Holds : (ℕ → Gateway → Type 0) → GatewayList → ℕ → Text → Type 0
Holds F seen k name = Any (λ g. (g.name ≡ name) × F k g) seen

-- A gateway whose mark is no number; or one that has the mark or the table of one before it, with
-- the names of both.
pub data IsClash (gws : GatewayList) : Error → Type 0 where
  unmarked :
      (seen : GatewayList) (g : Gateway) (rest : GatewayList) {e : Error}
      → gws ≡ seen ++ g ∷ rest
      → mark_value g ≡ err e
      → IsClash gws e
  marks_clash :
      (seen : GatewayList) (g : Gateway) (rest : GatewayList) {other : Text} {mark : ℕ}
      → gws ≡ seen ++ g ∷ rest
      → mark_value g ≡ ok mark
      → Holds (λ k h. mark_value h ≡ ok k) seen mark other
      → IsClash gws (same_mark other g.name mark)
  tables_clash :
      (seen : GatewayList) (g : Gateway) (rest : GatewayList) {other : Text}
      → gws ≡ seen ++ g ∷ rest
      → Holds (λ k h. table_id h ≡ k) seen (table_id g) other
      → IsClash gws (same_table other g.name (table_id g))

-- The names in the map are those of gateways that have its keys.
abbrev IsTraced : (ℕ → Gateway → Type 0) → GatewayList → BTreeMap ℕ Text → Type 0
IsTraced F seen m = (k : ℕ) (name : Text) → get k m ≡ some name → Holds F seen k name

insert-IsTraced :
    (F : ℕ → Gateway → Type 0) (seen : GatewayList) (m : BTreeMap ℕ Text) (k : ℕ) (g : Gateway)
    → F k g
    → IsTraced F seen m
    → IsTraced F (seen ++ g ∷ []) (insert k g.name m)
insert-IsTraced F seen m k g f h j name e = elim (Bool-cases (eqk k j)) [
  | inl same_key ↦
      let named : g.name ≡ name = some-injective g.name name (
        sym (get-insert k j g.name m ∙ ap (λ b. if b then some g.name else get j m) same_key)
        ∙ e) in
      Any-right _ seen (g ∷ []) (inl (named, subst (λ i. F i g) ((eqk_iff k j).0 same_key) f))
  | inr new ↦ Any-left _ seen (g ∷ []) (
      h j name
        (sym (get-insert k j g.name m ∙ ap (λ b. if b then some g.name else get j m) new) ∙ e))
]

occupied :
    (o : Option Text) (f : Text → Error) (next : Result Error (Unit {0})) (e : Error)
    → (do vacant o f; next) ≡ err e
    → ((t : Text) × (o ≡ some t) × (f t ≡ e)) ⊎ (next ≡ err e)
occupied none f next e h = inr h
occupied (some t) f next e h = inl (t, refl, cc)

pub unread :
    {A : Type 0} (r : Result Error ℕ) (next : ℕ → Result Error A) (e : Error)
    → (do n ← r; next n) ≡ err e
    → (r ≡ err e) ⊎ ((n : ℕ) × (r ≡ ok n) × (next n ≡ err e))
unread (ok n) next e h = inr (n, refl, h)
unread (err x) next e h = inl cc

module _ (gws : GatewayList) where
  check_unique-IsClash :
      (seen rest : GatewayList) (marks tables : BTreeMap ℕ Text) (e : Error)
      → gws ≡ seen ++ rest
      → IsTraced (λ k h. mark_value h ≡ ok k) seen marks
      → IsTraced (λ k h. table_id h ≡ k) seen tables
      → check_unique rest marks tables ≡ err e
      → IsClash gws e
  unfolding check_unique
  check_unique-IsClash seen [] marks tables e split by_mark by_table h = cc
  check_unique-IsClash seen (g ∷ rest) marks tables e split by_mark by_table h =
      elim (unread (mark_value g) _ e h) [
        | inl x ↦ unmarked seen g rest split x
        | inr (mark, m, h1) ↦
            elim (occupied (get mark marks) (λ other. same_mark other g.name mark) _ e h1) [
              | inl (other, at, same_err) ↦
                  subst (IsClash gws) same_err
                    (marks_clash seen g rest split m (by_mark mark other at))
              | inr h2 ↦
                  elim (occupied (get (table_id g) tables)
                    (λ other. same_table other g.name (table_id g)) _ e h2) [
                      | inl (other, at, same_err) ↦
                          subst (IsClash gws) same_err
                            (tables_clash seen g rest split (by_table (table_id g) other at))
                      | inr h3 ↦
                          check_unique-IsClash (seen ++ g ∷ []) rest (insert mark g.name marks)
                            (insert (table_id g) g.name tables) e
                            (split ∙ sym (append_assoc seen (g ∷ []) rest))
                            (insert-IsTraced _ seen marks mark g m by_mark)
                            (insert-IsTraced _ seen tables (table_id g) g refl by_table) h3
                    ]
            ]
      ]

-- Every refusal of `check_unique_routing` is true of the list: it is the error of a mark that is no
-- number; or it names a gateway, one that stands before it, and the mark or the table that both have.
pub check_unique_routing-IsClash :
    (gws : GatewayList) (e : Error) → check_unique_routing gws ≡ err e → IsClash gws e
unfolding check_unique_routing get
check_unique_routing-IsClash gws e h =
    check_unique-IsClash gws [] gws [] [] e refl (λ k name a. cc) (λ k name a. cc) h
