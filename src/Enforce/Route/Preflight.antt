-- ===== src/Enforce/Route/Preflight.antt =====
-- The preflight of enforce/route.rs: foreign routes in a table of degc's, and foreign rules on a
-- mark of degc's.
pub mod Lines
pub mod Free
use degc.Prelude.{
  ℕ, suc, ◌+◌, Bool, false, ◌&&◌, not, Option, none, some, List, [], ◌∷◌, ◌++◌, Result, ok, err,
  find, get_elem?, head?, is_empty, map, if◌then◌else◌,
}
use degc.Text.{Text, str, same, trim, lines, split, split_whitespace, contains}
use degc.Text.Numbers.{show}
use degc.Enforce.Host.{Programs, Output, not_spawned, exited, Exec, lift, run_ip, ◌>>=◌, ◌>>◌}
use degc.Api.{Error, foreign_occupant, fwmark_taken}

-- A line that is not blank and does not carry degc's tag.
unfoldable pub is_foreign : Text → Bool
is_foreign l = not (is_empty l) && not (contains (str "proto " ++ str "194") l)

unfoldable pub foreign_route : Text → Option Text
foreign_route routes = find is_foreign (map trim (lines routes))

-- `iter().position`
unfoldable pub position : Text → List Text → Option ℕ
position t [] = none
position t (s ∷ rest) =
    let later = position t rest in
    if same s t then some 0 else elim later [ none ↦ none | some i ↦ some (suc i) ]

-- The token behind the first `word`.
unfoldable pub token_after : Text → List Text → Option Text
token_after word toks = elim (position word toks) [ none ↦ none | some i ↦ get_elem? toks (i + 1) ]

abbrev pub first_or : Text → Option Text → Text
first_or d none = d
first_or d (some s) = s

-- The part before a mask.
unfoldable pub unmasked : Text → Text
unmasked t = first_or t (head? (split b'/' t))

abbrev pub is_token : Option Text → Text → Bool
is_token none t = false
is_token (some s) t = same s t

abbrev pub unmask : Option Text → Option Text
unmask none = none
unmask (some t) = some (unmasked t)

-- The line selects `mark`, and looks up another table than `table`.
unfoldable pub is_conflict : Text → Text → List Text → Bool
is_conflict mark table toks = elim (position (str "fwmark") toks) [
  | none ↦ false
  | some i ↦
      is_token (unmask (get_elem? toks (i + 1))) mark
      && not (is_token (token_after (str "lookup") toks) table)
]

unfoldable pub conflict_in : List Text → Text → Text → Option Text
conflict_in [] mark table = none
conflict_in (line ∷ rest) mark table =
    let later = conflict_in rest mark table in
    if is_conflict mark table (split_whitespace line) then some (trim line) else later

unfoldable pub conflicting_fwmark_rule : Text → Text → Text → Option Text
conflicting_fwmark_rule rules mark table = conflict_in (lines rules) mark table

abbrev pub refuse : Option Text → (Text → Error) → Result Error (Unit {0})
refuse none e = ok tt
refuse (some s) e = err (e s)

-- The standard output of a run that succeeded; else nothing.
abbrev pub shown : Output → Text
shown not_spawned = []
shown (exited success out e) = if success then out else []

abbrev pub show_rules : List Text
show_rules = str "-o" ∷ str "rule" ∷ str "show" ∷ []

abbrev pub show_table : ℕ → List Text
show_table table = str "-o" ∷ str "route" ∷ str "show" ∷ str "table" ∷ show table ∷ []

module _ {S : Type 0} (p : Programs S) where
  unfoldable pub ip_show : List Text → Exec S Text
  ip_show args w = let (o, w') = run_ip p args w in (ok (shown o), w')

  unfoldable pub preflight_each : Text → List (Text × ℕ) → Exec S (Unit {0})
  preflight_each rules [] = lift (ok tt)
  preflight_each rules ((mark, table) ∷ rest) = do
    routes ← ip_show (show_table table)
    lift (refuse (foreign_route routes) (foreign_occupant table))
    lift (refuse (conflicting_fwmark_rule rules mark (show table)) (fwmark_taken mark))
    preflight_each rules rest

  unfoldable pub preflight : List (Text × ℕ) → Exec S (Unit {0})
  preflight guards = do rules ← ip_show show_rules; preflight_each rules guards
