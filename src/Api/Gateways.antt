-- ===== src/Api/Gateways.antt =====
-- The document of gateways: its validation, the check of routing identities, and `resolve`.
pub mod Unique
pub mod Clash
pub mod Document
pub mod Faults
use degc.Prelude.{
  ℕ, zero, suc, ◌+◌, Bool, not, Option, none, some, List, [], ◌∷◌, Result, ok, err, ◌>>=◌, ◌>>◌,
  ensure, ok_or, is_some, find, length, head?, leb, ◌==◌, if◌then◌else◌,
}
use degc.Text.{Text, same}
use degc.Map.{BTreeMap, get, insert, text_key, nat_key}
use degc.Api.{
  Libs, Gateway, GatewayList, Error, duplicate_gateway, many_defaults, same_mark, same_table,
  bad_document,
}
use degc.Api.Values.{mark_value, table_id}
use degc.Api.Validate.{validate}

-- `bail!` where a key was taken.
abbrev pub vacant : Option Text → (Text → Error) → Result Error (Unit {0})
vacant none e = ok tt
vacant (some other) e = err (e other)

unfoldable pub check_unique :
    GatewayList → BTreeMap ℕ Text → BTreeMap ℕ Text → Result Error (Unit {0})
check_unique [] marks tables = ok tt
check_unique (gw ∷ rest) marks tables = do
  mark ← mark_value gw
  vacant (get mark marks) (λ other. same_mark other gw.name mark)
  vacant (get (table_id gw) tables) (λ other. same_table other gw.name (table_id gw))
  check_unique rest (insert mark gw.name marks) (insert (table_id gw) gw.name tables)

unfoldable pub check_unique_routing : GatewayList → Result Error (Unit {0})
check_unique_routing gws = check_unique gws [] []

abbrev pub one_if : Bool → ℕ
one_if b = if b then 1 else 0

-- The loop of `Gateways::validate`: it gives the number of default gateways.
unfoldable pub validate_each : Libs → GatewayList → BTreeMap Text Unit → ℕ → Result Error ℕ
validate_each libs [] seen defaults = ok defaults
validate_each libs (gw ∷ rest) seen defaults = do
  validate libs gw
  ensure (not (is_some (get gw.name seen))) (duplicate_gateway gw.name)
  validate_each libs rest (insert gw.name tt seen) (defaults + one_if gw.is_default)

unfoldable pub validate_all : Libs → GatewayList → Result Error (Unit {0})
validate_all libs gws = do
  defaults ← validate_each libs gws [] 0
  ensure (leb defaults 1) many_defaults
  check_unique_routing gws

-- `yaml` is the parser of serde_yaml_ng for a list of gateways.
unfoldable pub parse_gateways : Libs → (Text → Option GatewayList) → Text → Result Error GatewayList
parse_gateways libs yaml text = do
  gws ← ok_or (yaml text) bad_document
  validate_all libs gws
  ok gws

abbrev sole : GatewayList → Option Gateway
sole gws = if length gws == 1 then head? gws else none

unfoldable pub resolve : GatewayList → Option Text → Option Gateway
resolve gws (some name) = find (λ g. same g.name name) gws
resolve gws none = elim (find (λ g. g.is_default) gws) [ some g ↦ some g | none ↦ sole gws ]
