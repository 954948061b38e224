-- ===== src/Api/Labels.antt =====
-- The label convention: opting in, declaring a gateway, and selectors.
pub mod Matches
use degc.Prelude.{
  Bool, false, ◌&&◌, not, Option, none, some, ◌++◌, map, all, filter_map, is_empty, if◌then◌else◌,
}
use degc.Text.{Text, str, same, trim, split, split_once}
use degc.Map.{get, collect, text_key}
use degc.Api.{Labels, Selector}

-- `labels.get(k) == Some(v)`
unfoldable pub has_label : Labels → Text → Text → Bool
has_label labels k v = elim (get k labels) [ none ↦ false | some w ↦ same w v ]

unfoldable pub opt_in : Text → Labels → Option (Option Text)
opt_in prefix labels =
    if has_label labels (prefix ++ str ".enable") (str "true")
    then some (get (prefix ++ str ".via") labels)
    else none

abbrev non_empty : Text → Option Text
non_empty s = if is_empty s then none else some s

unfoldable pub gateway_name : Text → Labels → Option Text
gateway_name prefix labels = elim (get (prefix ++ str ".gateway") labels) [
  | none ↦ none
  | some s ↦ non_empty (trim s)
]

unfoldable pub selector_matches : Selector → Labels → Bool
selector_matches selector labels =
    not (is_empty selector) && all (λ e. has_label labels e.0 e.1) selector

unfoldable pub parse_selector_label : Text → Selector
parse_selector_label s =
    collect (map (λ e. (trim e.0, trim e.1)) (filter_map (split_once b'=') (split b',' s)))
