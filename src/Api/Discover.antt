-- ===== src/Api/Discover.antt =====
-- `discovered_gateway`: a gateway that a container declares by its labels.
use degc.Prelude.{
  ℕ, Bool, true, false, not, Option, none, some, List, [], ◌∷◌, ◌++◌, map, Result, ok, ◌>>=◌, ◌>>◌,
  filter, is_empty, ok_or, if◌then◌else◌,
}
use degc.Text.{Text, str, same, trim, split}
use degc.Text.Numbers.{parse_u32}
use degc.Map.{get, text_key}
use degc.Api.{Libs, Labels, Gateway, Selector, Error, bad_table_label}
use degc.Api.Validate.{validate}
use degc.Api.Labels.{parse_selector_label}

-- The trimmed value of `<prefix>.gateway.<field>`.
unfoldable pub field : Text → Labels → Text → Option Text
field prefix labels f = elim (get (prefix ++ str ".gateway." ++ f) labels) [
  | none ↦ none
  | some s ↦ some (trim s)
]

unfoldable pub snat_knob : Option Text → Option Bool
snat_knob none = none
snat_knob (some s) =
    if same s (str "true") then some true else if same s (str "false") then some false else none

unfoldable pub table_knob : Text → Option Text → Result Error (Option ℕ)
table_knob name none = ok none
table_knob name (some t) = do n ← ok_or (parse_u32 t) (bad_table_label name t); ok (some n)

unfoldable pub subnets_knob : Option Text → List Text
subnets_knob none = []
subnets_knob (some s) = filter (λ p. not (is_empty p)) (map trim (split b',' s))

unfoldable pub members_knob : Option Text → List Selector
members_knob none = []
members_knob (some s) = parse_selector_label s ∷ []

unfoldable pub default_knob : Option Text → Bool
default_knob none = false
default_knob (some s) = same s (str "true")

-- The gateway that the labels spell, before it is validated.
unfoldable pub declared : Text → Text → Text → Labels → Option ℕ → Gateway
declared prefix name egress_container labels table = record {
  name = name;
  egress = record { interface = none; container = some egress_container; next_hop = none };
  snat = snat_knob (field prefix labels (str "snat"));
  mark = field prefix labels (str "mark");
  table = table;
  is_default = default_knob (field prefix labels (str "default"));
  local_subnets = subnets_knob (field prefix labels (str "localSubnets"));
  members = members_knob (field prefix labels (str "members"));
}

unfoldable pub discovered_gateway : Libs → Text → Text → Text → Labels → Result Error Gateway
discovered_gateway libs prefix name egress_container labels = do
  table ← table_knob name (field prefix labels (str "table"))
  let gw = declared prefix name egress_container labels table
  validate libs gw
  ok gw
