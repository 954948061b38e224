-- ===== src/Plan/Assign.antt =====
-- The second loop of `compile`: each container that is no gateway goes to one gateway, or is
-- unresolved, in conflict, or none of degc's business.
pub mod Membership
pub mod Known
use degc.Prelude.{Bool, Option, none, some, List, [], ◌∷◌, ◌++◌, map, any, filter}
use degc.Text.{Text, str}
use degc.Map.{BTreeMap, BTreeSet, get, insert, add, add_all, text_key}
use degc.Net.{IpAddr, ip_key}
use degc.Api.{Labels, Gateway, GatewayList}
use degc.Api.Gateways.{resolve}
use degc.Api.Labels.{gateway_name, opt_in, selector_matches}
use degc.Docker.{Target}
use degc.Plan.{Members}
use degc.Plan.Resolve.{addresses}

-- `entry(k).or_default()`
abbrev pub or_empty {ℓ} : {A : Type ℓ} → Option (List A) → List A
or_empty none = []
or_empty (some s) = s

unfoldable pub add_member : Text → Target → Members → Members
add_member gw t m = record {
  addresses = insert gw (add_all (addresses t) (or_empty (get gw m.addresses))) m.addresses;
  names = insert gw (add t.name (or_empty (get gw m.names))) m.names;
}

-- What the loop fills.
pub record Assigned : Type 0 where
  pub members : Members
  pub unresolved : List (Text × Text)
  pub conflicts : List (Text × List Text)

unfoldable pub selected : GatewayList → Labels → List Text
selected gws labels =
    map (λ g. g.name) (filter (λ g. any (λ s. selector_matches s labels) g.members) gws)

abbrev pub via_name : Option Text → Text
via_name none = str "<default>"
via_name (some via) = via

-- An explicit opt-in.
unfoldable pub place_opted : Target → Option Text → Option Gateway → Assigned → Assigned
place_opted t via (some gw) a = record a { members = add_member gw.name t a.members }
place_opted t via none a = record a { unresolved = a.unresolved ++ (t.name, via_name via) ∷ [] }

-- The gateways whose selectors match.
unfoldable pub place_selected : Target → List Text → Assigned → Assigned
place_selected t [] a = a
place_selected t (one ∷ []) a = record a { members = add_member one t a.members }
place_selected t (one ∷ two ∷ more) a = record a {
  conflicts = a.conflicts ++ (t.name, one ∷ two ∷ more) ∷ [];
}

module _ (prefix : Text) (gws : GatewayList) where
  unfoldable pub place_member : Target → Option (Option Text) → Assigned → Assigned
  place_member t (some via) a = place_opted t via (resolve gws via) a
  place_member t none a = place_selected t (selected gws t.labels) a

  -- A gateway is never its own member.
  unfoldable pub place : Target → Option Text → Assigned → Assigned
  place t (some name) a = a
  place t none a = place_member t (opt_in prefix t.labels) a

  unfoldable pub assign : List Target → Assigned → Assigned
  assign [] a = a
  assign (t ∷ rest) a = assign rest (place t (gateway_name prefix t.labels) a)

abbrev pub nothing_assigned : Assigned
nothing_assigned = record {
  members = record { addresses = []; names = [] };
  unresolved = [];
  conflicts = [];
}
