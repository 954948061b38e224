-- ===== src/Plan/Merge.antt =====
-- The first loop of `compile`: the configured gateways, and those that containers declare.
pub mod Names
pub mod Complete
use degc.Prelude.{
  Bool, true, false, Option, none, some, List, [], ◌∷◌, ◌++◌, Result, ok, err, any, if◌then◌else◌,
}
use degc.Text.{Text, same}
use degc.Map.{get, text_key}
use degc.Api.{Libs, Gateway, GatewayList, Error}
use degc.Api.Labels.{gateway_name}
use degc.Api.Discover.{discovered_gateway}
use degc.Docker.{Target}
use degc.Plan.Resolve.{service_label}

-- The gateways so far and the errors so far.
pub record Merged : Type 0 where
  pub gateways : GatewayList
  pub errors : List (Text × Error)

unfoldable pub is_known : Text → GatewayList → Bool
is_known name gws = any (λ g. same g.name name) gws

abbrev pub or_else : Option Text → Text → Text
or_else none d = d
or_else (some s) d = s

-- The container itself is the egress, by its Compose service or else its name.
unfoldable pub egress_container : Target → Text
egress_container t = or_else (get service_label t.labels) t.name

abbrev push_result : Merged → Text → Result Error Gateway → Merged
push_result m container (ok gw) = record m { gateways = m.gateways ++ gw ∷ [] }
push_result m container (err e) = record m { errors = m.errors ++ (container, e) ∷ [] }

module _ (libs : Libs) (prefix : Text) where
  -- What the container's `gateway` label adds, if it has one.
  unfoldable pub declare : Merged → Target → Option Text → Merged
  declare m t none = m
  declare m t (some name) =
      if is_known name m.gateways
      then m
      else push_result m t.name (discovered_gateway libs prefix name (egress_container t) t.labels)

  unfoldable pub merge : List Target → Merged → Merged
  merge [] m = m
  merge (t ∷ rest) m = merge rest (declare m t (gateway_name prefix t.labels))

  unfoldable pub merge_gateways : List Target → GatewayList → Merged
  merge_gateways targets gws = merge targets (record { gateways = gws; errors = [] })
