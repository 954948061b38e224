-- ===== src/Plan/Compile.antt =====
-- `plan::compile`, which joins the two loops.
pub mod Routes
pub mod Outcomes
use degc.Prelude.{List, [], ◌∷◌}
use degc.Text.{Text}
use degc.Map.{BTreeMap, get, remove, text_key}
use degc.Api.{Libs, Gateway, GatewayList}
use degc.Docker.{Target}
use degc.Plan.{Plan, GatewayPlan, Members}
use degc.Plan.Resolve.{resolve_egress}
use degc.Plan.Merge.{merge_gateways}
use degc.Plan.Assign.{assign, nothing_assigned, or_empty}

-- The last loop: a gateway takes its members out of the maps.
unfoldable pub gateway_plans : List Target → GatewayList → Members → List GatewayPlan
gateway_plans targets [] m = []
gateway_plans targets (gw ∷ rest) m =
    record {
      gateway = gw;
      egress = resolve_egress gw targets;
      members = or_empty (get gw.name m.addresses);
      member_names = or_empty (get gw.name m.names);
    }
    ∷ gateway_plans targets rest
        (record { addresses = remove gw.name m.addresses; names = remove gw.name m.names })

unfoldable pub compile : Libs → List Target → Text → GatewayList → Plan
compile libs targets prefix gws =
    let merged = merge_gateways libs prefix targets gws in
    let assigned = assign prefix merged.gateways targets nothing_assigned in
    record {
      gateways = gateway_plans targets merged.gateways assigned.members;
      unresolved = assigned.unresolved;
      conflicts = assigned.conflicts;
      discovery_errors = merged.errors;
    }
