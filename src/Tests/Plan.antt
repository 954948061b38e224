-- ===== src/Tests/Plan.antt =====
-- The source's tests of plan.rs.
use degc.Prelude.{◌≡◌, refl, List, [], ◌∷◌, map}
use degc.Text.{Text, str}
use degc.Map.{text_key}
use degc.Api.{Gateway, GatewayList, bad_table_label}
use degc.Api.Values.{table_id}
use degc.Docker.{Target}
use degc.Plan.{GatewayPlan, next_hop, unavailable, not_running}
use degc.Plan.Compile.{compile}
use degc.Tests.Open.{program}
use degc.Tests.Data.{libs, gateway, via_container, vpn, work, service, target, ip}

abbrev app : List Target
app =
    target "a" (ip 7) ((str "degc.enable", str "true") ∷ [])
    ∷ target "b" (ip 8) ((str "degc.enable", str "true") ∷ (str "degc.via", str "vpn") ∷ [])
    ∷ target "c" (ip 9) []
    ∷ target "d" (ip 10) ((str "degc.enable", str "true") ∷ (str "degc.via", str "nope") ∷ [])
    ∷ []

abbrev by_label : Text → Text → Gateway → Gateway
by_label k v g = record g { members = ((k, v) ∷ []) ∷ [] }

members_collected_per_gateway :
    (map (λ (g : GatewayPlan). g.members) (compile libs app (str "degc") (vpn ∷ [])).gateways
      ≡ (ip 7 ∷ ip 8 ∷ []) ∷ [])
    × ((compile libs app (str "degc") (vpn ∷ [])).unresolved ≡ (str "d", str "nope") ∷ [])
unfolding program
members_collected_per_gateway = (refl, refl)

abbrev gluetun : GatewayList
gluetun = gateway (str "gw") (via_container "gluetun") ∷ []

container_egress :
    (map
        (λ (g : GatewayPlan). g.egress)
        (compile libs
          (target "x" (ip 50) ((service, str "gluetun") ∷ []) ∷ [])
          (str "degc")
          gluetun).gateways
      ≡ next_hop (ip 50) ∷ [])
    × (map (λ (g : GatewayPlan). g.egress) (compile libs [] (str "degc") gluetun).gateways
        ≡ unavailable (not_running (str "gluetun")) ∷ [])
unfolding program
container_egress = (refl, refl)

ambiguous_selector :
    (compile libs
      (target "x" (ip 5) ((str "app", str "yes") ∷ []) ∷ [])
      (str "degc")
      (by_label (str "app") (str "yes") vpn ∷ by_label (str "app") (str "yes") work ∷ [])).conflicts
    ≡ (str "x", str "vpn" ∷ str "work" ∷ []) ∷ []
unfolding program
ambiguous_selector = refl

abbrev knobs : Text → List Target
knobs table =
    target "gw" (ip 24) (
      (str "degc.gateway", str "vpn")
      ∷ (str "degc.gateway.snat", str "true")
      ∷ (str "degc.gateway.table", table)
      ∷ [])
    ∷ []

discovered_knobs :
    (map
        (λ (g : GatewayPlan). table_id g.gateway)
        (compile libs (knobs (str "222")) (str "degc") []).gateways
      ≡ 222 ∷ [])
    × ((compile libs (knobs (str "x1")) (str "degc") []).discovery_errors
        ≡ (str "gw", bad_table_label (str "vpn") (str "x1")) ∷ [])
unfolding program
discovered_knobs = (refl, refl)
