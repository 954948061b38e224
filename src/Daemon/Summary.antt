-- ===== src/Daemon/Summary.antt =====
-- `plan_summary` and the statistics of a reconcile.
use degc.Prelude.{
  ℕ, ◌+◌, Bool, true, false, List, [], ◌∷◌, ◌++◌, map, length, is_empty, if◌then◌else◌,
}
use degc.Text.{Text, str, join}
use degc.Text.Numbers.{show}
use degc.Net.Print.{print}
use degc.Plan.{Plan, GatewayPlan, Egress, interface, next_hop, unavailable}
use degc.Obs.{ReconcileStats}

unfoldable pub egress_text : Egress → Text
egress_text (interface i) = str "dev " ++ i
egress_text (next_hop ip) = str "via " ++ print ip
egress_text (unavailable why) = str "DOWN"

unfoldable pub gateway_part : GatewayPlan → Text
gateway_part g =
    g.gateway.name
    ++ str "="
    ++ egress_text g.egress
    ++ str " members="
    ++ show (length g.members)
    ++ str "["
    ++ join (str ",") g.member_names
    ++ str "]"

abbrev counted : Text → ℕ → List Text
counted name n = (name ++ show n) ∷ []

-- A count is shown where there is something to count.
abbrev count_part {ℓ} : {A : Type ℓ} → Text → List A → List Text
count_part name l = if is_empty l then [] else counted name (length l)

abbrev parts_text : List Text → Text
parts_text parts = if is_empty parts then str "no gateways" else join (str "  ") parts

unfoldable pub plan_summary : Plan → Text
plan_summary plan = parts_text (
    map gateway_part plan.gateways
    ++ count_part (str "unresolved=") plan.unresolved
    ++ count_part (str "conflicts=") plan.conflicts
    ++ count_part (str "gatewayErrors=") plan.discovery_errors)

unfoldable pub member_count : List GatewayPlan → ℕ
member_count [] = 0
member_count (g ∷ rest) = length g.members + member_count rest

unfoldable pub is_available : Egress → Bool
is_available (interface i) = true
is_available (next_hop ip) = true
is_available (unavailable why) = false

unfoldable pub stats_of : Plan → ReconcileStats
stats_of plan = record {
  members = member_count plan.gateways;
  gateways = map (λ (g : GatewayPlan). (g.gateway.name, is_available g.egress)) plan.gateways;
}
