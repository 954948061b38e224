-- ===== src/Daemon/Status.antt =====
-- `status` of main.rs: the plan and the desired state, shown and not applied.
use degc.Prelude.{
  ℕ, zero, suc, ◌-◌, Bool, List, [], ◌∷◌, ◌++◌, Result, ok, err, map, flat_map, length, is_empty,
  if◌then◌else◌,
}
use degc.Text.{Text, str, join}
use degc.Text.Numbers.{show}
use degc.Text.Debug.{debug}
use degc.Net.Print.{print as print_ip}
use degc.Api.{Libs, GatewayList, Error}
use degc.Api.Values.{mark_value, table_id}
use degc.Docker.{ContainerSummary, list_targets}
use degc.Plan.{Plan, GatewayPlan, Egress, interface, next_hop, unavailable}
use degc.Plan.Resolve.{why}
use degc.Plan.Compile.{compile as compile_plan}
use degc.Enforce.Route.{mark_text}
use degc.Enforce.Compile.{Desired, compile as compile_desired, print}

-- A line of the output; a warning on a container's labels stays the error that it prints.
pub data StatusLine : Type 0 where
  plain : Text → StatusLine
  discovery_warning : Text → Error → StatusLine

abbrev spaces : ℕ → Text
spaces zero = []
spaces (suc n) = b' ' ∷ spaces n

-- `{:<w}`
unfoldable pub pad_right : ℕ → Text → Text
pad_right w s = s ++ spaces (w - length s)

-- `{:?}` of a list of texts.
unfoldable pub debug_list : (ℕ → Bool) → List Text → Text
debug_list printable l = str "[" ++ join (str ", ") (map (debug printable) l) ++ str "]"

abbrev mark_or : Result Error ℕ → Text
mark_or (ok m) = mark_text m
mark_or (err e) = str "?"

module _ (libs : Libs) where
  unfoldable pub status_egress : Egress → Text
  status_egress (interface i) = str "interface " ++ i
  status_egress (next_hop ip) = str "via " ++ print_ip ip
  status_egress (unavailable reason) = str "UNAVAILABLE (" ++ why libs.printable reason ++ str ")"

  unfoldable pub gateway_lines : GatewayPlan → List StatusLine
  gateway_lines gp =
      plain (
        str "# gateway "
        ++ pad_right 12 gp.gateway.name
        ++ str " egress="
        ++ status_egress gp.egress
        ++ str "  mark="
        ++ mark_or (mark_value gp.gateway)
        ++ str " table="
        ++ show (table_id gp.gateway)
        ++ str "  members="
        ++ show (length gp.members))
      ∷ (if is_empty gp.member_names
          then []
          else plain (str "#   members: " ++ join (str ", ") gp.member_names) ∷ [])

  unfoldable pub unresolved_line : Text × Text → StatusLine
  unresolved_line (container, via) = plain (
      str "# WARNING: container "
      ++ debug libs.printable container
      ++ str " wants gateway "
      ++ debug libs.printable via
      ++ str " — no such gateway")

  unfoldable pub conflict_line : Text × List Text → StatusLine
  conflict_line (container, gws) = plain (
      str "# WARNING: container "
      ++ debug libs.printable container
      ++ str " matches multiple gateway selectors "
      ++ debug_list libs.printable gws
      ++ str " — not routed (set degc.via)")

  unfoldable pub status_lines : Plan → List StatusLine
  status_lines plan =
      flat_map gateway_lines plan.gateways
      ++ map unresolved_line plan.unresolved
      ++ map conflict_line plan.conflicts
      ++ map (λ (e : Text × Error). discovery_warning e.0 e.1) plan.discovery_errors

  abbrev printed : Result Error Desired → Result Error Text
  printed (ok d) = ok (print d)
  printed (err e) = err e

  -- The lines, which are out before the desired state is compiled; then its text, or the error.
  unfoldable pub status_in :
      Text
      → GatewayList
      → Result Error (List ContainerSummary)
      → List StatusLine × Result Error Text
  status_in prefix gws (err e) = ([], err e)
  status_in prefix gws (ok containers) =
      let plan = compile_plan libs (list_targets containers) prefix gws in
      (status_lines plan, printed (compile_desired libs plan))
