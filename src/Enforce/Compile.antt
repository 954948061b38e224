-- ===== src/Enforce/Compile.antt =====
-- `enforce::compile` and the print of what it gives.
pub mod Total
use degc.Prelude.{
  ℕ, Bool, List, [], ◌∷◌, ◌++◌, Result, ok, ◌>>=◌, ◌>>◌, map, flat_map, if◌then◌else◌,
}
use degc.Text.{Text, str, join}
use degc.Text.Debug.{debug}
use degc.Api.{Libs, Error}
use degc.Api.Values.{mark_value, table_id}
use degc.Api.Gateways.{check_unique_routing}
use degc.Plan.{Plan, GatewayPlan}
use degc.Enforce.Route.{IpCmd, mark_text, build}
use degc.Enforce.Nft.{line, build_script}

pub record Desired : Type 0 where
  pub warnings : List Text
  pub nft : Text
  pub ip : List IpCmd
  pub guards : List (Text × ℕ)

unfoldable pub warning : (ℕ → Bool) → Text × Text → Text
warning printable (c, via) =
    str "container "
    ++ debug printable c
    ++ str " opted into gateway "
    ++ debug printable via
    ++ str " — no such gateway (not routed)"

unfoldable pub guards_from : List GatewayPlan → List (Text × ℕ) → Result Error (List (Text × ℕ))
guards_from [] guards = ok guards
guards_from (gp ∷ rest) guards = do
  value ← mark_value gp.gateway
  guards_from rest (guards ++ (mark_text value, table_id gp.gateway) ∷ [])

unfoldable pub compile : Libs → Plan → Result Error Desired
compile libs plan = do
  check_unique_routing (map (λ (gp : GatewayPlan). gp.gateway) plan.gateways)
  guards ← guards_from plan.gateways []
  nft ← build_script libs plan
  ip ← build plan
  ok (record {
    warnings = map (warning libs.printable) plan.unresolved;
    nft = nft;
    ip = ip;
    guards = guards;
  })

unfoldable pub print_cmd : IpCmd → Text
print_cmd c =
    line (
      str "ip "
      ++ join (str " ") c.args
      ++ (if c.ignore_fail then str "    # ok if absent" else []))

-- `Display for Desired`
unfoldable pub print : Desired → Text
print d =
    line (str "# degc desired host state")
    ++ flat_map (λ w. line (str "# WARNING: " ++ w)) d.warnings
    ++ line (str "# --- nftables (nft -f -) ---")
    ++ d.nft
    ++ line (str "# --- routing (ip) ---")
    ++ flat_map print_cmd d.ip
