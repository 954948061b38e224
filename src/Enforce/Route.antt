-- ===== src/Enforce/Route.antt =====
-- enforce/route.rs: the `ip` commands of a plan and of the teardown.
pub mod Undo
pub mod FailClosed
pub mod Order
pub mod Preflight
pub mod Apply
use degc.Prelude.{ℕ, Bool, true, false, List, [], ◌∷◌, ◌++◌, Result, ok, ◌>>=◌}
use degc.Text.{Text, str}
use degc.Text.Numbers.{show, show_hex, show_radix}
use degc.Net.{IpAddr}
use degc.Net.Print.{print}
use degc.Api.{Gateway, GatewayList, Error}
use degc.Api.Values.{mark_value, table_id}
use degc.Plan.{Plan, GatewayPlan, Egress, Reason, interface, next_hop, unavailable}

-- The argv of one `ip`, and whether its failure is expected.
pub record IpCmd : Type 0 where
  pub args : List Text
  pub ignore_fail : Bool

abbrev pub rt_proto : Text
rt_proto = str "194"

abbrev pub rule_priority : Text
rule_priority = str "100"

-- `format!("0x{:x}")`
unfoldable pub mark_text : ℕ → Text
mark_text mark = str "0x" ++ show_hex mark

unfoldable pub blackhole_cmd : Text → IpCmd
blackhole_cmd table = record {
  args =
      str "route"
      ∷ str "replace"
      ∷ str "blackhole"
      ∷ str "default"
      ∷ str "table"
      ∷ table
      ∷ str "proto"
      ∷ rt_proto
      ∷ str "metric"
      ∷ str "9999"
      ∷ [];
  ignore_fail = false;
}

unfoldable pub rule_cmd : Text → Text → IpCmd
rule_cmd mark table = record {
  args =
      str "rule"
      ∷ str "add"
      ∷ str "fwmark"
      ∷ mark
      ∷ str "table"
      ∷ table
      ∷ str "priority"
      ∷ rule_priority
      ∷ [];
  ignore_fail = true;
}

-- The live default route, or its removal where there is no egress.
unfoldable pub egress_cmd : Text → Egress → IpCmd
egress_cmd table (interface iface) = record {
  args =
      str "route"
      ∷ str "replace"
      ∷ str "default"
      ∷ str "dev"
      ∷ iface
      ∷ str "table"
      ∷ table
      ∷ str "proto"
      ∷ rt_proto
      ∷ str "metric"
      ∷ str "1"
      ∷ [];
  ignore_fail = false;
}
egress_cmd table (next_hop ip) = record {
  args =
      str "route"
      ∷ str "replace"
      ∷ str "default"
      ∷ str "via"
      ∷ print ip
      ∷ str "table"
      ∷ table
      ∷ str "proto"
      ∷ rt_proto
      ∷ str "metric"
      ∷ str "1"
      ∷ [];
  ignore_fail = false;
}
egress_cmd table (unavailable why) = record {
  args =
      str "route"
      ∷ str "del"
      ∷ str "default"
      ∷ str "table"
      ∷ table
      ∷ str "proto"
      ∷ rt_proto
      ∷ str "metric"
      ∷ str "1"
      ∷ [];
  ignore_fail = true;
}

-- The loop of `build`; `cmds` are the commands pushed so far.
unfoldable pub build_from : List GatewayPlan → List IpCmd → Result Error (List IpCmd)
build_from [] cmds = ok cmds
build_from (gp ∷ rest) cmds = do
  value ← mark_value gp.gateway
  let table = show (table_id gp.gateway)
  build_from rest (
      cmds
      ++ blackhole_cmd table ∷ rule_cmd (mark_text value) table ∷ egress_cmd table gp.egress ∷ [])

unfoldable pub build : Plan → Result Error (List IpCmd)
build plan = build_from plan.gateways []

unfoldable pub rule_del_cmd : Text → Text → IpCmd
rule_del_cmd mark table = record {
  args = str "rule" ∷ str "del" ∷ str "fwmark" ∷ mark ∷ str "table" ∷ table ∷ [];
  ignore_fail = true;
}

unfoldable pub flush_cmd : Text → IpCmd
flush_cmd table = record {
  args = str "route" ∷ str "flush" ∷ str "table" ∷ table ∷ str "proto" ∷ rt_proto ∷ [];
  ignore_fail = true;
}

unfoldable pub teardown_from : GatewayList → List IpCmd → Result Error (List IpCmd)
teardown_from [] cmds = ok cmds
teardown_from (gw ∷ rest) cmds = do
  value ← mark_value gw
  let table = show (table_id gw)
  teardown_from rest (cmds ++ rule_del_cmd (mark_text value) table ∷ flush_cmd table ∷ [])

unfoldable pub teardown : GatewayList → Result Error (List IpCmd)
teardown gws = teardown_from gws []
