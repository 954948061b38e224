-- ===== src/Enforce/Nft.antt =====
-- enforce/nft.rs: the script for the table `inet degc`. A line is written with its line feed.
pub mod Apply
pub mod KillSwitch
pub mod Pieces
pub mod Marking
use degc.Prelude.{
  ℕ, Bool, true, false, ◌||◌, not, Option, none, some, List, [], ◌∷◌, ◌++◌, Result, ok, ◌>>=◌, map,
  filter, filter_map, is_empty, if◌then◌else◌, ◌==◌,
}
use degc.Text.{Text, str, join}
use degc.Text.Chars.{is_ascii_alphanumeric}
use degc.Net.{IpAddr, is_ipv4, is_ipv6}
use degc.Net.Print.{print}
use degc.Api.{Libs, Network, Gateway, Error}
use degc.Api.Values.{mark_value, snat_enabled, local_subnets_effective}
use degc.Plan.{Plan, GatewayPlan, Egress, Reason, interface, next_hop, unavailable}
use degc.Plan.Resolve.{why}
use degc.Enforce.Route.{mark_text}

abbrev pub teardown_script : Text
teardown_script = str "add table inet degc\ndelete table inet degc\n"

unfoldable pub sanitize_char : ℕ → ℕ
sanitize_char c = if is_ascii_alphanumeric c || c == b'_' then c else b'_'

unfoldable pub sanitize : Text → Text
sanitize name = map sanitize_char name

-- `writeln!`
abbrev pub line : Text → Text
line s = s ++ 10 ∷ []

unfoldable pub emit_set : Text → Text → Text → Bool → List Text → Text
emit_set out name typ interval elems =
    out
    ++ line (str "    set " ++ name ++ str " {")
    ++ line (str "        type " ++ typ)
    ++ (if interval then line (str "        flags interval") else [])
    ++ (if is_empty elems
        then []
        else line (str "        elements = { " ++ join (str ", ") elems ++ str " }"))
    ++ line (str "    }")

-- The text with the set, and the clause that excludes it.
unfoldable pub excl_clause : Text → Text → Text → Text → List Text → Text × Text
excl_clause out name typ daddr_kw cidrs =
    if is_empty cidrs
    then (out, [])
    else (emit_set out name typ true cidrs, str " " ++ daddr_kw ++ str " != @" ++ name)

-- The four texts that the loop fills.
pub record Rules : Type 0 where
  pub sets : Text
  pub mark_rules : Text
  pub snat_rules : Text
  pub kill_rules : Text

unfoldable pub snat_rule : Text → Egress → Text
snat_rule mark (interface iface) =
    line (str "        meta mark " ++ mark ++ str " oifname \"" ++ iface ++ str "\" masquerade")
snat_rule mark (next_hop ip) = line (str "        meta mark " ++ mark ++ str " masquerade")
snat_rule mark (unavailable reason) = []

module _ (libs : Libs) where
  unfoldable pub kill_rule : Text → Egress → Text
  kill_rule mark (interface iface) =
      line (str "        meta mark " ++ mark ++ str " oifname != \"" ++ iface ++ str "\" drop")
  kill_rule mark (unavailable reason) = line (
      str "        meta mark "
      ++ mark
      ++ str " drop   # egress unavailable: "
      ++ why libs.printable reason)
  kill_rule mark (next_hop ip) = []

  -- The local subnets of one family, as the crate prints them.
  unfoldable pub locals : (Network → Bool) → Gateway → List Text
  locals family gw =
      map (λ (n : Network). n.shown)
        (filter family (filter_map libs.network (local_subnets_effective gw)))

  -- The IPv6 kill-switch: the sets and the drop rules with it.
  unfoldable pub kill6 : Gateway → List Text → Rules → Rules
  kill6 gw members6 r =
      if is_empty members6
      then r
      else let via6 = str "degc_via6_" ++ sanitize gw.name in
        let (sets, excl6) =
          excl_clause (emit_set r.sets via6 (str "ipv6_addr") false members6)
            (str "degc_local6_" ++ sanitize gw.name) (str "ipv6_addr") (str "ip6 daddr")
            (locals (λ n. not n.is_ipv4) gw) in
        record r {
          sets = sets;
          kill_rules =
              r.kill_rules ++ line (str "        ip6 saddr @" ++ via6 ++ excl6 ++ str " drop");
        }

  -- What one round of the loop adds before the kill-switch, for the mark as it is printed.
  unfoldable pub marked_rules : Text → GatewayPlan → Rules → Rules
  marked_rules mark gp r =
      let gw = gp.gateway in
      let via = str "degc_via_" ++ sanitize gw.name in
      let members4 = map print (filter is_ipv4 gp.members) in
      let (sets, excl4) =
        excl_clause (emit_set r.sets via (str "ipv4_addr") false members4)
          (str "degc_local_" ++ sanitize gw.name) (str "ipv4_addr") (str "ip daddr")
          (locals (λ n. n.is_ipv4) gw) in
      record {
        sets = sets;
        mark_rules =
            r.mark_rules
            ++ line (str "        ip saddr @" ++ via ++ excl4 ++ str " meta mark set " ++ mark);
        snat_rules = r.snat_rules ++ (if snat_enabled gw then snat_rule mark gp.egress else []);
        kill_rules = r.kill_rules;
      }

  -- The whole round.
  unfoldable pub gateway_rules : Text → GatewayPlan → Rules → Rules
  gateway_rules mark gp r =
      let members6 = map print (filter is_ipv6 gp.members) in
      let killed = kill6 gp.gateway members6 (marked_rules mark gp r) in
      record killed { kill_rules = killed.kill_rules ++ kill_rule mark gp.egress }

  unfoldable pub rules_from : List GatewayPlan → Rules → Result Error Rules
  rules_from [] r = ok r
  rules_from (gp ∷ rest) r = do
    value ← mark_value gp.gateway
    rules_from rest (gateway_rules (mark_text value) gp r)

abbrev pub no_rules : Rules
no_rules = record { sets = []; mark_rules = []; snat_rules = []; kill_rules = [] }

abbrev pub table_open : Text
table_open =
    line (str "add table inet degc")
    ++ line (str "delete table inet degc")
    ++ line (str "table inet degc {")

abbrev pub mark_open : Text
mark_open =
    line (str "    chain degc_mark {")
    ++ line (str "        type filter hook prerouting priority mangle; policy accept;")

abbrev pub snat_chain : Text → Text
snat_chain rules =
    if is_empty rules
    then []
    else line (str "    chain degc_snat {")
      ++ line (str "        type nat hook postrouting priority srcnat; policy accept;")
      ++ rules
      ++ line (str "    }")

abbrev pub kill_open : Text
kill_open =
    line (str "    chain degc_killswitch {")
    ++ line (str "        type filter hook forward priority filter; policy accept;")

-- The three chains around the rules, up to the rules of the kill-switch.
abbrev pub table_head : Rules → Text
table_head r =
    table_open
    ++ r.sets
    ++ mark_open
    ++ r.mark_rules
    ++ line (str "    }")
    ++ snat_chain r.snat_rules
    ++ kill_open

unfoldable pub table_text : Rules → Text
table_text r = table_head r ++ r.kill_rules ++ line (str "    }") ++ line (str "}")

unfoldable pub build_script : Libs → Plan → Result Error Text
build_script libs plan = do r ← rules_from libs plan.gateways no_rules; ok (table_text r)
