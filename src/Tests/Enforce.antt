-- ===== src/Tests/Enforce.antt =====
-- The source's tests of enforce.
use degc.Prelude.{◌≡◌, refl, true, none, some, List, [], ◌∷◌, ◌++◌, map, Result, ok, err}
use degc.Text.{Text, str, join}
use degc.Net.{IpAddr, v6}
use degc.Api.{Error}
use degc.Plan.{Plan, Egress, interface, unavailable, not_running}
use degc.Enforce.Route.{IpCmd, build, teardown}
use degc.Enforce.Route.Preflight.{foreign_route, conflicting_fwmark_rule}
use degc.Enforce.Nft.{build_script, sanitize}
use degc.Tests.Open.{program}
use degc.Tests.Data.{libs, vpn, ip}

abbrev plan_with : Egress → List IpAddr → Plan
plan_with egress members = record {
  gateways =
      record {
        gateway = record vpn {
          snat = some true;
          local_subnets = str "10.0.0.0/8" ∷ str "fd00::/8" ∷ [];
        };
        egress = egress;
        members = members;
        member_names = [];
      }
      ∷ [];
  unresolved = [];
  conflicts = [];
  discovery_errors = [];
}

abbrev texts : Result Error (List IpCmd) → List Text
texts (ok cmds) = map (λ (c : IpCmd). join (str " ") c.args) cmds
texts (err e) = []

routes :
    (texts (build (plan_with (interface (str "wg0")) []))
      ≡ str "route replace blackhole default table 200 proto 194 metric 9999"
        ∷ str "rule add fwmark 0x4 table 200 priority 100"
        ∷ str "route replace default dev wg0 table 200 proto 194 metric 1"
        ∷ [])
    × (texts (teardown (vpn ∷ []))
        ≡ str "rule del fwmark 0x4 table 200" ∷ str "route flush table 200 proto 194" ∷ [])
unfolding program
routes = (refl, refl)

foreign_routes :
    (foreign_route (str "default dev wg0 proto 194 metric 1\nblackhole default proto 194") ≡ none)
    × (foreign_route (str " default via 10.0.0.1 proto static")
        ≡ some (str "default via 10.0.0.1 proto static"))
unfolding program
foreign_routes = (refl, refl)

fwmark_rules :
    (conflicting_fwmark_rule
        (str "0:\tfrom all lookup local\n200:\tfrom all fwmark 0x4 lookup 200")
        (str "0x4")
        (str "200")
      ≡ none)
    × (conflicting_fwmark_rule
          (str "100:\tfrom all fwmark 0x4/0xffffffff lookup 999\n")
          (str "0x4")
          (str "200")
        ≡ some (str "100:\tfrom all fwmark 0x4/0xffffffff lookup 999"))
unfolding program
fwmark_rules = (refl, refl)

abbrev script_text : Text
script_text =
    str "add table inet degc\ndelete table inet degc\ntable inet degc {\n"
    ++ str
        "    set degc_via_vpn {\n        type ipv4_addr\n        elements = { 172.18.0.7 }\n    }\n"
    ++ str "    set degc_local_vpn {\n        type ipv4_addr\n        flags interval\n"
    ++ str "        elements = { 10.0.0.0/8 }\n    }\n"
    ++ str
        "    set degc_via6_vpn {\n        type ipv6_addr\n        elements = { fd00::1 }\n    }\n"
    ++ str "    set degc_local6_vpn {\n        type ipv6_addr\n        flags interval\n"
    ++ str "        elements = { fd00::/8 }\n    }\n"
    ++ str "    chain degc_mark {\n"
    ++ str "        type filter hook prerouting priority mangle; policy accept;\n"
    ++ str "        ip saddr @degc_via_vpn ip daddr != @degc_local_vpn meta mark set 0x4\n    }\n"
    ++ str "    chain degc_snat {\n"
    ++ str "        type nat hook postrouting priority srcnat; policy accept;\n"
    ++ str "        meta mark 0x4 oifname \"wg0\" masquerade\n    }\n"
    ++ str "    chain degc_killswitch {\n"
    ++ str "        type filter hook forward priority filter; policy accept;\n"
    ++ str "        ip6 saddr @degc_via6_vpn ip6 daddr != @degc_local6_vpn drop\n"
    ++ str "        meta mark 0x4 oifname != \"wg0\" drop\n    }\n}\n"

interface_script :
    build_script libs (plan_with (interface (str "wg0")) (ip 7 ∷ v6 0xfd00 0 0 0 0 0 0 1 ∷ []))
    ≡ ok script_text
unfolding program
interface_script = refl

unavailable_script :
    build_script libs (plan_with (unavailable (not_running (str "gluetun"))) [])
    ≡ ok (
        str "add table inet degc\ndelete table inet degc\ntable inet degc {\n"
        ++ str "    set degc_via_vpn {\n        type ipv4_addr\n    }\n"
        ++ str "    set degc_local_vpn {\n        type ipv4_addr\n        flags interval\n"
        ++ str "        elements = { 10.0.0.0/8 }\n    }\n"
        ++ str "    chain degc_mark {\n"
        ++ str "        type filter hook prerouting priority mangle; policy accept;\n"
        ++ str
            "        ip saddr @degc_via_vpn ip daddr != @degc_local_vpn meta mark set 0x4\n    }\n"
        ++ str "    chain degc_killswitch {\n"
        ++ str "        type filter hook forward priority filter; policy accept;\n"
        ++ str
            "        meta mark 0x4 drop   # egress unavailable: gateway container \"gluetun\" not running\n"
        ++ str "    }\n}\n")
unfolding program
unavailable_script = refl

-- Two gateways whose names differ may have one set.
shared_set : sanitize (str "a-b") ≡ sanitize (str "a.b")
unfolding program
shared_set = refl
