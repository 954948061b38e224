-- ===== src/Plan/Resolve.antt =====
-- `resolve_egress` and `gateway_container_ip`.
pub mod Source
pub mod First
pub mod Hops
pub mod Exact
use degc.Prelude.{ℕ, Bool, false, ◌||◌, Option, none, some, List, ◌++◌, find, flat_map}
use degc.Text.{Text, str, same}
use degc.Text.Debug.{debug}
use degc.Map.{values, get, text_key}
use degc.Net.{IpAddr, is_ipv4}
use degc.Net.Parse.{parse}
use degc.Api.{Gateway}
use degc.Docker.{Target}
use degc.Plan.{
  Reason, not_an_ip, not_running, not_configured, Egress, interface, next_hop, unavailable,
}

abbrev pub service_label : Text
service_label = str "com.docker.compose.service"

-- All addresses of a container, in the order of its networks.
unfoldable pub addresses : Target → List IpAddr
addresses t = flat_map (λ l. l) (values t.networks)

abbrev pub is_text : Option Text → Text → Bool
is_text none s = false
is_text (some t) s = same t s

-- The Docker name or the Compose service.
unfoldable pub is_match : Text → Target → Bool
is_match sel t = same t.name sel || is_text (get service_label t.labels) sel

-- The first match is taken, and its first IPv4 address, if it has one.
unfoldable pub gateway_container_ip : Text → List Target → Option IpAddr
gateway_container_ip sel targets = elim (find (is_match sel) targets) [
  | none ↦ none
  | some t ↦ find is_ipv4 (addresses t)
]

unfoldable pub static_hop : Text → Egress
static_hop nh = elim (parse nh) [ some ip ↦ next_hop ip | none ↦ unavailable (not_an_ip nh) ]

unfoldable pub container_hop : Text → List Target → Egress
container_hop sel targets = elim (gateway_container_ip sel targets) [
  | some ip ↦ next_hop ip
  | none ↦ unavailable (not_running sel)
]

unfoldable pub by_container : Option Text → List Target → Egress
by_container none targets = unavailable not_configured
by_container (some sel) targets = container_hop sel targets

unfoldable pub by_next_hop : Option Text → Option Text → List Target → Egress
by_next_hop none container targets = by_container container targets
by_next_hop (some nh) container targets = static_hop nh

unfoldable pub by_interface : Option Text → Option Text → Option Text → List Target → Egress
by_interface none nh container targets = by_next_hop nh container targets
by_interface (some iface) nh container targets = interface iface

-- An interface goes before a next hop, and that before a container.
unfoldable pub resolve_egress : Gateway → List Target → Egress
resolve_egress gw targets =
    by_interface gw.egress.interface gw.egress.next_hop gw.egress.container targets

-- The text of a reason.
unfoldable pub why : (ℕ → Bool) → Reason → Text
why printable (not_an_ip nh) = str "nextHop " ++ debug printable nh ++ str " is not an IP"
why printable (not_running sel) =
    str "gateway container " ++ debug printable sel ++ str " not running"
why printable not_configured = str "no egress configured"
