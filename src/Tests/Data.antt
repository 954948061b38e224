-- ===== src/Tests/Data.antt =====
-- Data for the tests and witnesses: the gateways and containers of the source's own tests.
use degc.Prelude.{ℕ, true, false, Option, none, some, List, [], ◌∷◌, String, if◌then◌else◌}
use degc.Text.{Text, str, same}
use degc.Map.{collect, text_key}
use degc.Net.{IpAddr, v4}
use degc.Api.{Libs, Network, Gateway, Egress}
use degc.Docker.{Target}

-- A parser of networks that knows the defaults and one IPv6 network.
abbrev pub known_network : Text → Option Network
known_network s =
    if same s (str "10.0.0.0/8")
    then some (record { is_ipv4 = true; shown = s })
    else if same s (str "172.16.0.0/12")
    then some (record { is_ipv4 = true; shown = s })
    else if same s (str "192.168.0.0/16")
    then some (record { is_ipv4 = true; shown = s })
    else if same s (str "fd00::/8")
    then some (record { is_ipv4 = false; shown = s })
    else none

abbrev pub libs : Libs
libs = record { network = known_network; printable = λ c. true }

abbrev pub gateway : Text → Egress → Gateway
gateway name egress = record {
  name = name;
  egress = egress;
  snat = none;
  mark = none;
  table = none;
  is_default = false;
  local_subnets = [];
  members = [];
}

abbrev pub via_interface : String → Egress
via_interface iface = record { interface = some (str iface); container = none; next_hop = none }

abbrev pub via_container : String → Egress
via_container name = record { interface = none; container = some (str name); next_hop = none }

abbrev pub vpn : Gateway
vpn = record (gateway (str "vpn") (via_interface "wg0")) {
  mark = some (str "0x4");
  table = some 200;
}

abbrev pub work : Gateway
work = gateway (str "work") (via_interface "wg1")

abbrev pub service : Text
service = str "com.docker.compose.service"

abbrev pub target : String → IpAddr → List (Text × Text) → Target
target name ip labels = record {
  name = str name;
  labels = collect labels;
  networks = (str "services", ip ∷ []) ∷ [];
}

abbrev pub ip : ℕ → IpAddr
ip n = v4 172 18 0 n
