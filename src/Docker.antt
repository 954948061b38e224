-- ===== src/Docker.antt =====
-- docker.rs: the running containers, from what the Docker API lists, and the event watcher.
pub mod Watch
use degc.Prelude.{
  ℕ, not, Option, none, some, List, [], ◌∷◌, ◌++◌, map, filter, filter_map, head?, is_empty, Bool,
  true, false, Result, ok, err, ◌==◌, if◌then◌else◌,
}
use degc.Text.{Text, str}
use degc.Map.{BTreeMap, collect, text_key}
use degc.Net.{IpAddr}
use degc.Net.Parse.{parse}
use degc.Api.{Labels, Error, docker_failed}

-- The client of bollard is made, or not.
abbrev pub connect : Bool → Result Error (Unit {0})
connect true = ok tt
connect false = err (docker_failed (str "connecting to docker"))

pub record Target : Type 0 where
  pub name : Text
  pub labels : Labels
  pub networks : BTreeMap Text (List IpAddr)

-- What degc reads of the crate's models. A `HashMap` is a list in an order of its own.
pub record EndpointSettings : Type 0 where
  pub ip_address : Option Text
  pub global_ipv6_address : Option Text

pub record ContainerSummary : Type 0 where
  pub names : Option (List Text)
  pub labels : Option (List (Text × Text))
  pub networks : Option (List (Text × EndpointSettings))

abbrev or_default {ℓ} : {A : Type ℓ} → Option (List A) → List A
or_default none = []
or_default (some l) = l

-- `trim_start_matches('/')`
unfoldable pub trim_slashes : Text → Text
trim_slashes [] = []
trim_slashes (c ∷ s) = let rest = trim_slashes s in if c == b'/' then rest else c ∷ s

abbrev present : Option Text → List Text
present none = []
present (some s) = if is_empty s then [] else s ∷ []

-- The addresses that are there and parse, IPv4 first.
unfoldable pub endpoint_addresses : EndpointSettings → List IpAddr
endpoint_addresses e = filter_map parse (present e.ip_address ++ present e.global_ipv6_address)

unfoldable pub attached : List (Text × EndpointSettings) → List (Text × List IpAddr)
attached nets = filter (λ n. not (is_empty n.1)) (map (λ n. (n.0, endpoint_addresses n.1)) nets)

abbrev first_name : Option Text → Text
first_name none = []
first_name (some n) = trim_slashes n

unfoldable pub to_target : ContainerSummary → Target
to_target c = record {
  name = first_name (head? (or_default c.names));
  labels = collect (or_default c.labels);
  networks = collect (attached (or_default c.networks));
}

-- `list_targets`, of the containers that the API call gives.
unfoldable pub list_targets : List ContainerSummary → List Target
list_targets = map to_target
