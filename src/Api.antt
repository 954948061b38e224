-- ===== src/Api.antt =====
-- api/v1alpha1: the gateway model, as the YAML document and the labels of containers spell it, and
-- the errors of the program, each with the values that its message shows.
pub mod Values
pub mod Validate
pub mod Gateways
pub mod Labels
pub mod Discover
use degc.Prelude.{ℕ, Bool, Option, none, List}
use degc.Text.{Text}
use degc.Map.{BTreeMap}

-- What the code takes from elsewhere: `network` is `IpNetwork::from_str` of the crate ipnetwork,
-- with what is asked of its result, and `printable` is Unicode's table behind `{:?}`.
pub record Network : Type 0 where
  pub is_ipv4 : Bool
  pub shown : Text

pub record Libs : Type 0 where
  pub network : Text → Option Network
  pub printable : ℕ → Bool

pub record Egress : Type 0 where
  pub interface : Option Text
  pub container : Option Text
  pub next_hop : Option Text

abbrev pub no_egress : Egress
no_egress = record { interface = none; container = none; next_hop = none }

abbrev pub Selector : Type 0
Selector = BTreeMap Text Text

abbrev pub Labels : Type 0
Labels = BTreeMap Text Text

pub record Gateway : Type 0 where
  pub name : Text
  pub egress : Egress
  pub snat : Option Bool
  pub mark : Option Text
  pub table : Option ℕ
  pub is_default : Bool
  pub local_subnets : List Text
  pub members : List Selector

abbrev pub GatewayList : Type 0
GatewayList = List Gateway

-- The errors of validation, of routing collisions and of the parts that touch the host.
pub data Error : Type 0 where
  egress_kinds : Text → ℕ → Error
  bad_mark : Text → Text → Error
  zero_mark zero_table : Text → Error
  bad_interface bad_next_hop bad_local_subnet : Text → Text → Error
  empty_selector : Text → Error
  duplicate_gateway : Text → Error
  many_defaults : Error
  docker_failed : Text → Error
  same_mark same_table : Text → Text → ℕ → Error
  bad_document : Error
  read_failed : Text → Error
  bad_table_label : Text → Text → Error
  foreign_occupant : ℕ → Text → Error
  fwmark_taken : Text → Text → Error
  ip_spawn : List Text → Error
  ip_failed : List Text → Text → Error
  nft_failed : Text → Error
