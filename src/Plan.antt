-- ===== src/Plan.antt =====
-- plan.rs: the desired state that one snapshot of containers compiles to.
pub mod Resolve
pub mod Merge
pub mod Assign
pub mod Compile
use degc.Prelude.{List}
use degc.Text.{Text}
use degc.Map.{BTreeMap, BTreeSet}
use degc.Net.{IpAddr}
use degc.Api.{Gateway, Error}

-- Why an egress is not available: the text that the source formats is `why` of Plan/Resolve.
pub data Reason : Type 0 where
  not_an_ip : Text → Reason
  not_running : Text → Reason
  not_configured : Reason

pub data Egress : Type 0 where
  interface : Text → Egress
  next_hop : IpAddr → Egress
  unavailable : Reason → Egress

pub record GatewayPlan : Type 0 where
  pub gateway : Gateway
  pub egress : Egress
  pub members : BTreeSet IpAddr
  pub member_names : BTreeSet Text

-- A discovery error is the container's name with the error of its labels.
pub record Plan : Type 0 where
  pub gateways : List GatewayPlan
  pub unresolved : List (Text × Text)
  pub conflicts : List (Text × List Text)
  pub discovery_errors : List (Text × Error)

-- The two maps that `compile` fills: addresses and names by gateway.
pub record Members : Type 0 where
  pub addresses : BTreeMap Text (BTreeSet IpAddr)
  pub names : BTreeMap Text (BTreeSet Text)
