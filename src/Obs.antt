-- ===== src/Obs.antt =====
-- obs.rs: the metrics of the daemon, and its readiness.
pub mod Record
pub mod Server
use degc.Prelude.{ℕ, Bool, List, []}
use degc.Text.{Text, str}

pub data Trigger : Type 0 where
  startup event resync : Trigger

unfoldable pub as_str : Trigger → Text
as_str startup = str "startup"
as_str event = str "event"
as_str resync = str "resync"

pub record ReconcileStats : Type 0 where
  pub members : ℕ
  pub gateways : List (Text × Bool)

-- A family is a list of its series, each with its labels; the histogram is what it observed.
pub record Metrics : Type 0 where
  pub reconciles : List (Text × Text × ℕ)
  pub duration : List ℕ
  pub last_success : ℕ
  pub members : ℕ
  pub gateways : ℕ
  pub gateway_available : List (Text × ℕ)
  pub ready : ℕ
  pub watch_restarts : ℕ

abbrev pub initial : Metrics
initial = record {
  reconciles = [];
  duration = [];
  last_success = 0;
  members = 0;
  gateways = 0;
  gateway_available = [];
  ready = 0;
  watch_restarts = 0;
}
