-- ===== src/Daemon.antt =====
-- main.rs: the reconcile, the loop that makes it, and the commands around them.
pub mod Summary
pub mod Reconcile
pub mod Loop
pub mod Start
pub mod System
pub mod Status
pub mod Commands
pub mod Cli
use degc.Prelude.{ℕ, Option, List}
use degc.Text.{Text}
use degc.Api.{Error}
use degc.Obs.{Trigger, Metrics}
use degc.Enforce.Host.{World}

-- The lines that the daemon logs, with the values that they show.
pub data LogLine : Type 0 where
  info_summary debug_summary : Trigger → Text → LogLine
  warn_unresolved : Text → Text → LogLine
  warn_conflict : Text → List Text → LogLine
  warn_discovery : Text → Error → LogLine
  warn_failed : Error → LogLine
  warn_watcher warn_resubscribed : LogLine

-- The daemon's state: the host, the metrics, the summary of the last apply and the log.
pub record Daemon (S : Type 0) : Type 0 where
  pub world : World S
  pub metrics : Metrics
  pub last_fp : Option Text
  pub log : List LogLine
