-- ===== src/Daemon/Reconcile/Counted.antt =====
-- What a reconcile adds to the counters, beside how it ends.
use degc.Prelude.{ℕ, ◌≡◌, Option, List, Result, ok, err}
use degc.Text.{Text, str}
use degc.Api.{Error}
use degc.Docker.{ContainerSummary}
use degc.Plan.{Plan}
use degc.Obs.{Trigger, ReconcileStats}
use degc.Obs.Record.Counts.{IsCounted, result_label}
use degc.Daemon.{Daemon}
use degc.Daemon.Reconcile.{Setup}
use degc.Daemon.Reconcile.Outcome.{IsOutcome}

-- The label of what a reconcile gives.
abbrev pub label_for : Result Error (Unit {0}) → Text
label_for (ok u) = str "success"
label_for (err e) = str "error"

-- How it ends, and what it counts: under the label of what it gives.
pub record IsAccounted {S : Type 0} (c : Setup S) (trigger : Trigger) (elapsed now : ℕ)
    (snapshot : Result Error (List ContainerSummary)) (d : Daemon S)
    (o : Result Error (Unit {0}) × Daemon S) : Type 0 where
  pub outcome : IsOutcome c trigger now snapshot d o
  pub stats : Option ReconcileStats
  pub label : result_label stats ≡ label_for o.0
  pub counted : IsCounted trigger elapsed stats d.metrics o.1.metrics
