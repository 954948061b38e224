-- ===== src/Daemon/Reconcile.antt =====
-- `reconcile_apply` and `reconcile` of main.rs.
pub mod Outcome
pub mod Counted
pub mod Policy
pub mod Members
pub mod Traffic
use degc.Prelude.{
  ℕ, Bool, false, Option, none, some, List, [], ◌∷◌, ◌++◌, Result, ok, err, map, if◌then◌else◌,
}
use degc.Text.{Text, same}
use degc.Api.{Libs, GatewayList, Error}
use degc.Docker.{ContainerSummary, list_targets}
use degc.Plan.{Plan}
use degc.Plan.Compile.{compile as compile_plan}
use degc.Enforce.Host.{Programs, World}
use degc.Enforce.Compile.{compile as compile_desired}
use degc.Enforce.Compile.{Desired}
use degc.Enforce.Backend.{Enforcer, apply}
use degc.Obs.{Trigger, ReconcileStats}
use degc.Obs.Record.{record_outcome}
use degc.Daemon.{
  Daemon, LogLine, info_summary, debug_summary, warn_unresolved, warn_conflict, warn_discovery,
}
use degc.Daemon.Summary.{plan_summary, stats_of}

-- What a reconcile is given and does not change: the configuration and the backend.
pub record Setup (S : Type 0) : Type 0 where
  pub libs : Libs
  pub programs : Programs S
  pub enforcer : Enforcer
  pub label_prefix : Text
  pub gateways : GatewayList

abbrev pub is_last : Option Text → Text → Bool
is_last none s = false
is_last (some fp) s = same fp s

-- The lines behind the summary where it has changed.
unfoldable pub warnings : Plan → List LogLine
warnings plan =
    map (λ (u : Text × Text). warn_unresolved u.0 u.1) plan.unresolved
    ++ map (λ (c : Text × List Text). warn_conflict c.0 c.1) plan.conflicts
    ++ map (λ (e : Text × Error). warn_discovery e.0 e.1) plan.discovery_errors

abbrev pub to_option : {A : Type 0} → Result Error A → Option A
to_option (ok a) = some a
to_option (err e) = none

abbrev pub forget : {A : Type 0} → Result Error A → Result Error (Unit {0})
forget (ok a) = ok tt
forget (err e) = err e

module _ {S : Type 0} where
  unfoldable pub note_summary : Trigger → Plan → Text → Daemon S → Daemon S
  note_summary trigger plan summary d =
      if is_last d.last_fp summary
      then record d { log = d.log ++ debug_summary trigger summary ∷ [] }
      else record d {
        last_fp = some summary;
        log = d.log ++ info_summary trigger summary ∷ warnings plan;
      }

  abbrev set_world : World S → Daemon S → Daemon S
  set_world w d = record d { world = w }

  -- What follows the backend.
  unfoldable pub after_apply :
      Trigger → Plan → Result Error (Unit {0}) → Daemon S → Result Error ReconcileStats × Daemon S
  after_apply trigger plan (err e) d = (err e, d)
  after_apply trigger plan (ok u) d =
      (ok (stats_of plan), note_summary trigger plan (plan_summary plan) d)

  unfoldable pub apply_desired :
      Setup S
      → Trigger
      → Plan
      → Result Error Desired
      → Daemon S
      → Result Error ReconcileStats × Daemon S
  apply_desired c trigger plan (err e) d = (err e, d)
  apply_desired c trigger plan (ok desired) d =
      let (outcome, w) = apply c.programs c.enforcer desired d.world in
      after_apply trigger plan outcome (set_world w d)

  -- `snapshot` is the answer of the Docker API.
  unfoldable pub reconcile_apply :
      Setup S
      → Trigger
      → Result Error (List ContainerSummary)
      → Daemon S
      → Result Error ReconcileStats × Daemon S
  reconcile_apply c trigger (err e) d = (err e, d)
  reconcile_apply c trigger (ok containers) d =
      let plan = compile_plan c.libs (list_targets containers) c.label_prefix c.gateways in
      apply_desired c trigger plan (compile_desired c.libs plan) d

  -- `elapsed` and `now` are read from the clocks.
  unfoldable pub reconcile :
      Setup S
      → Trigger
      → ℕ
      → ℕ
      → Result Error (List ContainerSummary)
      → Daemon S
      → Result Error (Unit {0}) × Daemon S
  reconcile c trigger elapsed now snapshot d =
      let (outcome, d') = reconcile_apply c trigger snapshot d in
      (
        forget outcome,
        record d' { metrics = record_outcome trigger elapsed now (to_option outcome) d'.metrics },
      )
