-- ===== src/Daemon/Commands/Preview.antt =====
-- What `status` shows of the reconcile that `run` makes.
use degc.Prelude.{◌≡◌, refl, Bool, Option, List, [], Result, ok, err}
use degc.Text.{Text}
use degc.Api.{Libs, GatewayList, Error}
use degc.Config.{Environment, from_env}
use degc.Docker.{ContainerSummary}
use degc.Obs.{startup}
use degc.Enforce.Host.{Programs, World}
use degc.Enforce.Compile.{Desired, print}
use degc.Enforce.Backend.{select, apply}
use degc.Daemon.{Daemon}
use degc.Daemon.Reconcile.Outcome.{
  IsOutcome, not_listed, not_compiled, not_applied, applied, reconcile-IsOutcome,
}
use degc.Daemon.Start.{FileRead}
use degc.Daemon.Loop.{Reading, reconcile_at, enter, loop}
use degc.Daemon.Loop
use degc.Daemon.Status.{status_in}
use degc.Daemon.Commands.{newborn, loaded, connected, status, status_with, setup_for, run_with, run}

module _ {S : Type 0} (p : Programs S) (dry : Bool) (w : World S) where
  -- The same error, and the host as it was; or the text of the desired state that the backend was
  -- given, with the backend's result and what that left of the host.
  pub data IsPreview : Result Error Text → Result Error (Unit {0}) × Daemon S → Type 0 where
    both_fail : {e : Error} {d : Daemon S} → d.world ≡ w → IsPreview (err e) (err e, d)
    as_shown :
        (desired : Desired) {o : Result Error (Unit {0})} {d : Daemon S}
        → apply p (select dry) desired w ≡ (o, d.world)
        → IsPreview (ok (print desired)) (o, d)

module _ (libs : Libs) (yaml : Text → Option GatewayList) (var : Environment)
    (files : Text → FileRead) (client : Bool) {S : Type 0} (p : Programs S) (dry : Bool)
    (first : Reading) (w : World S) where
  outcome-IsPreview :
      (gws : GatewayList) (snapshot : Result Error (List ContainerSummary))
      {o : Result Error (Unit {0}) × Daemon S}
      → IsOutcome (setup_for libs yaml var files p dry gws) startup first.now snapshot (newborn w) o
      → IsPreview p dry w
          (status_in libs (from_env var).label_prefix gws snapshot).1
          (enter (setup_for libs yaml var files p dry gws) [] o)
  unfolding status_in enter loop
  outcome-IsPreview gws snapshot (not_listed s k same) = rw s (both_fail same)
  outcome-IsPreview gws snapshot (not_compiled s e k same) = rw (s, e) (both_fail same)
  outcome-IsPreview gws snapshot (not_applied {desired} s e a k) = rw (s, e) (as_shown desired a)
  outcome-IsPreview gws snapshot (applied {desired} s e a k) = rw (s, e) (as_shown desired a)

  -- On one environment, gateways file, client and snapshot, `status` foretells the start of `run`,
  -- for both backends: where `status` fails, the start fails with the same error and leaves the
  -- host as it was; where it shows a desired state, the backend is given that state, the start ends
  -- as the backend does, and the host is as the backend leaves it.
  pub status-IsPreview :
      IsPreview p dry w
        (status libs yaml var files client first.snapshot).1
        (run libs yaml var files p client dry first [] w)
  unfolding status run Loop.run reconcile_at
  status-IsPreview = by_load (connected client (loaded libs yaml var files))
    where
      by_load :
          (gws : Result Error GatewayList)
          → IsPreview p dry w
              (status_with libs yaml var files first.snapshot gws).1
              (run_with libs yaml var files p dry first [] w gws)
      by_load (ok gws) = outcome-IsPreview gws first.snapshot (
          reconcile-IsOutcome (setup_for libs yaml var files p dry gws) startup first.elapsed
            first.now first.snapshot (newborn w))
      by_load (err e) = both_fail refl
