-- ===== src/Daemon/Loop.antt =====
-- `run` of main.rs: the start, and the loop over what wakes the daemon.
pub mod Ready
pub mod Keeping
use degc.Prelude.{ℕ, Bool, true, false, List, [], ◌∷◌, ◌++◌, Result, ok, err}
use degc.Api.{Error}
use degc.Docker.{ContainerSummary}
use degc.Obs.{Trigger, startup, event, resync}
use degc.Daemon.{Daemon, warn_failed, warn_watcher}
use degc.Daemon.Reconcile.{Setup, reconcile}

-- What a reconcile reads of its surroundings.
pub record Reading : Type 0 where
  pub elapsed : ℕ
  pub now : ℕ
  pub snapshot : Result Error (List ContainerSummary)

-- The branches of `select!`. A signal of the watcher is taken with those that `debounce` drains.
pub data Wake : Type 0 where
  shutdown : Wake
  tick : Reading → Wake
  docker_event : Reading → Wake
  watcher_stopped : Wake

module _ {S : Type 0} (c : Setup S) where
  unfoldable pub reconcile_at : Trigger → Reading → Daemon S → Result Error (Unit {0}) × Daemon S
  reconcile_at trigger r d = reconcile c trigger r.elapsed r.now r.snapshot d

  -- In the loop a failure is logged and forgotten.
  abbrev pub warn_of : Result Error (Unit {0}) × Daemon S → Daemon S
  warn_of (ok u, d) = d
  warn_of (err e, d) = record d { log = d.log ++ warn_failed e ∷ [] }

  -- The state behind a branch, and whether the loop goes on.
  unfoldable pub wake : Wake → Daemon S → Daemon S × Bool
  wake shutdown d = (d, false)
  wake (tick r) d = (warn_of (reconcile_at resync r d), true)
  wake (docker_event r) d = (warn_of (reconcile_at event r d), true)
  wake watcher_stopped d = (record d { log = d.log ++ warn_watcher ∷ [] }, true)

  unfoldable pub loop : List Wake → Daemon S → Daemon S
  loop [] d = d
  loop (w ∷ rest) d = let (d', on) = wake w d in elim on [ true ↦ loop rest d' | false ↦ d' ]

  -- The first reconcile must succeed, or the daemon ends.
  unfoldable pub enter :
      List Wake → Result Error (Unit {0}) × Daemon S → Result Error (Unit {0}) × Daemon S
  enter wakes (ok u, d) = (ok tt, loop wakes d)
  enter wakes (err e, d) = (err e, d)

  unfoldable pub run : Reading → List Wake → Daemon S → Result Error (Unit {0}) × Daemon S
  run first wakes d = enter wakes (reconcile_at startup first d)
