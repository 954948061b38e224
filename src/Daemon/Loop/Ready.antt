-- ===== src/Daemon/Loop/Ready.antt =====
-- A daemon that has started is ready, and stays so.
use degc.Prelude.{ℕ, ◌≡◌, refl, Bool, true, false, List, [], ◌∷◌, Result, ok, err, ap, ◌∙◌, ◌==◌}
use degc.Api.{Error}
use degc.Docker.{ContainerSummary}
use degc.Obs.{Trigger, startup, event, resync}
use degc.Obs.Record.{is_ready}
use degc.Daemon.{Daemon}
use degc.Daemon.Reconcile.{Setup}
use degc.Daemon.Reconcile.Outcome.{
  IsKept, IsOutcome, not_listed, not_compiled, not_applied, applied, reconcile-IsOutcome,
}
use degc.Daemon.Loop.{
  Reading, Wake, shutdown, tick, docker_event, watcher_stopped, reconcile_at, warn_of, wake, loop,
  enter, run,
}

abbrev pub IsReady : {S : Type 0} → Daemon S → Type 0
IsReady d = is_ready d.metrics ≡ true

module _ {S : Type 0} where
  IsKept-IsReady : {d d' : Daemon S} → IsKept d d' → IsReady d → IsReady d'
  unfolding is_ready
  IsKept-IsReady k h = ap (λ (r : ℕ). r == 1) k.ready ∙ h

  module _ (c : Setup S) (trigger : Trigger) (now : ℕ)
      (snapshot : Result Error (List ContainerSummary)) (d : Daemon S) where
    IsOutcome-IsReady :
        {o : Result Error (Unit {0}) × Daemon S}
        → IsOutcome c trigger now snapshot d o
        → IsReady d
        → IsReady o.1
    IsOutcome-IsReady (not_listed {d' = d'} s k w) h = IsKept-IsReady {d = d} {d' = d'} k h
    IsOutcome-IsReady (not_compiled {d' = d'} s e k w) h = IsKept-IsReady {d = d} {d' = d'} k h
    IsOutcome-IsReady (not_applied {d' = d'} s e a k) h = IsKept-IsReady {d = d} {d' = d'} k h
    IsOutcome-IsReady (applied s e a k) h = k.ready

    success-IsReady :
        {o : Result Error (Unit {0}) × Daemon S}
        → IsOutcome c trigger now snapshot d o
        → o.0 ≡ ok tt
        → IsReady o.1
    success-IsReady (not_listed s k w) h = cc
    success-IsReady (not_compiled s e k w) h = cc
    success-IsReady (not_applied s e a k) h = cc
    success-IsReady (applied s e a k) h = k.ready

module _ {S : Type 0} (c : Setup S) where
  warn_of-IsReady : (o : Result Error (Unit {0}) × Daemon S) → IsReady o.1 → IsReady (warn_of c o)
  warn_of-IsReady (ok u, d) h = h
  warn_of-IsReady (err e, d) h = h

  reconcile_at-IsReady :
      (trigger : Trigger) (r : Reading) (d : Daemon S)
      → IsReady d
      → IsReady (reconcile_at c trigger r d).1
  unfolding reconcile_at
  reconcile_at-IsReady trigger r d h =
      IsOutcome-IsReady c trigger r.now r.snapshot d
        (reconcile-IsOutcome c trigger r.elapsed r.now r.snapshot d) h

  wake-IsReady : (w : Wake) (d : Daemon S) → IsReady d → IsReady (wake c w d).0
  unfolding wake
  wake-IsReady shutdown d h = h
  wake-IsReady (tick r) d h = warn_of-IsReady _ (reconcile_at-IsReady resync r d h)
  wake-IsReady (docker_event r) d h = warn_of-IsReady _ (reconcile_at-IsReady event r d h)
  wake-IsReady watcher_stopped d h = h

  loop-IsReady : (wakes : List Wake) (d : Daemon S) → IsReady d → IsReady (loop c wakes d)
  unfolding loop
  loop-IsReady [] d h = h
  loop-IsReady (w ∷ rest) d h =
      go (wake c w d).0 (wake c w d).1 (λ d'. loop-IsReady rest d') (wake-IsReady w d h)
    where
      go :
          (d' : Daemon S) (on : Bool)
          → ((d'' : Daemon S) → IsReady d'' → IsReady (loop c rest d''))
          → IsReady d'
          → IsReady (elim on [ true ↦ loop c rest d' | false ↦ d' ])
      go d' true later r = later d' r
      go d' false later r = r

  -- A daemon whose first reconcile succeeds is ready behind every sequence of what may wake it: the
  -- failures of later reconciles neither end it nor take its readiness.
  pub run-IsReady :
      (first : Reading) (wakes : List Wake) (d : Daemon S)
      → (reconcile_at c startup first d).0 ≡ ok tt
      → ((run c first wakes d).0 ≡ ok tt) × IsReady (run c first wakes d).1
  unfolding run enter reconcile_at
  run-IsReady first wakes d h =
      go (reconcile_at c startup first d) h
        (success-IsReady c startup first.now first.snapshot d started h)
    where
      go :
          (o : Result Error (Unit {0}) × Daemon S)
          → o.0 ≡ ok tt
          → IsReady o.1
          → ((enter c wakes o).0 ≡ ok tt) × IsReady (enter c wakes o).1
      go (ok u, d') e r = (refl, loop-IsReady wakes d' r)
      go (err x, d') e r = cc

      started : IsOutcome c startup first.now first.snapshot d (reconcile_at c startup first d)
      started = reconcile-IsOutcome c startup first.elapsed first.now first.snapshot d
