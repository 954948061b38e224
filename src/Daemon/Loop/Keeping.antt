-- ===== src/Daemon/Loop/Keeping.antt =====
-- What the daemon keeps of the host over its whole life, and what a successful reconcile makes of it.
use degc.Prelude.{
  ℕ, ◌≡◌, refl, Bool, true, false, List, [], ◌∷◌, Result, ok, err, ap, ◌∙◌, sym, subst,
}
use degc.Text.{Text}
use degc.Api.{Error}
use degc.Docker.{ContainerSummary}
use degc.Plan.{Plan}
use degc.Obs.{Trigger, startup, event, resync}
use degc.Enforce.Host.{World}
use degc.Enforce.Compile.{Desired, compile}
use degc.Enforce.Backend.{Enforcer, dry_run, apply}
use degc.Enforce.Kernel.{Kernel}
use degc.Daemon.{Daemon}
use degc.Daemon.Reconcile.{Setup}
use degc.Daemon.Reconcile.Outcome.{
  plan_in, IsOutcome, not_listed, not_compiled, not_applied, applied, reconcile-IsOutcome,
}
use degc.Daemon.Loop.{
  Reading, Wake, shutdown, tick, docker_event, watcher_stopped, reconcile_at, warn_of, wake, loop,
  enter, run,
}

module _ {S : Type 0} (c : Setup S) (P : World S → Type 0)
    (keeps : (plan : Plan) (d : Desired) (w : World S)
      → compile c.libs plan ≡ ok d
      → P w
      → P (apply c.programs c.enforcer d w).1) where
  abbrev Keeps : Daemon S → Type 0
  Keeps d = P d.world

  outcome-Keeps :
      (trigger : Trigger) (now : ℕ) (snapshot : Result Error (List ContainerSummary)) (d : Daemon S)
      {o : Result Error (Unit {0}) × Daemon S}
      → IsOutcome c trigger now snapshot d o
      → Keeps d
      → Keeps o.1
  outcome-Keeps trigger now snapshot d (not_listed s k w) h = subst P (sym w) h
  outcome-Keeps trigger now snapshot d (not_compiled s e k w) h = subst P (sym w) h
  outcome-Keeps trigger now snapshot d (not_applied {containers} {desired} s e a k) h =
      subst P (ap (λ (x : Result Error (Unit {0}) × World S). x.1) a)
        (keeps (plan_in c containers) desired d.world e h)
  outcome-Keeps trigger now snapshot d (applied {containers} {desired} s e a k) h =
      subst P (ap (λ (x : Result Error (Unit {0}) × World S). x.1) a)
        (keeps (plan_in c containers) desired d.world e h)

  reconcile_at-Keeps :
      (trigger : Trigger) (r : Reading) (d : Daemon S)
      → Keeps d
      → Keeps (reconcile_at c trigger r d).1
  unfolding reconcile_at
  reconcile_at-Keeps trigger r d h =
      outcome-Keeps trigger r.now r.snapshot d
        (reconcile-IsOutcome c trigger r.elapsed r.now r.snapshot d) h

  warn_of-Keeps : (o : Result Error (Unit {0}) × Daemon S) → Keeps o.1 → Keeps (warn_of c o)
  warn_of-Keeps (ok u, d) h = h
  warn_of-Keeps (err e, d) h = h

  wake-Keeps : (w : Wake) (d : Daemon S) → Keeps d → Keeps (wake c w d).0
  unfolding wake
  wake-Keeps shutdown d h = h
  wake-Keeps (tick r) d h = warn_of-Keeps _ (reconcile_at-Keeps resync r d h)
  wake-Keeps (docker_event r) d h = warn_of-Keeps _ (reconcile_at-Keeps event r d h)
  wake-Keeps watcher_stopped d h = h

  loop-Keeps : (wakes : List Wake) (d : Daemon S) → Keeps d → Keeps (loop c wakes d)
  unfolding loop
  loop-Keeps [] d h = h
  loop-Keeps (w ∷ rest) d h =
      next (wake c w d).0 (wake c w d).1 (λ d'. loop-Keeps rest d') (wake-Keeps w d h)
    where
      next :
          (d' : Daemon S) (on : Bool)
          → ((d'' : Daemon S) → Keeps d'' → Keeps (loop c rest d''))
          → Keeps d'
          → Keeps (elim on [ true ↦ loop c rest d' | false ↦ d' ])
      next d' true later k = later d' k
      next d' false later k = k

  pub run-Keeps :
      (first : Reading) (wakes : List Wake) (d : Daemon S) → Keeps d → Keeps (run c first wakes d).1
  unfolding run enter
  run-Keeps first wakes d h =
      entered (reconcile_at c startup first d) (reconcile_at-Keeps startup first d h)
    where
      entered : (o : Result Error (Unit {0}) × Daemon S) → Keeps o.1 → Keeps (enter c wakes o).1
      entered (ok u, d') k = loop-Keeps wakes d' k
      entered (err e, d') k = k

-- A daemon on a dry run leaves the host and its trace as they are, whatever wakes it.
pub run_dry :
    {S : Type 0} (c : Setup S) (first : Reading) (wakes : List Wake) (d : Daemon S)
    → c.enforcer ≡ dry_run
    → (run c first wakes d).1.world ≡ d.world
unfolding apply
run_dry c first wakes d dry =
    run-Keeps c (λ w. w ≡ d.world)
      (λ plan desired w e same. ap (λ (x : Enforcer). (apply c.programs x desired w).1) dry ∙ same)
      first wakes d refl
