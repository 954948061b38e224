-- ===== src/Daemon/Reconcile/Policy.antt =====
-- What a successful reconcile makes of the host.
use degc.Prelude.{ℕ, ◌≡◌, ◌≢◌, List, All, Result, ok, err, ap, sym, ◌∙◌}
use degc.Text.{Text}
use degc.Api.{Error}
use degc.Docker.{ContainerSummary}
use degc.Obs.{Trigger}
use degc.Enforce.Host.{World}
use degc.Enforce.Route.Order.{table_of}
use degc.Enforce.Compile.{Desired, compile}
use degc.Enforce.Backend.{Enforcer, system, apply}
use degc.Enforce.Kernel.{Kernel}
use degc.Enforce.Kernel.Planned.{IsUntouched}
use degc.Enforce.Kernel.Policy.{HasFate}
use degc.Daemon.{Daemon}
use degc.Daemon.Reconcile.{Setup, reconcile}
use degc.Daemon.Reconcile.Outcome.{
  plan_in, IsOutcome, not_listed, not_compiled, not_applied, applied, reconcile-IsOutcome,
}

abbrev pub listed_in :
    Result Error (List ContainerSummary) → List ContainerSummary → List ContainerSummary
listed_in (ok l) other = l
listed_in (err e) other = other

module _ {S : Type 0} (c : Setup S) (k : Kernel c.programs) (sys : c.enforcer ≡ system) where
  -- The plan of the snapshot is what the host does with marked packets, and the tables of no gateway
  -- are as they were.
  pub record IsInForce (containers : List ContainerSummary) (before after : World S) : Type 0 where
    pub fates : All (HasFate (k.view after.host)) (plan_in c containers).gateways
    pub others :
        (t : Text)
        → All (λ gp. table_of gp ≢ t) (plan_in c containers).gateways
        → IsUntouched t (k.view before.host) (k.view after.host)

  -- A reconcile that gives ok has had the desired state of its snapshot applied.
  outcome-applied :
      (trigger : Trigger) (now : ℕ) (containers : List ContainerSummary) (d : Daemon S)
      {o : Result Error (Unit {0}) × Daemon S}
      → IsOutcome c trigger now (ok containers) d o
      → o.0 ≡ ok tt
      → (desired : Desired) × (compile c.libs (plan_in c containers) ≡ ok desired)
        × (apply c.programs c.enforcer desired d.world ≡ (ok tt, o.1.world))
  outcome-applied trigger now containers d (not_listed s q w) h = cc
  outcome-applied trigger now containers d (not_compiled s e q w) h = cc
  outcome-applied trigger now containers d (not_applied s e a q) h = cc
  outcome-applied trigger now containers d (applied {containers = listed} {desired} s e a q) h =
      let same_list : containers ≡ listed = ap (λ r. listed_in r listed) s in
      (desired, ap (λ l. compile c.libs (plan_in c l)) same_list ∙ e, a)

  pub reconcile-applied :
      (trigger : Trigger) (elapsed now : ℕ) (containers : List ContainerSummary) (d : Daemon S)
      → (reconcile c trigger elapsed now (ok containers) d).0 ≡ ok tt
      → (desired : Desired) × (compile c.libs (plan_in c containers) ≡ ok desired)
        × (apply c.programs system desired d.world
            ≡ (ok tt, (reconcile c trigger elapsed now (ok containers) d).1.world))
  reconcile-applied trigger elapsed now containers d h =
      let (desired, e, a) =
        outcome-applied trigger now containers d
          (reconcile-IsOutcome c trigger elapsed now (ok containers) d) h in
      (desired, e, ap (λ (x : Enforcer). apply c.programs x desired d.world) (sym sys) ∙ a)
