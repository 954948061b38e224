-- ===== src/Daemon/Reconcile/Outcome.antt =====
-- What a reconcile leaves behind, where it succeeds and where it fails.
use mathlib.Core.Bool.{false≢true}
use mathlib.Core.Option.{some-injective}
use degc.Prelude.{
  ◌↔◌, if◌then◌else◌, ℕ, suc, length, map, ◌≡◌, ◌≢◌, ◌⊎◌, inl, inr, refl, Bool, true, false, Option,
  none, some, List, [], ◌∷◌, ◌++◌, Result, ok, err, ap, ◌∙◌, sym,
}
use degc.Text.{Text, same}
use degc.Text.Laws.{same_iff}
use degc.Api.{Error}
use degc.Obs.{Trigger, ReconcileStats}
use degc.Obs.Record.Counts.{gauge_of, last_up, gauge_of-set_available}
use degc.Obs.Record.{clamp, set_available, record_stats, record_outcome, is_ready}
use degc.Docker.{ContainerSummary, list_targets}
use degc.Plan.{Plan, GatewayPlan, Egress, interface, next_hop, unavailable}
use degc.Plan.Compile.{compile as compile_plan}
use degc.Enforce.Compile.{Desired, compile as compile_desired}
use degc.Enforce.Host.{World}
use degc.Enforce.Backend.{apply}
use degc.Daemon.{Daemon, info_summary, debug_summary}
use degc.Daemon.Summary.{plan_summary, is_available, stats_of, member_count}
use degc.Daemon.Reconcile.{
  Setup, forget, to_option, is_last, warnings, note_summary, after_apply, apply_desired,
  reconcile_apply, reconcile,
}

abbrev pub plan_in : {S : Type 0} → Setup S → List ContainerSummary → Plan
plan_in c containers = compile_plan c.libs (list_targets containers) c.label_prefix c.gateways

-- A failure leaves the summary, the log and every gauge as they were.
pub record IsKept {S : Type 0} (d d' : Daemon S) : Type 0 where
  pub last_fp : d'.last_fp ≡ d.last_fp
  pub log : d'.log ≡ d.log
  pub ready : d'.metrics.ready ≡ d.metrics.ready
  pub members : d'.metrics.members ≡ d.metrics.members
  pub gateways : d'.metrics.gateways ≡ d.metrics.gateways
  pub available : d'.metrics.gateway_available ≡ d.metrics.gateway_available
  pub last_success : d'.metrics.last_success ≡ d.metrics.last_success

-- What the gauge of a name shows for the plans: whether the last of the name has an egress.
abbrev pub shows : Egress → ℕ
shows (unavailable why) = 0
shows (interface i) = 1
shows (next_hop ip) = 1

abbrev pub last_shown : Text → List GatewayPlan → Option ℕ → Option ℕ
last_shown g [] old = old
last_shown g (gp ∷ rest) old =
    last_shown g rest (if same gp.gateway.name g then some (shows gp.egress) else old)

shows_lem : (e : Egress) → (if is_available e then 1 else 0) ≡ shows e
unfolding is_available
shows_lem (interface i) = refl
shows_lem (next_hop ip) = refl
shows_lem (unavailable why) = refl

last_up-last_shown :
    (g : Text) (gps : List GatewayPlan) (old : Option ℕ)
    → last_up g (map (λ (p : GatewayPlan). (p.gateway.name, is_available p.egress)) gps) old
      ≡ last_shown g gps old
unfolding last_up
last_up-last_shown g [] old = refl
last_up-last_shown g (gp ∷ rest) old =
    last_up-last_shown g rest _
    ∙ ap (λ n. last_shown g rest (if same gp.gateway.name g then some n else old))
        (shows_lem gp.egress)

abbrev stat : GatewayPlan → Text × Bool
stat p = (p.gateway.name, is_available p.egress)

length-stats : (gps : List GatewayPlan) → length (map stat gps) ≡ length gps
length-stats [] = refl
length-stats (gp ∷ gps) = ap suc (length-stats gps)

shown_by :
    (plan : Plan) (g : Text)
    → gauge_of g (set_available (stats_of plan).gateways []) ≡ last_shown g plan.gateways none
unfolding stats_of gauge_of
shown_by plan g =
    gauge_of-set_available g (stats_of plan).gateways [] ∙ last_up-last_shown g plan.gateways none

-- A success is ready, remembers the summary, and logs its warnings only where the summary is new.
pub record IsAdvanced {S : Type 0} (trigger : Trigger) (now : ℕ) (plan : Plan) (d d' : Daemon S)
    : Type 0 where
  pub last_fp : d'.last_fp ≡ some (plan_summary plan)
  pub log :
      ((d.last_fp ≡ some (plan_summary plan))
        × (d'.log ≡ d.log ++ debug_summary trigger (plan_summary plan) ∷ []))
      ⊎ ((d.last_fp ≢ some (plan_summary plan))
          × (d'.log ≡ d.log ++ info_summary trigger (plan_summary plan) ∷ warnings plan))
  pub ready : is_ready d'.metrics ≡ true
  pub members : d'.metrics.members ≡ clamp (member_count plan.gateways)
  pub gateways : d'.metrics.gateways ≡ clamp (length plan.gateways)
  pub available :
      (g : Text) → gauge_of g d'.metrics.gateway_available ≡ last_shown g plan.gateways none
  pub last_success : d'.metrics.last_success ≡ clamp now

module _ {S : Type 0} (c : Setup S) (trigger : Trigger) (now : ℕ) where
  pub data IsOutcome (snapshot : Result Error (List ContainerSummary)) (d : Daemon S)
      : Result Error (Unit {0}) × Daemon S → Type 0 where
    not_listed :
        {e : Error} {d' : Daemon S}
        → snapshot ≡ err e
        → IsKept d d'
        → d'.world ≡ d.world
        → IsOutcome snapshot d (err e, d')
    not_compiled :
        {containers : List ContainerSummary} {e : Error} {d' : Daemon S}
        → snapshot ≡ ok containers
        → compile_desired c.libs (plan_in c containers) ≡ err e
        → IsKept d d'
        → d'.world ≡ d.world
        → IsOutcome snapshot d (err e, d')
    not_applied :
        {containers : List ContainerSummary} {desired : Desired} {e : Error} {d' : Daemon S}
        → snapshot ≡ ok containers
        → compile_desired c.libs (plan_in c containers) ≡ ok desired
        → apply c.programs c.enforcer desired d.world ≡ (err e, d'.world)
        → IsKept d d'
        → IsOutcome snapshot d (err e, d')
    applied :
        {containers : List ContainerSummary} {desired : Desired} {d' : Daemon S}
        → snapshot ≡ ok containers
        → compile_desired c.libs (plan_in c containers) ≡ ok desired
        → apply c.programs c.enforcer desired d.world ≡ (ok tt, d'.world)
        → IsAdvanced trigger now (plan_in c containers) d d'
        → IsOutcome snapshot d (ok tt, d')

is_last_iff : (last : Option Text) (s : Text) → (is_last last s ≡ true) ↔ (last ≡ some s)
is_last_iff none s = (λ h. cc, λ h. cc)
is_last_iff (some fp) s =
    (λ h. ap some ((same_iff fp s).0 h), λ h. (same_iff fp s).1 (some-injective fp s h))

is_last-false : (last : Option Text) (s : Text) → is_last last s ≡ false → last ≢ some s
is_last-false last s h e = false≢true (sym h ∙ (is_last_iff last s).1 e)

module _ {S : Type 0} (trigger : Trigger) (elapsed now : ℕ) where
  abbrev counted : Option ReconcileStats → Daemon S → Daemon S
  counted o d = record d { metrics = record_outcome trigger elapsed now o d.metrics }

  counted-IsKept : (w : World S) (d : Daemon S) → IsKept d (counted none (record d { world = w }))
  unfolding record_outcome record_stats
  counted-IsKept w d = record {
    last_fp = refl;
    log = refl;
    ready = refl;
    members = refl;
    gateways = refl;
    available = refl;
    last_success = refl;
  }

  noted : Plan → Daemon S → Bool → Daemon S
  noted plan d b =
      if b
      then record d { log = d.log ++ debug_summary trigger (plan_summary plan) ∷ [] }
      else record d {
        last_fp = some (plan_summary plan);
        log = d.log ++ info_summary trigger (plan_summary plan) ∷ warnings plan;
      }

  noted-IsAdvanced :
      (plan : Plan) (d : Daemon S) (b : Bool)
      → is_last d.last_fp (plan_summary plan) ≡ b
      → IsAdvanced trigger now plan d (counted (some (stats_of plan)) (noted plan d b))
  unfolding noted record_outcome record_stats stats_of is_ready
  noted-IsAdvanced plan d true h = record {
    last_fp = (is_last_iff d.last_fp (plan_summary plan)).0 h;
    log = inl ((is_last_iff d.last_fp (plan_summary plan)).0 h, refl);
    ready = refl;
    members = refl;
    gateways = ap clamp (length-stats plan.gateways);
    available = shown_by plan;
    last_success = refl;
  }
  noted-IsAdvanced plan d false h = record {
    last_fp = refl;
    log = inr (is_last-false d.last_fp (plan_summary plan) h, refl);
    ready = refl;
    members = refl;
    gateways = ap clamp (length-stats plan.gateways);
    available = shown_by plan;
    last_success = refl;
  }

module _ {S : Type 0} (c : Setup S) (trigger : Trigger) (elapsed now : ℕ) where
  abbrev closed_by : Result Error ReconcileStats × Daemon S → Result Error (Unit {0}) × Daemon S
  closed_by o = (forget o.0, counted trigger elapsed now (to_option o.0) o.1)

  applied-IsOutcome :
      (snapshot : Result Error (List ContainerSummary)) (d : Daemon S)
      (containers : List ContainerSummary) (desired : Desired) (r : Result Error (Unit {0}))
      (w : World S)
      → snapshot ≡ ok containers
      → compile_desired c.libs (plan_in c containers) ≡ ok desired
      → apply c.programs c.enforcer desired d.world ≡ (r, w)
      → IsOutcome c trigger now snapshot d
          (closed_by (after_apply trigger (plan_in c containers) r (record d { world = w })))
  unfolding after_apply note_summary noted
  applied-IsOutcome snapshot d containers desired (err e) w s k a =
      not_applied s k a (counted-IsKept trigger elapsed now w d)
  applied-IsOutcome snapshot d containers desired (ok u) w s k a =
      let plan = plan_in c containers in noted_outcome (is_last d.last_fp (plan_summary plan)) refl
    where
      moved :
          {d'' : Daemon S}
          → IsAdvanced trigger now (plan_in c containers) (record d { world = w }) d''
          → IsAdvanced trigger now (plan_in c containers) d d''
      moved n = record {
        last_fp = n.last_fp;
        log = n.log;
        ready = n.ready;
        members = n.members;
        gateways = n.gateways;
        available = n.available;
        last_success = n.last_success;
      }

      noted_outcome :
          (b : Bool)
          → is_last d.last_fp (plan_summary (plan_in c containers)) ≡ b
          → IsOutcome c trigger now snapshot d (
            ok tt,
            counted trigger elapsed now
                (some (stats_of (plan_in c containers)))
                (noted trigger elapsed now (plan_in c containers) (record d { world = w }) b),
          )
      noted_outcome true h = applied s k a (
          moved (
            noted-IsAdvanced trigger elapsed now (plan_in c containers) (record d { world = w })
              true h))
      noted_outcome false h = applied s k a (
          moved (
            noted-IsAdvanced trigger elapsed now (plan_in c containers) (record d { world = w })
              false h))

  compiled-IsOutcome :
      (snapshot : Result Error (List ContainerSummary)) (d : Daemon S)
      (containers : List ContainerSummary) (r : Result Error Desired)
      → snapshot ≡ ok containers
      → compile_desired c.libs (plan_in c containers) ≡ r
      → IsOutcome c trigger now snapshot d
          (closed_by (apply_desired c trigger (plan_in c containers) r d))
  unfolding apply_desired
  compiled-IsOutcome snapshot d containers (err e) s k =
      not_compiled s k (counted-IsKept trigger elapsed now d.world d) refl
  compiled-IsOutcome snapshot d containers (ok desired) s k =
      applied-IsOutcome snapshot d containers desired _ _ s k refl

  -- A reconcile ends in one of four ways. The snapshot fails, or the compilation of its plan: the
  -- host is untouched. Or the backend fails, with what it had run. In these three the error is
  -- given, and the last summary, the log and every gauge stay. Or all succeed: the summary is
  -- remembered and logged, with the warnings only where it is new, and the daemon is ready.
  pub reconcile-IsOutcome :
      (snapshot : Result Error (List ContainerSummary)) (d : Daemon S)
      → IsOutcome c trigger now snapshot d (reconcile c trigger elapsed now snapshot d)
  unfolding reconcile reconcile_apply
  reconcile-IsOutcome (err e) d =
      not_listed refl (counted-IsKept trigger elapsed now d.world d) refl
  reconcile-IsOutcome (ok containers) d =
      compiled-IsOutcome (ok containers) d containers _ refl refl
