-- ===== src/Daemon/Reconcile/Members.antt =====
-- From a container of the snapshot to the route that its packets take.
use degc.Prelude.{
  ℕ, ◌≡◌, refl, List, [], ◌∷◌, ◌++◌, append-nil, Any-right, In, inl, inr, Result, ok, err,
  >>=-eq-ok, >>-eq-ok, ap, ◌∙◌, sym, subst, map, filter,
}
use degc.Text.{Text, str}
use degc.Net.{IpAddr, is_ipv4}
use degc.Net.Print.{print}
use degc.Api.{Libs, GatewayList, Error}
use degc.Api.Values.{mark_value}
use degc.Api.Gateways.{check_unique_routing}
use degc.Docker.{ContainerSummary, Target, list_targets}
use degc.Plan.{Plan, GatewayPlan}
use degc.Plan.Resolve.{resolve_egress}
use degc.Plan.Assign.Known.{HasName}
use degc.Enforce.Host.{World, Action, nft_run}
use degc.Enforce.Route.{mark_text, build}
use degc.Enforce.Route.Order.{table_of}
use degc.Enforce.Nft.{build_script}
use degc.Enforce.Nft.KillSwitch.{HasPart}
use degc.Enforce.Nft.Marking.{mark_rule}
use degc.Enforce.Filter.{Filter, plain_set, via_name}
use degc.Enforce.Filter.Written.{set_text}
use degc.Enforce.Filter.Script.{IsPrint}
use degc.Enforce.Compile.{Desired, compile, guards_from}
use degc.Enforce.Backend.{system, apply}
use degc.Enforce.Backend.Trace.{IsRun, checks, apply_system-IsRun}
use degc.Enforce.Kernel.{Host, Kernel, fate}
use degc.Enforce.Kernel.Policy.{IsFate, HasFate}
use degc.Daemon.{Daemon}
use degc.Daemon.Reconcile.{Setup}
use degc.Daemon.Reconcile.Outcome.{plan_in}

-- The plan of the gateway with the name.
pub In-named :
    (gps : List GatewayPlan) (gws : GatewayList) (name : Text)
    → map (λ (p : GatewayPlan). p.gateway) gps ≡ gws
    → HasName name gws
    → (gp : GatewayPlan) × In gp gps × (gp.gateway.name ≡ name)
In-named gps gws name e h = among gps (subst (HasName name) (sym e) h)
  where
    among :
        (l : List GatewayPlan)
        → HasName name (map (λ (p : GatewayPlan). p.gateway) l)
        → (gp : GatewayPlan) × In gp l × (gp.gateway.name ≡ name)
    among [] k = elim k [ ]
    among (gp ∷ l) (inl k) = (gp, inl refl, k)
    among (gp ∷ l) (inr k) = let (q, i, n) = among l k in (q, inr i, n)

abbrev mark_in : ℕ → Result Error ℕ → ℕ
mark_in d (ok m) = m
mark_in d (err e) = d

pub ok_eq : (a b : ℕ) (r : Result Error ℕ) → r ≡ ok a → r ≡ ok b → a ≡ b
ok_eq a b r p q = ap (mark_in a) (sym p ∙ q)

abbrev nft_of : Result Error Desired → Text
nft_of (ok d) = d.nft
nft_of (err e) = []

pub compile-build_script :
    (libs : Libs) (plan : Plan) (d : Desired)
    → compile libs plan ≡ ok d
    → build_script libs plan ≡ ok d.nft
unfolding compile
compile-build_script libs plan d h =
    let ((u, unique), h1) =
      >>-eq-ok (check_unique_routing (map (λ (gp : GatewayPlan). gp.gateway) plan.gateways)) _ h in
    let (guards, _, h2) = >>=-eq-ok (guards_from plan.gateways []) _ h1 in
    let (nft, b, h3) = >>=-eq-ok (build_script libs plan) _ h2 in
    let (cmds, _, h4) = >>=-eq-ok (build plan) _ h3 in b ∙ ap ok (ap nft_of h4)

module _ {S : Type 0} (c : Setup S) (k : Kernel c.programs) (sys : c.enforcer ≡ system) where
  -- The plan of the gateway, its mark, and the script: it was run, puts the address into the set of the
  -- gateway, and marks what the set sends; and what the host does with the mark.
  pub record IsCarried (containers : List ContainerSummary) (before after : World S) (ip : IpAddr)
      (name : Text) : Type 0 where
    pub gateway_plan : GatewayPlan
    pub in_plan : In gateway_plan (plan_in c containers).gateways
    pub named : gateway_plan.gateway.name ≡ name
    pub mark : ℕ
    pub marked : mark_value gateway_plan.gateway ≡ ok mark
    pub ran : List Action
    pub script : Text
    pub trace : after.trace ≡ before.trace ++ ran
    pub script_ran : In (nft_run script) ran
    pub printed : (f : Filter) × IsPrint c.libs (plan_in c containers) script f
    pub set_written :
        HasPart
          (set_text (
            plain_set
              (via_name gateway_plan.gateway)
              (str "ipv4_addr")
              (map print (filter is_ipv4 gateway_plan.members))))
          script
    pub rule_written : HasPart (mark_rule c.libs mark gateway_plan) script
    pub element : In (print ip) (map print (filter is_ipv4 gateway_plan.members))
    pub carried :
        IsFate
          (resolve_egress gateway_plan.gateway (list_targets containers))
          (fate (k.view after.host) (mark_text mark) (table_of gateway_plan))

  pub ran_all :
      (desired : Desired) (before after : World S)
      → apply c.programs system desired before ≡ (ok tt, after)
      → (ran : List Action) × (after.trace ≡ before.trace ++ ran) × In (nft_run desired.nft) ran
  ran_all desired before after a =
      let r : IsRun _ before (ok tt, after) =
        subst (IsRun _ before) a (apply_system-IsRun c.programs desired before) in
      let whole = r.all_actions ∙ ap (λ l. r.ran ++ l) (r.complete tt) ∙ append-nil r.ran in
      (
        r.ran,
        r.trace,
        subst (In (nft_run desired.nft)) whole (Any-right _ (checks desired.guards) _ (inl refl)),
      )

  pub same_mark_as :
      (h : Host) (gp : GatewayPlan) (mark : ℕ) (targets : List Target)
      → mark_value gp.gateway ≡ ok mark
      → HasFate h gp
      → gp.egress ≡ resolve_egress gp.gateway targets
      → IsFate (resolve_egress gp.gateway targets) (fate h (mark_text mark) (table_of gp))
  same_mark_as h gp mark targets e (m, q, f) r =
      let same_mark : m ≡ mark = ok_eq m mark (mark_value gp.gateway) q e in
      subst (λ n. IsFate (resolve_egress gp.gateway targets) (fate h (mark_text n) (table_of gp)))
        same_mark (subst (λ e. IsFate e (fate h (mark_text m) (table_of gp))) r f)
