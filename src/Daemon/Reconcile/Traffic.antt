-- ===== src/Daemon/Reconcile/Traffic.antt =====
-- What the host does with the packets of a container after a reconcile: the filter that was loaded
-- and the routes together.
use degc.Prelude.{ℕ, ◌≡◌, Bool, ◌&&◌, List, ◌++◌, In, ok, if◌then◌else◌}
use degc.Text.{Text}
use degc.Net.{IpAddr}
use degc.Api.Values.{mark_value, snat_enabled}
use degc.Docker.{ContainerSummary, list_targets}
use degc.Plan.{GatewayPlan}
use degc.Plan.Resolve.{resolve_egress}
use degc.Plan.Assign.Membership.{destination}
use degc.Enforce.Host.{World, Action, nft_run}
use degc.Enforce.Route.{mark_text}
use degc.Enforce.Route.Order.{table_of}
use degc.Enforce.Backend.{system}
use degc.Enforce.Backend.Loaded.{IsTaken}
use degc.Enforce.Filter.{Filter, Packet, covered, marked, dropped, masqueraded, locals4, filter_for}
use degc.Enforce.Filter.Written.{filter_text}
use degc.Enforce.Filter.Verdicts.{stops, hides}
use degc.Enforce.Filter.Policy.{routed}
use degc.Enforce.Kernel.{Kernel, fate}
use degc.Enforce.Kernel.Policy.{IsFate}
use degc.Daemon.{Daemon}
use degc.Daemon.Reconcile.{Setup}
use degc.Daemon.Reconcile.Outcome.{plan_in}

module _ {S : Type 0} (c : Setup S) (k : Kernel c.programs) (sys : c.enforcer ≡ system)
    (covers : Text → IpAddr → Bool) where
  -- The plan of the gateway and its mark; the filter, whose print was run; what it makes of a packet,
  -- and where the host sends it.
  pub record IsEnforced (containers : List ContainerSummary) (before after : World S) (p : Packet)
      (name : Text) : Type 0 where
    pub gateway_plan : GatewayPlan
    pub in_plan : In gateway_plan (plan_in c containers).gateways
    pub named : gateway_plan.gateway.name ≡ name
    pub mark : ℕ
    pub has_mark : mark_value gateway_plan.gateway ≡ ok mark
    pub filter : Filter
    pub meant : filter_for c.libs (plan_in c containers) ≡ ok filter
    pub ran : List Action
    pub trace : after.trace ≡ before.trace ++ ran
    pub script_ran : In (nft_run (filter_text c.libs filter)) ran
    pub taken : IsTaken c.programs (filter_text c.libs filter)
    pub egress_of :
        gateway_plan.egress ≡ resolve_egress gateway_plan.gateway (list_targets containers)
    pub is_marked : marked covers filter p ≡ (
        if covered covers (locals4 c.libs gateway_plan.gateway) p.destination then p.mark else mark)
    pub carried :
        IsFate gateway_plan.egress
          (fate (k.view after.host) (mark_text mark) (table_of gateway_plan))
    pub filtered :
        (out : Text)
        → (dropped covers filter (routed p mark out) ≡ stops gateway_plan.egress out)
          × (masqueraded filter (routed p mark out)
              ≡ (snat_enabled gateway_plan.gateway && hides gateway_plan.egress out))
