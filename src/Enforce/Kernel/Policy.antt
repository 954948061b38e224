-- ===== src/Enforce/Kernel/Policy.antt =====
-- What becomes of a member's packet after degc has run.
use degc.Prelude.{
  ℕ, ◌≡◌, ◌≢◌, refl, true, Option, none, some, inl, inr, ◌⊎◌, List, [], ◌∷◌, ◌++◌, append-nil,
  Result, ok, err, >>=-eq-ok, >>-eq-ok, All, ap, ◌∙◌, sym, subst, map,
}
use degc.Net.{v4, v6}
use degc.Text.{Text}
use degc.Text.Laws.{same_refl}
use degc.Text.Numbers.{show}
use degc.Api.{Libs, Error}
use degc.Api.Values.{mark_value, table_id}
use degc.Api.Gateways.{check_unique_routing}
use degc.Api.Gateways.Unique.{IsUnique, IsApart, check_unique_routing_iff}
use degc.Plan.{Plan, GatewayPlan, Egress, interface, next_hop, unavailable}
use degc.Enforce.Host.{Programs, World}
use degc.Enforce.Route.{IpCmd, mark_text, build}
use degc.Enforce.Route.Order.{table_of, build-IsBlocks}
use degc.Enforce.Route.FailClosed.{show-injective}
use degc.Enforce.Nft.{build_script}
use degc.Enforce.Compile.{Desired, compile, guards_from}
use degc.Enforce.Backend.{apply, system}
use degc.Enforce.Backend.Trace.{IsDone}
use degc.Enforce.Kernel.Commands.{cmd_of}
use degc.Enforce.Kernel.{
  Hop, Host, Fate, falls_through, by_table, is_six, fate, planned, Command, set_floor, add_rule,
  set_egress, effect, effects, Kernel,
}
use degc.Enforce.Kernel.Run.{IsEffect, apply_system-IsEffect}
use degc.Enforce.Kernel.Planned.{
  IsPlanned, no_gateway, planned_for, block_effects, IsBlocks-IsPlanned, IsFloored,
  prefix-IsFloored, IsUntouched, effects-IsUntouched,
}

abbrev ip_of : Result Error Desired → List IpCmd
ip_of (ok d) = d.ip
ip_of (err e) = []

-- The commands of a desired state are those of effects that the plan means.
pub compile-IsPlanned :
    (libs : Libs) (plan : Plan) (d : Desired)
    → compile libs plan ≡ ok d
    → IsUnique (map (λ (gp : GatewayPlan). gp.gateway) plan.gateways)
      × ((cs : List Command) × (d.ip ≡ map cmd_of cs) × IsPlanned plan.gateways cs)
unfolding compile
compile-IsPlanned libs plan d h =
    let ((u, unique), h1) =
      >>-eq-ok (check_unique_routing (map (λ (gp : GatewayPlan). gp.gateway) plan.gateways)) _ h in
    let (guards, _, h2) = >>=-eq-ok (guards_from plan.gateways []) _ h1 in
    let (nft, _, h3) = >>=-eq-ok (build_script libs plan) _ h2 in
    let (cmds, b, h4) = >>=-eq-ok (build plan) _ h3 in
    let (cs, e, p) = IsBlocks-IsPlanned (build-IsBlocks plan b) in
    ((check_unique_routing_iff _).0 unique, (cs, sym (ap ip_of h4) ∙ e, p))

-- An IPv4 packet meets what is planned; behind an IPv6 next hop, it does not reach the main table.
abbrev pub IsFate : Egress → Fate → Type 0
IsFate e f = (f ≡ planned e) ⊎ ((is_six e ≡ true) × (f ≢ falls_through))

-- IPv4 packets with the gateway's mark meet what the plan resolved for it.
abbrev pub HasFate : Host → GatewayPlan → Type 0
HasFate h gp =
    (mark : ℕ) × (mark_value gp.gateway ≡ ok mark)
    × IsFate gp.egress (fate h (mark_text mark) (table_of gp))

not_main : (o : Option Hop) → by_table o true ≢ falls_through
not_main none e = cc
not_main (some hop) e = cc

fate-IsUntouched : (t m : Text) (h h' : Host) → IsUntouched t h h' → fate h' m t ≡ fate h m t
fate-IsUntouched t m h h' k = rw (k.rule m, k.live, k.floor) refl

block-fate :
    (mark : ℕ) (gp : GatewayPlan) (h : Host)
    → IsFate gp.egress (fate (effects (block_effects mark gp) h) (mark_text mark) (table_of gp))
block-fate mark gp h = by_egress (mark_text mark) (table_of gp) gp.egress
  where
    by_egress :
        (m t : Text) (e : Egress)
        → IsFate e
            (fate (effect (set_egress t e) (effect (add_rule m t) (effect (set_floor t) h))) m t)
    by_egress m t (interface i) = inl (rw (same_refl m, same_refl t) refl)
    by_egress m t (next_hop (v4 a b c d)) = inl (rw (same_refl m, same_refl t) refl)
    by_egress m t (next_hop (v6 a b c d e f g i)) =
        inr (refl, rw (same_refl m, same_refl t) (not_main (h.live t)))
    by_egress m t (unavailable why) = inl (rw (same_refl m, same_refl t) refl)

apart_tables :
    (mark table : ℕ) (gps : List GatewayPlan)
    → All (IsApart mark table) (map (λ (gp : GatewayPlan). gp.gateway) gps)
    → All (λ gp. table_of gp ≢ show table) gps
apart_tables mark table [] h = tt
apart_tables mark table (gp ∷ gps) ((m, t), h) =
    (λ e. t (show-injective (table_id gp.gateway) table e), apart_tables mark table gps h)

effects-HasFate :
    {gps : List GatewayPlan} {cs : List Command}
    → IsPlanned gps cs
    → IsUnique (map (λ (gp : GatewayPlan). gp.gateway) gps)
    → (h : Host) → All (HasFate (effects cs h)) gps
effects-HasFate no_gateway u h = tt
effects-HasFate (planned_for {gp} {rest} {cs} mark e b) ((m, q, apart), u) h =
    let first = effects (block_effects mark gp) h in
    let kept =
      effects-IsUntouched {gps = rest} {cs = cs} b (table_of gp) first
        (apart_tables m (table_id gp.gateway) rest apart) in
    (
      (
        mark,
        e,
        subst (IsFate gp.egress)
            (sym (fate-IsUntouched (table_of gp) (mark_text mark) first (effects cs first) kept))
            (block-fate mark gp h),
      ),
      effects-HasFate {gps = rest} {cs = cs} b u first,
    )

module _ {S : Type 0} {p : Programs S} (k : Kernel p) where
  -- All of the commands, where all is well.
  pub whole :
      {A : Type 0} {cs : List Command} {w : World S} {o : Result Error A × World S}
      → IsEffect k cs w o
      → IsDone o.0
      → k.view o.1.host ≡ effects cs (k.view w.host)
  whole {w = w} f done =
      f.view
      ∙ ap (λ l. effects l (k.view w.host))
          (sym (f.all_commands ∙ ap (λ l. f.ran ++ l) (f.complete done) ∙ append-nil f.ran))

  -- Where the programs keep to their documentation and the system backend gives ok for a compiled
  -- plan, whatever the host was before: an IPv4 packet with the mark of a gateway leaves by the
  -- egress that the plan resolved, and is dropped where that is unavailable, or, behind an IPv6
  -- next hop, does not reach the main table; and every table of no gateway has the routes and the
  -- rules to it that it had.
  pub apply_system-HasFate :
      (libs : Libs) (plan : Plan) (d : Desired) (w : World S)
      → compile libs plan ≡ ok d
      → IsDone (apply p system d w).0
      → All (HasFate (k.view (apply p system d w).1.host)) plan.gateways
        × ((t : Text)
            → All (λ gp. table_of gp ≢ t) plan.gateways
            → IsUntouched t (k.view w.host) (k.view (apply p system d w).1.host))
  apply_system-HasFate libs plan d w h done =
      let (unique, (cs, e, b)) = compile-IsPlanned libs plan d h in
      let final = whole (apply_system-IsEffect k d cs w e) done in
      (
        subst (λ host. All (HasFate host) plan.gateways) (sym final)
            (effects-HasFate b unique (k.view w.host)),
        λ t others.
            subst (IsUntouched t (k.view w.host)) (sym final)
              (effects-IsUntouched b t (k.view w.host) others),
      )

  -- However the system backend ends for a compiled plan, ok or an error at any command: a table to
  -- which no rule led without its blackhole default is still one.
  pub apply_system-IsFloored :
      (libs : Libs) (plan : Plan) (d : Desired) (w : World S) (t : Text)
      → compile libs plan ≡ ok d
      → IsFloored t (k.view w.host)
      → IsFloored t (k.view (apply p system d w).1.host)
  apply_system-IsFloored libs plan d w t h f =
      let (unique, (cs, e, b)) = compile-IsPlanned libs plan d h in
      let run = apply_system-IsEffect k d cs w e in
      subst (IsFloored t) (sym run.view)
        (prefix-IsFloored b t run.ran run.left (k.view w.host) run.all_commands f)
