-- ===== src/Enforce/Compile/Total.antt =====
-- `enforce::compile` gives a desired state for exactly the plans whose gateways differ.
use degc.Prelude.{ℕ, ◌≡◌, ◌↔◌, refl, List, [], ◌∷◌, Result, ok, ◌>>=◌, >>-eq-ok, All, ap, ◌∙◌, map}
use degc.Text.{Text}
use degc.Api.{Libs, Error}
use degc.Api.Values.{mark_value}
use degc.Api.Gateways.{check_unique_routing}
use degc.Api.Gateways.Unique.{IsUnique, check_unique_routing_iff}
use degc.Plan.{Plan, GatewayPlan}
use degc.Enforce.Route.{IpCmd, build, build_from}
use degc.Enforce.Route.FailClosed.{IsUniquePlan}
use degc.Enforce.Nft.{Rules, no_rules, rules_from, build_script}
use degc.Enforce.Compile.{Desired, guards_from, compile}

abbrev HasMark : GatewayPlan → Type 0
HasMark gp = (mark : ℕ) × (mark_value gp.gateway ≡ ok mark)

has_marks :
    (gps : List GatewayPlan)
    → IsUnique (map (λ (gp : GatewayPlan). gp.gateway) gps)
    → All HasMark gps
has_marks [] u = tt
has_marks (gp ∷ rest) ((mark, e, apart), u) = ((mark, e), has_marks rest u)

-- A known value goes on.
bind_ok :
    {A B : Type 0} (m : Result Error A) (f : A → Result Error B) (a : A)
    → m ≡ ok a
    → (m >>= f) ≡ f a
bind_ok m f a e = ap (λ r. r >>= f) e

guards_from_total :
    (gps : List GatewayPlan) (done : List (Text × ℕ))
    → All HasMark gps
    → (guards : List (Text × ℕ)) × (guards_from gps done ≡ ok guards)
unfolding guards_from
guards_from_total [] done h = (done, refl)
guards_from_total (gp ∷ rest) done ((mark, e), h) =
    let (guards, eq) = guards_from_total rest _ h in
    (guards, bind_ok (mark_value gp.gateway) _ mark e ∙ eq)

rules_from_total :
    (libs : Libs) (gps : List GatewayPlan) (r : Rules)
    → All HasMark gps
    → (r' : Rules) × (rules_from libs gps r ≡ ok r')
unfolding rules_from
rules_from_total libs [] r h = (r, refl)
rules_from_total libs (gp ∷ rest) r ((mark, e), h) =
    let (r', eq) = rules_from_total libs rest _ h in
    (r', bind_ok (mark_value gp.gateway) _ mark e ∙ eq)

build_from_total :
    (gps : List GatewayPlan) (done : List IpCmd)
    → All HasMark gps
    → (cmds : List IpCmd) × (build_from gps done ≡ ok cmds)
unfolding build_from
build_from_total [] done h = (done, refl)
build_from_total (gp ∷ rest) done ((mark, e), h) =
    let (cmds, eq) = build_from_total rest _ h in
    (cmds, bind_ok (mark_value gp.gateway) _ mark e ∙ eq)

-- `compile` of enforce/mod.rs gives a desired state exactly where every gateway of the plan has a mark,
-- and no two have the mark or the table in common; it then gives an error in no later step.
pub compile_iff :
    (libs : Libs) (plan : Plan) → ((d : Desired) × (compile libs plan ≡ ok d)) ↔ IsUniquePlan plan
unfolding compile build build_script
compile_iff libs plan = (
  λ (d, h). (check_unique_routing_iff _).0 (
      let ((u, e), _) =
        >>-eq-ok (check_unique_routing (map (λ (gp : GatewayPlan). gp.gateway) plan.gateways)) _
          h in
      e),
  λ u.
      let marks = has_marks plan.gateways u in
      let (guards, g) = guards_from_total plan.gateways [] marks in
      let (r, n) = rules_from_total libs plan.gateways no_rules marks in
      let (cmds, b) = build_from_total plan.gateways [] marks in
      (
        _,
        bind_ok _ _ tt ((check_unique_routing_iff _).1 u)
            ∙ bind_ok _ _ guards g
            ∙ bind_ok _ _ _ (bind_ok _ _ r n)
            ∙ bind_ok _ _ cmds b,
      ),
)
