-- ===== src/Plan/Compile/Routes.antt =====
-- What a compiled plan holds: its gateways, their egress, and exactly the addresses of the
-- containers that go to them.
use degc.Prelude.{
  or_false, Bool, true, ◌&&◌, ◌≡◌, ◌≢◌, ◌↔◌, refl, Option, none, some, List, [], ◌∷◌, map, any, All,
  All-map2, Any, In, ap, ap₂, ◌∙◌, sym, subst, arith, Any-map, any_iff,
}
use degc.Text.{Text}
use degc.Text.Laws.{same_iff}
use degc.Map.{get, remove, has, text_key}
use degc.Map.Laws.{get-remove_ne, In-of_has, has_of_In}
use degc.Net.{IpAddr, ip_key}
use degc.Api.{Libs, Gateway, GatewayList}
use degc.Api.Gateways.Document.{HasOwnNames}
use degc.Docker.{Target}
use degc.Plan.{GatewayPlan, Members}
use degc.Plan.Resolve.{resolve_egress, addresses, is_text}
use degc.Plan.Merge.{merge_gateways}
use degc.Plan.Merge.Names.{merge_gateways_sound}
use degc.Plan.Assign.{assign, nothing_assigned, or_empty}
use degc.Plan.Assign.Membership.{destination, has-assign}
use degc.Plan.Compile.{gateway_plans, compile}

module _ (targets : List Target) where
  -- The plan of one gateway, from the maps as the second loop leaves them.
  abbrev pub plan_of : Members → Gateway → GatewayPlan
  plan_of m gw = record {
    gateway = gw;
    egress = resolve_egress gw targets;
    members = or_empty (get gw.name m.addresses);
    member_names = or_empty (get gw.name m.names);
  }

  -- Two states of the maps agree at the name of a gateway.
  abbrev Agrees : Members → Members → Gateway → Type 0
  Agrees m n g =
      (get g.name m.addresses ≡ get g.name n.addresses) × (get g.name m.names ≡ get g.name n.names)

  without : Text → Members → Members
  without name m = record { addresses = remove name m.addresses; names = remove name m.names }

  Agrees-without :
      (name : Text) (m n : Members) (g : Gateway)
      → Agrees m n g
      → g.name ≢ name
      → Agrees (without name m) n g
  unfolding without
  Agrees-without name m n g (a, b) apart = (
    get-remove_ne name g.name m.addresses (λ e. apart (sym e)) ∙ a,
    get-remove_ne name g.name m.names (λ e. apart (sym e)) ∙ b,
  )

  gateway_plans-eq-map :
      (gws : GatewayList) (m n : Members)
      → HasOwnNames gws
      → All (Agrees m n) gws
      → gateway_plans targets gws m ≡ map (plan_of n) gws
  unfolding gateway_plans without
  gateway_plans-eq-map [] m n own agree = refl
  gateway_plans-eq-map (g ∷ rest) m n (apart, own) ((a, b), agree) =
      ap₂ (λ (x : GatewayPlan) l. x ∷ l)
        (λ i. record {
          gateway = g;
          egress = resolve_egress g targets;
          members = or_empty (a i);
          member_names = or_empty (b i);
        })
        (gateway_plans-eq-map rest (without g.name m) n own
          (All-map2 (λ x c d. Agrees-without g.name m n x c d) rest agree apart))

is_text_iff : (o : Option Text) (s : Text) → (is_text o s ≡ true) ↔ (o ≡ some s)
is_text_iff none s = (λ h. cc, λ h. cc)
is_text_iff (some t) s =
    (λ h. ap some ((same_iff t s).0 h), λ h. (same_iff t s).1 (let q : t ≡ s = cc in q))

and_true : (a b : Bool) → (a && b) ≡ true → (a ≡ true) × (b ≡ true)
and_true a b h = ground arith

-- The container goes to the gateway, and has the address.
abbrev pub Brings : Text → GatewayList → Text → IpAddr → Target → Type 0
Brings prefix gws name ip t = (destination prefix gws t ≡ some name) × In ip (addresses t)

module _ (prefix : Text) (gws : GatewayList) (targets : List Target) where
  abbrev final : Members
  final = (assign prefix gws targets nothing_assigned).members

  has-final :
      (name : Text) (ip : IpAddr)
      → has ip (or_empty (get name final.addresses))
        ≡ any (λ t. is_text (destination prefix gws t) name && has ip (addresses t)) targets
  unfolding get has
  has-final name ip = has-assign name ip prefix gws targets nothing_assigned ∙ or_false _

  Brings-iff :
      (name : Text) (ip : IpAddr) (t : Target)
      → ((is_text (destination prefix gws t) name && has ip (addresses t)) ≡ true)
        ↔ Brings prefix gws name ip t
  Brings-iff name ip t =
      let goes = is_text_iff (destination prefix gws t) name in
      (
        λ h.
            let both =
              and_true (is_text (destination prefix gws t) name) (has ip (addresses t)) h in
            (goes.0 both.0, In-of_has ip (addresses t) both.1),
        λ h. rw (goes.1 h.0) (has_of_In ip (addresses t) h.1),
      )

  members_iff :
      (name : Text) (ip : IpAddr)
      → In ip (or_empty (get name final.addresses)) ↔ Any (Brings prefix gws name ip) targets
  members_iff name ip =
      let brings =
        λ (t : Target). is_text (destination prefix gws t) name && has ip (addresses t) in
      (
        λ h.
            Any-map (λ t. (Brings-iff name ip t).0) targets
              ((any_iff brings targets).0 (sym (has-final name ip) ∙ has_of_In ip _ h)),
        λ h. In-of_has ip _ (
            has-final name ip
            ∙ (any_iff brings targets).1 (Any-map (λ t. (Brings-iff name ip t).1) targets h)),
      )

All-of-map :
    {A B : Type 0} (f : A → B) (P : B → Type 0)
    → ((a : A) → P (f a))
    → (l : List A) → All P (map f l)
All-of-map f P h [] = tt
All-of-map f P h (a ∷ l) = (h a, All-of-map f P h l)

gateways-map-plan_of :
    (targets : List Target) (m : Members) (l : GatewayList)
    → map (λ (p : GatewayPlan). p.gateway) (map (plan_of targets m) l) ≡ l
gateways-map-plan_of targets m [] = refl
gateways-map-plan_of targets m (g ∷ l) = ap (λ r. g ∷ r) (gateways-map-plan_of targets m l)

All-agree : (targets : List Target) (m : Members) (l : GatewayList) → All (Agrees targets m m) l
All-agree targets m [] = tt
All-agree targets m (g ∷ l) = ((refl, refl), All-agree targets m l)

-- A gateway's plan: its egress is resolved in the snapshot, and an address is a member exactly where
-- a container with that address goes to the gateway.
abbrev pub IsRouted : Text → GatewayList → List Target → GatewayPlan → Type 0
IsRouted prefix gws targets p =
    (p.egress ≡ resolve_egress p.gateway targets)
    × ((ip : IpAddr) → In ip p.members ↔ Any (Brings prefix gws p.gateway.name ip) targets)

abbrev pub merged_of : Libs → Text → List Target → GatewayList → GatewayList
merged_of libs prefix targets gws = (merge_gateways libs prefix targets gws).gateways

-- If the configured names differ, the plan has one entry for each merged gateway, in their order,
-- with the egress that the snapshot gives, and with an address as a member exactly where some
-- container with that address goes to the gateway.
pub compile_routes :
    (libs : Libs) (targets : List Target) (prefix : Text) (gws : GatewayList)
    → HasOwnNames gws
    → (map (λ (p : GatewayPlan). p.gateway) (compile libs targets prefix gws).gateways
        ≡ merged_of libs prefix targets gws)
      × All
          (IsRouted prefix (merged_of libs prefix targets gws) targets)
          (compile libs targets prefix gws).gateways
unfolding compile
compile_routes libs targets prefix gws own =
    let merged = merged_of libs prefix targets gws in
    let (added, gateways, _, names) = merge_gateways_sound libs prefix targets gws own in
    let m = (assign prefix merged targets nothing_assigned).members in
    let plans : gateway_plans targets merged m ≡ map (plan_of targets m) merged =
      gateway_plans-eq-map targets merged m m (subst HasOwnNames (sym gateways) names)
        (All-agree targets m merged) in
    (
      ap (map (λ (p : GatewayPlan). p.gateway)) plans ∙ gateways-map-plan_of targets m merged,
      subst (All (IsRouted prefix merged targets)) (sym plans) (
          All-of-map (plan_of targets m) (IsRouted prefix merged targets)
            (λ g. (refl, λ ip. members_iff prefix merged targets g.name ip)) merged),
    )
