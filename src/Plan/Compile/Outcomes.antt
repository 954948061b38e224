-- ===== src/Plan/Compile/Outcomes.antt =====
-- What the plan says of each container: the outcome of a container does not depend on the others.
use degc.Prelude.{
  ◌≡◌, ◌↔◌, All, All-map, Any, Any-map, In, refl, Option, none, some, List, [], ◌∷◌, ◌++◌,
  append_assoc, append-nil, filter_map, ap, ◌∙◌, sym,
}
use degc.Text.{Text}
use degc.Api.{Libs, Gateway, GatewayList}
use degc.Api.Gateways.{resolve}
use degc.Api.Labels.{gateway_name, opt_in}
use degc.Docker.{Target}
use degc.Plan.Assign.{
  Assigned, selected, via_name, place_opted, place_selected, place_member, place, assign,
  nothing_assigned,
}
use degc.Plan.Assign.Membership.{destination, member_of, unless_gateway, name_of, sole_name}
use degc.Plan.Compile.{compile}
use degc.Plan.Compile.Routes.{IsRouted, merged_of, compile_routes}
use degc.Api.Gateways.Document.{HasOwnNames}
use degc.Net.{IpAddr}
use degc.Plan.{GatewayPlan}
use degc.Plan.Resolve.{addresses}
use mathlib.Core.Option.{some-injective}

-- A gateway; a member of one gateway; opted into a gateway that is not there; selected by more than
-- one; or none of these.
pub data Outcome : Type 0 where
  is_gateway untouched : Outcome
  member unresolved : Text → Outcome
  conflict : List Text → Outcome

abbrev by_selection : List Text → Outcome
by_selection [] = untouched
by_selection (one ∷ []) = member one
by_selection (one ∷ two ∷ more) = conflict (one ∷ two ∷ more)

abbrev by_resolution : Option Text → Option Gateway → Outcome
by_resolution via (some gw) = member gw.name
by_resolution via none = unresolved (via_name via)

module _ (prefix : Text) (gws : GatewayList) where
  -- An opt-in goes before the selectors, and a gateway is neither.
  abbrev by_opt_in : Target → Option (Option Text) → Outcome
  by_opt_in t (some via) = by_resolution via (resolve gws via)
  by_opt_in t none = by_selection (selected gws t.labels)

  abbrev by_label : Target → Option Text → Outcome
  by_label t (some name) = is_gateway
  by_label t none = by_opt_in t (opt_in prefix t.labels)

  abbrev pub outcome : Target → Outcome
  outcome t = by_label t (gateway_name prefix t.labels)

abbrev unresolved_in : Target → Outcome → Option (Text × Text)
unresolved_in t (unresolved via) = some (t.name, via)
unresolved_in t _ = none

abbrev conflict_in : Target → Outcome → Option (Text × List Text)
conflict_in t (conflict names) = some (t.name, names)
conflict_in t _ = none

abbrev pub member_in : Outcome → Option Text
member_in (member name) = some name
member_in _ = none

abbrev to_list : {A : Type 0} → Option A → List A
to_list none = []
to_list (some a) = a ∷ []

-- What one container adds.
record IsAdded (t : Target) (o : Outcome) (a b : Assigned) : Type 0 where
  unresolved : b.unresolved ≡ a.unresolved ++ to_list (unresolved_in t o)
  conflicts : b.conflicts ≡ a.conflicts ++ to_list (conflict_in t o)

module _ (t : Target) (a : Assigned) where
  nothing-IsAdded :
      (o : Outcome) (b : Assigned)
      → unresolved_in t o ≡ none
      → conflict_in t o ≡ none
      → b.unresolved ≡ a.unresolved
      → b.conflicts ≡ a.conflicts
      → IsAdded t o a b
  nothing-IsAdded o b u c e f = record {
    unresolved = e ∙ sym (append-nil a.unresolved) ∙ ap (λ x. a.unresolved ++ to_list x) (sym u);
    conflicts = f ∙ sym (append-nil a.conflicts) ∙ ap (λ x. a.conflicts ++ to_list x) (sym c);
  }

  place_selected-IsAdded : (l : List Text) → IsAdded t (by_selection l) a (place_selected t l a)
  unfolding place_selected
  place_selected-IsAdded [] = nothing-IsAdded untouched a refl refl refl refl
  place_selected-IsAdded (one ∷ []) = nothing-IsAdded (member one) _ refl refl refl refl
  place_selected-IsAdded (one ∷ two ∷ more) = record {
    unresolved = sym (append-nil a.unresolved);
    conflicts = refl;
  }

  place_opted-IsAdded :
      (via : Option Text) (g : Option Gateway)
      → IsAdded t (by_resolution via g) a (place_opted t via g a)
  unfolding place_opted
  place_opted-IsAdded via (some g) = nothing-IsAdded (member g.name) _ refl refl refl refl
  place_opted-IsAdded via none = record {
    unresolved = refl;
    conflicts = sym (append-nil a.conflicts);
  }

  module _ (prefix : Text) (gws : GatewayList) where
    place_member-IsAdded :
        (o : Option (Option Text))
        → IsAdded t (by_opt_in prefix gws t o) a (place_member prefix gws t o a)
    unfolding place_member
    place_member-IsAdded (some via) = place_opted-IsAdded via (resolve gws via)
    place_member-IsAdded none = place_selected-IsAdded (selected gws t.labels)

    place-IsAdded :
        (g : Option Text) → IsAdded t (by_label prefix gws t g) a (place prefix gws t g a)
    unfolding place
    place-IsAdded (some name) = nothing-IsAdded is_gateway a refl refl refl refl
    place-IsAdded none = place_member-IsAdded (opt_in prefix t.labels)

-- A `filter_map` by what one element adds.
filter_map-cons :
    {A B : Type 0} (f : A → Option B) (x : A) (xs : List A)
    → filter_map f (x ∷ xs) ≡ to_list (f x) ++ filter_map f xs
unfolding filter_map
filter_map-cons f x xs = by_case (f x)
  where
    by_case :
        (o : Option _)
        → elim o [ none ↦ filter_map f xs | some y ↦ y ∷ filter_map f xs ]
          ≡ to_list o ++ filter_map f xs
    by_case none = refl
    by_case (some y) = refl

module _ (prefix : Text) (gws : GatewayList) where
  abbrev pub unresolved_of : Target → Option (Text × Text)
  unresolved_of t = unresolved_in t (outcome prefix gws t)

  abbrev pub conflict_of : Target → Option (Text × List Text)
  conflict_of t = conflict_in t (outcome prefix gws t)

  assign-unresolved :
      (ts : List Target) (a : Assigned)
      → (assign prefix gws ts a).unresolved ≡ a.unresolved ++ filter_map unresolved_of ts
  unfolding assign filter_map
  assign-unresolved [] a = sym (append-nil a.unresolved)
  assign-unresolved (t ∷ ts) a =
      let b = place prefix gws t (gateway_name prefix t.labels) a in
      assign-unresolved ts b
      ∙ ap (λ l. l ++ filter_map unresolved_of ts)
          (place-IsAdded t a prefix gws (gateway_name prefix t.labels)).unresolved
      ∙ append_assoc a.unresolved (to_list (unresolved_of t)) (filter_map unresolved_of ts)
      ∙ ap (λ l. a.unresolved ++ l) (sym (filter_map-cons unresolved_of t ts))

  assign-conflicts :
      (ts : List Target) (a : Assigned)
      → (assign prefix gws ts a).conflicts ≡ a.conflicts ++ filter_map conflict_of ts
  unfolding assign filter_map
  assign-conflicts [] a = sym (append-nil a.conflicts)
  assign-conflicts (t ∷ ts) a =
      let b = place prefix gws t (gateway_name prefix t.labels) a in
      assign-conflicts ts b
      ∙ ap (λ l. l ++ filter_map conflict_of ts)
          (place-IsAdded t a prefix gws (gateway_name prefix t.labels)).conflicts
      ∙ append_assoc a.conflicts (to_list (conflict_of t)) (filter_map conflict_of ts)
      ∙ ap (λ l. a.conflicts ++ l) (sym (filter_map-cons conflict_of t ts))

  destination_by_selection : (l : List Text) → sole_name l ≡ member_in (by_selection l)
  destination_by_selection [] = refl
  destination_by_selection (one ∷ []) = refl
  destination_by_selection (one ∷ two ∷ more) = refl

  destination_by_resolution :
      (via : Option Text) (g : Option Gateway) → name_of g ≡ member_in (by_resolution via g)
  destination_by_resolution via none = refl
  destination_by_resolution via (some g) = refl

  destination_by_opt_in :
      (t : Target) (o : Option (Option Text))
      → member_of prefix gws t o ≡ member_in (by_opt_in prefix gws t o)
  destination_by_opt_in t none = destination_by_selection (selected gws t.labels)
  destination_by_opt_in t (some via) = destination_by_resolution via (resolve gws via)

  destination_by_label :
      (t : Target) (g : Option Text)
      → unless_gateway g (member_of prefix gws t (opt_in prefix t.labels))
        ≡ member_in (by_label prefix gws t g)
  destination_by_label t (some name) = refl
  destination_by_label t none = destination_by_opt_in t (opt_in prefix t.labels)

  pub destination-outcome :
      (t : Target) → destination prefix gws t ≡ member_in (outcome prefix gws t)
  destination-outcome t = destination_by_label t (gateway_name prefix t.labels)

-- An address is a member of the gateway exactly where a container with it has the outcome to be a
-- member of it.
abbrev pub HasMembers : Text → GatewayList → List Target → GatewayPlan → Type 0
HasMembers prefix gws targets gp =
    (ip : IpAddr)
    → In ip gp.members
      ↔ Any (λ t. (outcome prefix gws t ≡ member gp.gateway.name) × In ip (addresses t)) targets

member_of_outcome : (o : Outcome) (name : Text) → member_in o ≡ some name → o ≡ member name
member_of_outcome (member n) name e = ap member (some-injective n name e)
member_of_outcome is_gateway name e = cc
member_of_outcome untouched name e = cc
member_of_outcome (unresolved via) name e = cc
member_of_outcome (conflict names) name e = cc

routed-HasMembers :
    (prefix : Text) (gws : GatewayList) (targets : List Target) (gp : GatewayPlan)
    → IsRouted prefix gws targets gp
    → HasMembers prefix gws targets gp
routed-HasMembers prefix gws targets gp (egress, members) ip = (
  λ i.
      Any-map
        (λ t b. (
          member_of_outcome (outcome prefix gws t) gp.gateway.name
              (sym (destination-outcome prefix gws t) ∙ b.0),
          b.1,
        ))
        targets ((members ip).0 i),
  λ h.
      (members ip).1
        (Any-map (λ t b. (destination-outcome prefix gws t ∙ ap member_in b.0, b.1)) targets h),
)

-- Each container has one outcome, which depends on it and the merged gateways alone. Where the
-- configured names differ, the plan lists the containers that opted into no known gateway with the
-- name they gave, and those that more than one gateway selects with the names of these, in the
-- order of the snapshot; and an address is a member of a gateway of the plan exactly where a
-- container with the address has the outcome to be a member of it.
pub compile_outcomes :
    (libs : Libs) (targets : List Target) (prefix : Text) (gws : GatewayList)
    → HasOwnNames gws
    → ((compile libs targets prefix gws).unresolved
        ≡ filter_map (unresolved_of prefix (merged_of libs prefix targets gws)) targets)
      × ((compile libs targets prefix gws).conflicts
          ≡ filter_map (conflict_of prefix (merged_of libs prefix targets gws)) targets)
      × All
          (HasMembers prefix (merged_of libs prefix targets gws) targets)
          (compile libs targets prefix gws).gateways
unfolding compile
compile_outcomes libs targets prefix gws own =
    let merged = merged_of libs prefix targets gws in
    (
      assign-unresolved prefix merged targets nothing_assigned,
      assign-conflicts prefix merged targets nothing_assigned,
      All-map (routed-HasMembers prefix merged targets) _
          (compile_routes libs targets prefix gws own).1,
    )
