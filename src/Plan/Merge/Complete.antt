-- ===== src/Plan/Merge/Complete.antt =====
-- The first loop of `compile` forgets no container's declaration, and each of its errors has a cause.
use mathlib.Core.Option.{some-injective}
use degc.Prelude.{
  Any-left, Any-right, true, ◌≡◌, ◌⊎◌, refl, Option, none, some, List, [], ◌∷◌, ◌++◌, Result, ok,
  err, append_assoc, append-nil, any_iff, Any-map, All, All-append, All-map, Any, In, inl, inr,
  Bool-cases, sym, ◌∙◌, ap, subst,
}
use degc.Text.{Text, same}
use degc.Text.Laws.{same_iff}
use degc.Api.{Libs, Gateway, GatewayList, Error}
use degc.Api.Labels.{gateway_name}
use degc.Api.Discover.{discovered_gateway}
use degc.Docker.{Target}
use degc.Plan.Merge.{
  Merged, is_known, egress_container, push_result, declare, merge, merge_gateways,
}
use degc.Plan.Merge.Names.{discovered_gateway_lem}

abbrev pub HasGateway : Text → GatewayList → Type 0
HasGateway name = Any (λ (g : Gateway). g.name ≡ name)

HasGateway-of_is_known :
    (name : Text) (gws : GatewayList) → is_known name gws ≡ true → HasGateway name gws
unfolding is_known
HasGateway-of_is_known name gws h =
    Any-map (λ g e. (same_iff g.name name).0 e) gws
      ((any_iff (λ (g : Gateway). same g.name name) gws).0 h)

module _ (libs : Libs) (prefix : Text) where
  -- The labels of the container declare the gateway of this name, and are refused with this error.
  abbrev pub Fails : Text → Error → Target → Type 0
  Fails name e t =
      (gateway_name prefix t.labels ≡ some name)
      × (discovered_gateway libs prefix name (egress_container t) t.labels ≡ err e)

  -- A gateway of the name that the container declares is there, or the container's error is listed.
  abbrev pub IsSettled : Merged → Target → Type 0
  IsSettled m t =
      (name : Text)
      → gateway_name prefix t.labels ≡ some name
      → HasGateway name m.gateways ⊎ ((e : Error) × Fails name e t × In (t.name, e) m.errors)

  -- An error that the container has a share in.
  abbrev pub IsBlamed : Text × Error → Target → Type 0
  IsBlamed x t = (name : Text) × Fails name x.1 t × (t.name ≡ x.0)

  record IsGrown (ts : List Target) (m n : Merged) : Type 0 where
    gws : GatewayList
    gateways : n.gateways ≡ m.gateways ++ gws
    errs : List (Text × Error)
    errors : n.errors ≡ m.errors ++ errs
    blamed : All (λ x. Any (IsBlamed x) ts) errs
    settled : All (IsSettled n) ts

  IsSettled-later :
      (t : Target) (m n : Merged) (gws : GatewayList) (errs : List (Text × Error))
      → n.gateways ≡ m.gateways ++ gws
      → n.errors ≡ m.errors ++ errs
      → IsSettled m t
      → IsSettled n t
  IsSettled-later t m n gws errs eg ee h name e = elim (h name e) [
    | inl k ↦ inl (subst (HasGateway name) (sym eg) (Any-left _ m.gateways gws k))
    | inr (x, f, i) ↦ inr (x, f, subst (In (t.name, x)) (sym ee) (Any-left _ m.errors errs i))
  ]

  unchanged : (t : Target) (m : Merged) → IsSettled m t → IsGrown (t ∷ []) m m
  unchanged t m h = record {
    gws = [];
    gateways = sym (append-nil m.gateways);
    errs = [];
    errors = sym (append-nil m.errors);
    blamed = tt;
    settled = (h, tt);
  }

  pushed :
      (t : Target) (m : Merged) (name : Text)
      → gateway_name prefix t.labels ≡ some name
      → (r : Result Error Gateway)
      → discovered_gateway libs prefix name (egress_container t) t.labels ≡ r
      → IsGrown (t ∷ []) m (push_result m t.name r)
  pushed t m name e (err x) d = record {
    gws = [];
    gateways = sym (append-nil m.gateways);
    errs = (t.name, x) ∷ [];
    errors = refl;
    blamed = (inl (name, (e, d), refl), tt);
    settled = (λ other e'. inr (x, (e', cc), Any-right _ m.errors _ (inl refl)), tt);
  }
  pushed t m name e (ok g) d =
      let (_, named, _) = discovered_gateway_lem libs prefix name (egress_container t) t.labels d in
      record {
        gws = g ∷ [];
        gateways = refl;
        errs = [];
        errors = sym (append-nil m.errors);
        blamed = tt;
        settled = (λ other e'. inl (Any-right _ m.gateways _ (inl cc)), tt);
      }

  declare-IsGrown :
      (t : Target) (m : Merged) (o : Option Text)
      → gateway_name prefix t.labels ≡ o
      → IsGrown (t ∷ []) m (declare libs prefix m t o)
  unfolding declare
  declare-IsGrown t m none e = unchanged t m (λ name e'. cc)
  declare-IsGrown t m (some name) e = elim (Bool-cases (is_known name m.gateways)) [
    | inl known ↦ rw known (
        unchanged t m (λ other e'. inl (
          subst (λ n. HasGateway n m.gateways) (some-injective name other (sym e ∙ e'))
            (HasGateway-of_is_known name m.gateways known))))
    | inr unknown ↦ rw unknown (pushed t m name e _ refl)
  ]

  merge-IsGrown : (ts : List Target) (m : Merged) → IsGrown ts m (merge libs prefix ts m)
  unfolding merge
  merge-IsGrown [] m = record {
    gws = [];
    gateways = sym (append-nil m.gateways);
    errs = [];
    errors = sym (append-nil m.errors);
    blamed = tt;
    settled = tt;
  }
  merge-IsGrown (t ∷ rest) m =
      let next = declare libs prefix m t (gateway_name prefix t.labels) in
      let first = declare-IsGrown t m (gateway_name prefix t.labels) refl in
      let later = merge-IsGrown rest next in
      record {
        gws = first.gws ++ later.gws;
        gateways =
            later.gateways
            ∙ ap (λ l. l ++ later.gws) first.gateways
            ∙ append_assoc m.gateways first.gws later.gws;
        errs = first.errs ++ later.errs;
        errors =
            later.errors
            ∙ ap (λ l. l ++ later.errs) first.errors
            ∙ append_assoc m.errors first.errs later.errs;
        blamed =
            All-append _ first.errs later.errs
              (All-map (λ x b. Any-left _ (t ∷ []) rest b) first.errs first.blamed)
              (All-map (λ x b. inr b) later.errs later.blamed);
        settled = (
          IsSettled-later t next _ later.gws later.errs later.gateways later.errors first.settled.0,
          later.settled,
        );
      }

  -- For every container that declares a gateway by its labels: the plan has a gateway of that name,
  -- or lists the container with the error that its labels give. And every listed error is that of a
  -- container of the snapshot, with its name, whose labels declare a gateway and give that error.
  pub merge_gateways_complete :
      (targets : List Target) (gws : GatewayList)
      → All (IsSettled (merge_gateways libs prefix targets gws)) targets
        × All (λ x. Any (IsBlamed x) targets) (merge_gateways libs prefix targets gws).errors
  unfolding merge_gateways
  merge_gateways_complete targets gws =
      let m = merge-IsGrown targets (record { gateways = gws; errors = [] }) in
      (m.settled, subst (All (λ x. Any (IsBlamed x) targets)) (sym m.errors) m.blamed)
