-- ===== src/Plan/Assign/Known.antt =====
-- A container goes to no gateway but one of the list.
use degc.Prelude.{
  Bool, true, false, ◌≡◌, refl, Option, none, some, List, [], ◌∷◌, Any, Any-map, In, inl, inr, ap,
  ◌∙◌, map, filter, find, find-In, at_head, length, head?, ◌==◌, if◌then◌else◌,
}
use degc.Text.{Text}
use degc.Api.{Gateway, GatewayList}
use degc.Api.Labels.{gateway_name, opt_in}
use degc.Api.Gateways.{resolve}
use degc.Docker.{Target}
use degc.Plan.Assign.{selected}
use degc.Plan.Assign.Membership.{destination, member_of, unless_gateway, name_of, sole_name}

-- A gateway of the list has the name.
abbrev pub HasName : Text → GatewayList → Type 0
HasName name = Any (λ (g : Gateway). g.name ≡ name)

In-HasName : (g : Gateway) (gws : GatewayList) → In g gws → HasName g.name gws
In-HasName g gws = Any-map (λ h e. ap (λ (x : Gateway). x.name) e) gws

sole-In :
    (gws : GatewayList) (g : Gateway)
    → (if length gws == 1 then head? gws else none) ≡ some g
    → In g gws
sole-In [] g e = absurd (cc)
sole-In (x ∷ rest) g e = elim (at_head (length (x ∷ rest) == 1) x g none e) [
  | inl (one, same) ↦ inl same
  | inr other ↦ absurd (cc)
]

resolve-In :
    (gws : GatewayList) (via : Option Text) (g : Gateway) → resolve gws via ≡ some g → In g gws
unfolding resolve
resolve-In gws (some name) g e = (find-In _ gws g e).0
resolve-In gws none g e =
    by_default (find (λ (x : Gateway). x.is_default) gws) (λ h q. (find-In _ gws h q).0) e
  where
    by_default :
        (o : Option Gateway)
        → ((h : Gateway) → o ≡ some h → In h gws)
        → elim o [ some h ↦ some h | none ↦ if length gws == 1 then head? gws else none ] ≡ some g
        → In g gws
    by_default (some h) found q = found g q
    by_default none found q = sole-In gws g q

filter-HasName :
    (f : Gateway → Bool) (gws : GatewayList) (name : Text)
    → In name (map (λ (g : Gateway). g.name) (filter f gws))
    → HasName name gws
unfolding filter
filter-HasName f [] name h = h
filter-HasName f (g ∷ gws) name h = by_test (f g) (λ i. filter-HasName f gws name i) h
  where
    by_test :
        (b : Bool)
        → (In name (map (λ (x : Gateway). x.name) (filter f gws)) → HasName name gws)
        → In name (map (λ (x : Gateway). x.name) (if b then g ∷ filter f gws else filter f gws))
        → HasName name (g ∷ gws)
    by_test true later (inl e) = inl e
    by_test true later (inr i) = inr (later i)
    by_test false later i = inr (later i)

sole_name-In : (l : List Text) (name : Text) → sole_name l ≡ some name → In name l
sole_name-In [] name e = absurd (cc)
sole_name-In (one ∷ []) name e = inl cc
sole_name-In (one ∷ two ∷ more) name e = absurd (cc)

resolved-HasName :
    (gws : GatewayList) (o : Option Gateway) (name : Text)
    → ((g : Gateway) → o ≡ some g → In g gws)
    → name_of o ≡ some name
    → HasName name gws
resolved-HasName gws none name found e = absurd (cc)
resolved-HasName gws (some g) name found e =
    Any-map (λ h q. ap (λ (x : Gateway). x.name) q ∙ (let named : g.name ≡ name = cc in named)) gws
      (found g refl)

member_of-HasName :
    (prefix : Text) (gws : GatewayList) (t : Target) (o : Option (Option Text)) (name : Text)
    → member_of prefix gws t o ≡ some name
    → HasName name gws
unfolding selected
member_of-HasName prefix gws t (some via) name e =
    resolved-HasName gws (resolve gws via) name (λ g q. resolve-In gws via g q) e
member_of-HasName prefix gws t none name e =
    filter-HasName _ gws name (sole_name-In (selected gws t.labels) name e)

pub destination-HasName :
    (prefix : Text) (gws : GatewayList) (t : Target) (name : Text)
    → destination prefix gws t ≡ some name
    → HasName name gws
destination-HasName prefix gws t name e = by_role (gateway_name prefix t.labels) e
  where
    by_role :
        (o : Option Text)
        → unless_gateway o (member_of prefix gws t (opt_in prefix t.labels)) ≡ some name
        → HasName name gws
    by_role (some own) q = absurd (cc)
    by_role none q = member_of-HasName prefix gws t (opt_in prefix t.labels) name q
