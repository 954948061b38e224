-- ===== src/Plan/Assign/Membership.antt =====
-- Which addresses the second loop of `compile` gives to a gateway.
use degc.Prelude.{
  Bool, ◌&&◌, ◌||◌, ◌≡◌, refl, Option, none, some, List, [], ◌∷◌, arith, ◌∙◌, any, Bool-cases, inl,
  inr, ap,
}
use degc.Text.{Text}
use degc.Map.{BTreeSet, eqk, get, add_all, has, text_key}
use degc.Map.Laws.{eqk_iff, get-insert, has-add_all}
use degc.Net.{IpAddr, ip_key}
use degc.Api.{Gateway, GatewayList}
use degc.Api.Gateways.{resolve}
use degc.Api.Labels.{gateway_name, opt_in}
use degc.Docker.{Target}
use degc.Plan.{Members}
use degc.Plan.Resolve.{addresses, is_text}
use degc.Plan.Assign.{
  or_empty, add_member, Assigned, selected, place_opted, place_selected, place_member, place,
  assign,
}

abbrev pub name_of : Option Gateway → Option Text
name_of none = none
name_of (some g) = some g.name

abbrev pub sole_name : List Text → Option Text
sole_name (one ∷ []) = some one
sole_name _ = none

-- Where a container that is no gateway goes: by its opt-in, or by the one gateway that selects it.
abbrev pub member_of : Text → GatewayList → Target → Option (Option Text) → Option Text
member_of prefix gws t (some via) = name_of (resolve gws via)
member_of prefix gws t none = sole_name (selected gws t.labels)

abbrev pub unless_gateway : Option Text → Option Text → Option Text
unless_gateway (some name) d = none
unless_gateway none d = d

abbrev pub destination : Text → GatewayList → Target → Option Text
destination prefix gws t =
    unless_gateway (gateway_name prefix t.labels) (member_of prefix gws t (opt_in prefix t.labels))

-- The addresses of a gateway so far.
abbrev members_at : Text → Assigned → BTreeSet IpAddr
members_at name a = or_empty (get name a.members.addresses)

module _ (name : Text) (ip : IpAddr) where
  abbrev brings : Option Text → Target → Bool
  brings d t = is_text d name && has ip (addresses t)

  has-add_member :
      (gw : Text) (t : Target) (m : Members)
      → has ip (or_empty (get name (add_member gw t m).addresses))
        ≡ (brings (some gw) t || has ip (or_empty (get name m.addresses)))
  unfolding add_member
  has-add_member gw t m = elim (Bool-cases (eqk gw name)) [
    | inl e ↦
        let q : gw ≡ name = (eqk_iff gw name).0 e in
        rw (get-insert gw name (add_all (addresses t) (or_empty (get gw m.addresses))) m.addresses)
          (rw e (
            has-add_all (addresses t) ip (or_empty (get gw m.addresses))
            ∙ ap (λ n. has ip (addresses t) || has ip (or_empty (get n m.addresses))) q))
    | inr e ↦
        rw (get-insert gw name (add_all (addresses t) (or_empty (get gw m.addresses))) m.addresses)
          (rw e)
  ]

  has-place_selected :
      (t : Target) (l : List Text) (a : Assigned)
      → has ip (members_at name (place_selected t l a))
        ≡ (brings (sole_name l) t || has ip (members_at name a))
  unfolding place_selected
  has-place_selected t [] a = refl
  has-place_selected t (one ∷ []) a = has-add_member one t a.members
  has-place_selected t (one ∷ two ∷ more) a = refl

  has-place_opted :
      (t : Target) (via : Option Text) (g : Option Gateway) (a : Assigned)
      → has ip (members_at name (place_opted t via g a))
        ≡ (brings (name_of g) t || has ip (members_at name a))
  unfolding place_opted
  has-place_opted t via (some g) a = has-add_member g.name t a.members
  has-place_opted t via none a = refl

  module _ (prefix : Text) (gws : GatewayList) where
    has-place_member :
        (t : Target) (o : Option (Option Text)) (a : Assigned)
        → has ip (members_at name (place_member prefix gws t o a))
          ≡ (brings (member_of prefix gws t o) t || has ip (members_at name a))
    unfolding place_member
    has-place_member t (some via) a = has-place_opted t via (resolve gws via) a
    has-place_member t none a = has-place_selected t (selected gws t.labels) a

    has-place :
        (t : Target) (g : Option Text) (a : Assigned)
        → has ip (members_at name (place prefix gws t g a)) ≡ (
            brings (unless_gateway g (member_of prefix gws t (opt_in prefix t.labels))) t
            || has ip (members_at name a))
    unfolding place
    has-place t (some n) a = refl
    has-place t none a = has-place_member t (opt_in prefix t.labels) a

    pub has-assign :
        (ts : List Target) (a : Assigned)
        → has ip (members_at name (assign prefix gws ts a))
          ≡ (any (λ t. brings (destination prefix gws t) t) ts || has ip (members_at name a))
    unfolding assign any
    has-assign [] a = refl
    has-assign (t ∷ rest) a = ground (
      arith,
      has-assign rest (place prefix gws t (gateway_name prefix t.labels) a),
      has-place t (gateway_name prefix t.labels) a,
    )
