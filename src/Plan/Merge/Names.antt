-- ===== src/Plan/Merge/Names.antt =====
-- The first loop of `compile`: configured gateways stay as they are and in front, each gateway
-- behind them is one that a container declares, and all names differ.
use degc.Prelude.{
  false, ◌≡◌, ◌≢◌, refl, Option, none, some, List, [], ◌∷◌, ◌++◌, Result, ok, err, ◌>>◌, >>=-eq-ok,
  >>-eq-ok, append_assoc, append-nil, any, All, All-append, All-map, Any, inl, inr, Bool-cases, sym,
  ◌∙◌, ap, arith, subst,
}
use degc.Text.{Text, str}
use degc.Text.Laws.{same_iff}
use degc.Api.{Libs, Labels, Gateway, GatewayList, Error}
use degc.Api.Labels.{gateway_name}
use degc.Api.Validate.{validate}
use degc.Api.Validate.WellFormed.{IsWellFormed, validate_iff}
use degc.Api.Gateways.Document.{HasOwnNames}
use degc.Api.Discover.{discovered_gateway, table_knob, field, declared}
use degc.Docker.{Target}
use degc.Plan.Merge.{
  Merged, is_known, egress_container, push_result, declare, merge, merge_gateways,
}

-- A gateway that the labels give is validated, and has the name that they say.
pub discovered_gateway_lem :
    (libs : Libs) (prefix name container : Text) (labels : Labels) {g : Gateway}
    → discovered_gateway libs prefix name container labels ≡ ok g
    → IsWellFormed libs g × (g.name ≡ name) × (g.egress.container ≡ some container)
unfolding discovered_gateway declared
discovered_gateway_lem libs prefix name container labels {g} h =
    let (table, _, after) =
      >>=-eq-ok (table_knob name (field prefix labels (str "table")))
        (λ t.
          validate libs (declared prefix name container labels t)
          >> ok (declared prefix name container labels t))
        h in
    let gw = declared prefix name container labels table in
    let (valid, same_gw) = >>-eq-ok (validate libs gw) (ok gw) after in
    let e : gw ≡ g = cc in
    (
      subst (IsWellFormed libs) e ((validate_iff libs gw).0 valid.1),
      ap (λ (x : Gateway). x.name) (sym e),
      ap (λ (x : Gateway). x.egress.container) (sym e),
    )

is_known-false :
    (name : Text) (gws : GatewayList)
    → is_known name gws ≡ false
    → All (λ (g : Gateway). name ≢ g.name) gws
unfolding is_known any
is_known-false name [] h = tt
is_known-false name (g ∷ rest) h =
    (λ e. ground (arith, same_iff g.name name), is_known-false name rest (ground arith))

HasOwnNames-snoc :
    (gws : GatewayList) (gw : Gateway)
    → HasOwnNames gws
    → All (λ (g : Gateway). gw.name ≢ g.name) gws
    → HasOwnNames (gws ++ gw ∷ [])
HasOwnNames-snoc [] gw own fresh = (tt, tt)
HasOwnNames-snoc (g ∷ rest) gw (apart, own) (f, fresh) =
    (All-append _ rest (gw ∷ []) apart (f, tt), HasOwnNames-snoc rest gw own fresh)

-- The container declares the gateway.
abbrev pub Declares : Libs → Text → Gateway → Target → Type 0
Declares libs prefix g t =
    (name : Text) × (gateway_name prefix t.labels ≡ some name)
    × (discovered_gateway libs prefix name (egress_container t) t.labels ≡ ok g)

module _ (libs : Libs) (prefix : Text) where
  -- What one round adds.
  record IsRound (t : Target) (m n : Merged) : Type 0 where
    added : GatewayList
    gateways : n.gateways ≡ m.gateways ++ added
    declared_by : All (λ g. Declares libs prefix g t) added
    own : HasOwnNames m.gateways → HasOwnNames n.gateways

  nothing_added : (t : Target) (m n : Merged) → n.gateways ≡ m.gateways → IsRound t m n
  nothing_added t m n e = record {
    added = [];
    gateways = e ∙ sym (append-nil m.gateways);
    declared_by = tt;
    own = λ h. subst HasOwnNames (sym e) h;
  }

  push-IsRound :
      (t : Target) (m : Merged) (name : Text)
      → gateway_name prefix t.labels ≡ some name
      → is_known name m.gateways ≡ false
      → (r : Result Error Gateway)
      → discovered_gateway libs prefix name (egress_container t) t.labels ≡ r
      → IsRound t m (push_result m t.name r)
  push-IsRound t m name e unknown (err x) d = nothing_added t m _ refl
  push-IsRound t m name e unknown (ok g) d = record {
    added = g ∷ [];
    gateways = refl;
    declared_by = ((name, e, d), tt);
    own = λ h. HasOwnNames-snoc m.gateways g h (
        let (_, same_name, _) =
          discovered_gateway_lem libs prefix name (egress_container t) t.labels d in
        subst (λ n. All (λ (x : Gateway). n ≢ x.name) m.gateways) (sym same_name)
          (is_known-false name m.gateways unknown));
  }

  declare-IsRound :
      (t : Target) (m : Merged) (o : Option Text)
      → gateway_name prefix t.labels ≡ o
      → IsRound t m (declare libs prefix m t o)
  unfolding declare
  declare-IsRound t m none e = nothing_added t m m refl
  declare-IsRound t m (some name) e = elim (Bool-cases (is_known name m.gateways)) [
    | inl known ↦ rw known (nothing_added t m m refl)
    | inr unknown ↦ rw unknown (push-IsRound t m name e unknown _ refl)
  ]

  -- The gateways behind those of `m`, each declared by one of the containers.
  pub record IsMerge (ts : List Target) (m n : Merged) : Type 0 where
    pub added : GatewayList
    pub gateways : n.gateways ≡ m.gateways ++ added
    pub declared_by : All (λ g. Any (Declares libs prefix g) ts) added
    pub own : HasOwnNames m.gateways → HasOwnNames n.gateways

  merge_lem : (ts : List Target) (m : Merged) → IsMerge ts m (merge libs prefix ts m)
  unfolding merge
  merge_lem [] m = record {
    added = [];
    gateways = sym (append-nil m.gateways);
    declared_by = tt;
    own = λ h. h;
  }
  merge_lem (t ∷ rest) m =
      let next = declare libs prefix m t (gateway_name prefix t.labels) in
      let first = declare-IsRound t m (gateway_name prefix t.labels) refl in
      let later = merge_lem rest next in
      record {
        added = first.added ++ later.added;
        gateways =
            later.gateways
            ∙ ap (λ l. l ++ later.added) first.gateways
            ∙ append_assoc m.gateways first.added later.added;
        declared_by =
            All-append _ first.added later.added
              (All-map (λ g d. inl d) first.added first.declared_by)
              (All-map (λ g d. inr d) later.added later.declared_by);
        own = λ h. later.own (first.own h);
      }

-- The configured gateways stay in front and unchanged; each gateway behind them is one that some
-- container declares and that validates; and if the configured names differ, all names differ.
pub merge_gateways_sound :
    (libs : Libs) (prefix : Text) (targets : List Target) (gws : GatewayList)
    → HasOwnNames gws
    → (added : GatewayList) × ((merge_gateways libs prefix targets gws).gateways ≡ gws ++ added)
      × All (λ g. Any (Declares libs prefix g) targets × IsWellFormed libs g) added
      × HasOwnNames (gws ++ added)
unfolding merge_gateways
merge_gateways_sound libs prefix targets gws own =
    let m = merge_lem libs prefix targets (record { gateways = gws; errors = [] }) in
    (
      m.added,
      m.gateways,
      All-map (λ g d. (d, well_formed g targets d)) m.added m.declared_by,
      subst HasOwnNames m.gateways (m.own own),
    )
  where
    well_formed :
        (g : Gateway) (ts : List Target) → Any (Declares libs prefix g) ts → IsWellFormed libs g
    well_formed g [] h = elim h [ ]
    well_formed g (t ∷ ts) (inl (name, _, d)) =
        (discovered_gateway_lem libs prefix name (egress_container t) t.labels d).0
    well_formed g (t ∷ ts) (inr h) = well_formed g ts h
