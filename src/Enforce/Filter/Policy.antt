-- ===== src/Enforce/Filter/Policy.antt =====
-- What the filter of a plan does with the packets of its members, and with all others.
use degc.Prelude.{
  All-at, All-of_In, ℕ, ◌≡◌, ◌≢◌, refl, Bool, true, false, ◌&&◌, List, All, In, ap, ◌∙◌, sym, subst,
  ok, >>=-eq-ok, if◌then◌else◌,
}
use degc.Text.{Text}
use degc.Net.{IpAddr, is_ipv4, is_ipv6}
use degc.Api.{Libs}
use degc.Api.Values.{mark_value, snat_enabled}
use degc.Api.Gateways.Unique.{IsUnique}
use degc.Plan.{Plan, GatewayPlan}
use degc.Enforce.Filter.{
  Filter, Packet, covered, marked, masqueraded, dropped, members_of, locals4, locals6, filter_of,
  marks_of, filter_for,
}
use degc.Enforce.Filter.Apart.{HasOwnSets, plans_of, gateways_of}
use degc.Enforce.Filter.Verdicts.{stops, hides}
use degc.Enforce.Filter.Members.{
  HasMarks, marks_of-HasMarks, In-plans_of, plans_of-In, IsExact, covered-In, In-covered, not_In,
}
use degc.Enforce.Filter.Effects.{
  dropped_lem, masqueraded_lem, marked_lem, six_lem, no_masquerade, no_drop, no_mark_set,
}

-- A packet as it has its mark and its interface.
abbrev pub routed : Packet → ℕ → Text → Packet
routed p mark out = record {
  source = p.source;
  destination = p.destination;
  mark = mark;
  leaves_by = out;
}

module _ (covers : Text → IpAddr → Bool) (libs : Libs) (plan : Plan) where
  -- The filter of a plan is that of its gateways, each with its own mark.
  pub filter_for-marks_of :
      (f : Filter)
      → filter_for libs plan ≡ ok f
      → (ms : List (ℕ × GatewayPlan)) × (filter_of libs ms ≡ f)
        × (plans_of ms ≡ plan.gateways)
        × HasMarks ms
  unfolding filter_for
  filter_for-marks_of f h =
      let (ms, e, done) = >>=-eq-ok (marks_of plan.gateways) (λ l. ok (filter_of libs l)) h in
      let (p, k) = marks_of-HasMarks plan.gateways e in (ms, cc, p, k)

  module _ (f : Filter) (made : filter_for libs plan ≡ ok f) where
    module _ (unique : IsUnique (gateways_of plan.gateways)) (own : HasOwnSets plan.gateways) where
      pub filter_for-stops :
          (gp : GatewayPlan) (p : Packet)
          → In gp plan.gateways
          → In p.source gp.members
          → is_ipv4 p.source ≡ true
          → All (λ (g : GatewayPlan). IsExact covers p.source g.members) plan.gateways
          → All (λ (g : GatewayPlan). In p.source g.members → g ≡ gp) plan.gateways
          → (mark : ℕ) × (mark_value gp.gateway ≡ ok mark)
            × (marked covers f p
                ≡ (if covered covers (locals4 libs gp.gateway) p.destination then p.mark else mark))
            × ((out : Text)
                → (dropped covers f (routed p mark out) ≡ stops gp.egress out)
                  × (masqueraded f (routed p mark out)
                      ≡ (snat_enabled gp.gateway && hides gp.egress out)))
      filter_for-stops gp p i member four exact alone =
          let (ms, same_filter, same_plans, k) = filter_for-marks_of f made in
          let back = sym same_plans in
          let (mark, j) = In-plans_of gp ms (subst (In gp) back i) in
          let u = subst (λ l. IsUnique (gateways_of l)) back unique in
          let o = subst HasOwnSets back own in
          (
            mark,
            All-at (λ mg. mark_value mg.1.gateway ≡ ok mg.0) ms (mark, gp) k j,
            ap (λ x. marked covers x p) (sym same_filter)
                ∙ marked_lem covers libs ms p o (mark, gp) j four
                    (In-covered covers is_ipv4 p.source gp.members
                      (All-at at_source plan.gateways gp exact i) four member)
                    (λ x there.
                      sole ms k mark x there
                        (All-at (λ mg. mark_value mg.1.gateway ≡ ok mg.0) ms (mark, gp) k j)
                        (subst (In x.1) same_plans (plans_of-In x ms there))),
            λ out. (
              ap (λ x. dropped covers x (routed p mark out)) (sym same_filter)
                  ∙ dropped_lem covers libs ms (routed p mark out) k u (mark, gp) j refl four,
              ap (λ x. masqueraded x (routed p mark out)) (sym same_filter)
                  ∙ masqueraded_lem covers libs ms (routed p mark out) k u (mark, gp) j refl,
            ),
          )
        where
          at_source : GatewayPlan → Type 0
          at_source g = IsExact covers p.source g.members

          same_gateway :
              (g : GatewayPlan)
              → In g plan.gateways
              → covered covers (members_of is_ipv4 g) p.source ≡ true
              → g ≡ gp
          same_gateway g there h =
              All-at (λ (x : GatewayPlan). In p.source x.members → x ≡ gp) plan.gateways g alone
                there
                (covered-In covers is_ipv4 p.source g.members
                  (All-at at_source plan.gateways g exact there) h)

          sole :
              (ms : List (ℕ × GatewayPlan))
              → HasMarks ms
              → (mark : ℕ) (x : ℕ × GatewayPlan) → In x ms
              → mark_value gp.gateway ≡ ok mark
              → In x.1 plan.gateways
              → covered covers (members_of is_ipv4 x.1) p.source ≡ true
              → x ≡ (mark, gp)
          sole ms k mark x there e found h =
              let g = same_gateway x.1 found h in
              let own_mark = All-at (λ mg. mark_value mg.1.gateway ≡ ok mg.0) ms x k there in
              let m : x.0 ≡ mark =
                let q = sym own_mark ∙ ap (λ (y : GatewayPlan). mark_value y.gateway) g ∙ e in cc in
              λ i. (m i, g i)

    pub filter_for-drops :
        (gp : GatewayPlan) (p : Packet)
        → HasOwnSets plan.gateways
        → In gp plan.gateways
        → In p.source gp.members
        → is_ipv6 p.source ≡ true
        → IsExact covers p.source gp.members
        → covered covers (locals6 libs gp.gateway) p.destination ≡ false
        → dropped covers f p ≡ true
    filter_for-drops gp p own i member six exact away =
        let (ms, same_filter, same_plans, k) = filter_for-marks_of f made in
        let back = sym same_plans in
        let (mark, j) = In-plans_of gp ms (subst (In gp) back i) in
        ap (λ x. dropped covers x p) (sym same_filter)
        ∙ six_lem covers libs ms p (subst HasOwnSets back own) (mark, gp) j six
            (In-covered covers is_ipv6 p.source gp.members exact six member) away

    pub filter_for_foreign :
        (p : Packet)
        → All
            (λ (g : GatewayPlan). IsExact covers p.source g.members × (¬ In p.source g.members))
            plan.gateways
        → All (λ (g : GatewayPlan). mark_value g.gateway ≢ ok p.mark) plan.gateways
        → (marked covers f p ≡ p.mark) × (dropped covers f p ≡ false) × (masqueraded f p ≡ false)
    filter_for_foreign p outside unmarked =
        let (ms, same_filter, same_plans, k) = filter_for-marks_of f made in
        let foreign : All (λ (x : ℕ × GatewayPlan). x.0 ≢ p.mark) ms = All-of_In ms (λ x there e.
          All-at (λ (g : GatewayPlan). mark_value g.gateway ≢ ok p.mark) plan.gateways x.1 unmarked
            (subst (In x.1) same_plans (plans_of-In x ms there))
            (All-at (λ mg. mark_value mg.1.gateway ≡ ok mg.0) ms x k there ∙ ap ok e)) in
        (
          ap (λ x. marked covers x p) (sym same_filter)
              ∙ no_mark_set covers libs ms p (misses ms same_plans is_ipv4),
          ap (λ x. dropped covers x p) (sym same_filter)
              ∙ no_drop covers libs ms p foreign (misses ms same_plans is_ipv6),
          ap (λ x. masqueraded x p) (sym same_filter) ∙ no_masquerade covers libs ms p foreign,
        )
      where
        misses :
            (ms : List (ℕ × GatewayPlan))
            → plans_of ms ≡ plan.gateways
            → (family : IpAddr → Bool)
            → All
                (λ (x : ℕ × GatewayPlan). covered covers (members_of family x.1) p.source ≡ false)
                ms
        misses ms same_plans family = All-of_In ms (λ x there.
            let (exact, none_of) =
              All-at
                (λ (g : GatewayPlan). IsExact covers p.source g.members × (¬ In p.source g.members))
                plan.gateways x.1 outside (subst (In x.1) same_plans (plans_of-In x ms there)) in
            not_In covers family p.source x.1.members exact none_of)
