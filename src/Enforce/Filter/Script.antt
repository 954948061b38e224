-- ===== src/Enforce/Filter/Script.antt =====
-- What the script of a plan does with packets: it is the print of a filter, and the filter stops,
-- hides and leaves alone what the plan means.
use degc.Prelude.{◌≡◌, ◌≢◌, Bool, true, false, All, In, ok, >>=-eq-ok, ◌∙◌, sym}
use degc.Text.{Text}
use degc.Net.{IpAddr, is_ipv6}
use degc.Api.{Libs}
use degc.Api.Values.{mark_value}
use degc.Plan.{Plan, GatewayPlan}
use degc.Enforce.Nft.{build_script}
use degc.Enforce.Filter.{Filter, Packet, covered, marked, masqueraded, dropped, locals6, filter_for}
use degc.Enforce.Filter.Written.{filter_text}
use degc.Enforce.Filter.Print.{build_script-filter_text}
use degc.Enforce.Filter.Apart.{HasOwnSets}
use degc.Enforce.Filter.Members.{IsExact}
use degc.Enforce.Filter.Policy.{filter_for-drops, filter_for_foreign}

module _ (libs : Libs) (plan : Plan) (script : Text) where
  -- The script is the print of the filter, which is the one that the plan means.
  abbrev pub IsPrint : Filter → Type 0
  IsPrint f = (filter_for libs plan ≡ ok f) × (filter_text libs f ≡ script)

  pub build_script-IsPrint : build_script libs plan ≡ ok script → (f : Filter) × IsPrint f
  build_script-IsPrint h =
      let (f, e, done) =
        >>=-eq-ok (filter_for libs plan) (λ x. ok (filter_text libs x))
          (sym (build_script-filter_text libs plan) ∙ h) in
      (f, (e, cc))

  module _ (covers : Text → IpAddr → Bool) (built : build_script libs plan ≡ ok script) where
    -- A script that is built for a plan is the print of a filter that does this, where the names of
    -- the gateways stay different as the names of sets: it drops a packet from an IPv6 address of a
    -- member, which the elements of the sets cover as itself alone, whatever its mark, its interface
    -- and the egress, unless the packet goes to the own IPv6 subnets of the gateway.
    pub build_script-drops :
        (gp : GatewayPlan) (p : Packet)
        → HasOwnSets plan.gateways
        → In gp plan.gateways
        → In p.source gp.members
        → is_ipv6 p.source ≡ true
        → IsExact covers p.source gp.members
        → covered covers (locals6 libs gp.gateway) p.destination ≡ false
        → (f : Filter) × IsPrint f × (dropped covers f p ≡ true)
    build_script-drops gp p own i member six exact away =
        let (f, (made, text)) = build_script-IsPrint built in
        (f, (made, text), filter_for-drops covers libs plan f made gp p own i member six exact away)

    -- A script that is built for a plan is the print of a filter that leaves all others alone: a
    -- packet from an address that is no member of any gateway, and that the elements of the sets do
    -- not cover, and whose mark is none of theirs, keeps its mark, is not dropped and is not
    -- masqueraded.
    pub build_script_foreign :
        (p : Packet)
        → All
            (λ (g : GatewayPlan). IsExact covers p.source g.members × (¬ In p.source g.members))
            plan.gateways
        → All (λ (g : GatewayPlan). mark_value g.gateway ≢ ok p.mark) plan.gateways
        → (f : Filter) × IsPrint f
          × (marked covers f p ≡ p.mark)
          × (dropped covers f p ≡ false)
          × (masqueraded f p ≡ false)
    build_script_foreign p outside unmarked =
        let (f, (made, text)) = build_script-IsPrint built in
        let (kept, undropped, unhidden) =
          filter_for_foreign covers libs plan f made p outside unmarked in
        (f, (made, text), kept, undropped, unhidden)
