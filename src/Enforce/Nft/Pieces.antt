-- ===== src/Enforce/Nft/Pieces.antt =====
-- The script of `build_script` by the gateways: each adds its own pieces, whichever come before it.
use degc.Prelude.{
  ℕ, ◌≡◌, refl, not, true, false, List, [], ◌∷◌, ◌++◌, append_assoc, append-nil, Bool, ok,
  >>=-eq-ok, ap, ap₂, ◌∙◌, sym, filter, map, if◌then◌else◌, All,
}
use degc.Text.{Text, str}
use degc.Net.{is_ipv6, is_ipv4}
use degc.Net.Print.{print}
use degc.Api.{Libs, Gateway}
use degc.Api.Values.{mark_value, snat_enabled}
use degc.Plan.{Plan, GatewayPlan}
use degc.Enforce.Route.{mark_text}
use degc.Enforce.Nft.{
  Rules, no_rules, line, sanitize, emit_set, excl_clause, snat_rule, kill_rule, locals, kill6,
  marked_rules, gateway_rules, rules_from, table_text, build_script,
}

-- The texts of one after those of the other.
abbrev pub join_rules : Rules → Rules → Rules
join_rules r o = record {
  sets = r.sets ++ o.sets;
  mark_rules = r.mark_rules ++ o.mark_rules;
  snat_rules = r.snat_rules ++ o.snat_rules;
  kill_rules = r.kill_rules ++ o.kill_rules;
}

five_join :
    (x y a b c d e : Text) → (x ++ y) ++ a ++ b ++ c ++ d ++ e ≡ x ++ (y ++ a ++ b ++ c ++ d ++ e)
five_join x y a b c d e = simp append_assoc refl

pub emit_set-join :
    (x y name typ : Text) (interval : Bool) (elems : List Text)
    → emit_set (x ++ y) name typ interval elems ≡ x ++ emit_set y name typ interval elems
unfolding emit_set
emit_set-join x y name typ interval elems = five_join x y _ _ _ _ _

excl_clause-join :
    (x y name typ kw : Text) (cidrs : List Text)
    → excl_clause (x ++ y) name typ kw cidrs
      ≡ (x ++ (excl_clause y name typ kw cidrs).0, (excl_clause y name typ kw cidrs).1)
unfolding excl_clause
excl_clause-join x y name typ kw [] = refl
excl_clause-join x y name typ kw (c ∷ cidrs) =
    ap (λ l. (l, str " " ++ kw ++ str " != @" ++ name))
      (emit_set-join x y name typ true (c ∷ cidrs))

-- A set, and the set of the subnets that it excepts.
both_sets-join :
    (x y name typ local kw : Text) (elems cidrs : List Text)
    → excl_clause (emit_set (x ++ y) name typ false elems) local typ kw cidrs ≡ (
      x ++ (excl_clause (emit_set y name typ false elems) local typ kw cidrs).0,
      (excl_clause (emit_set y name typ false elems) local typ kw cidrs).1,
    )
both_sets-join x y name typ local kw elems cidrs =
    ap (λ l. excl_clause l local typ kw cidrs) (emit_set-join x y name typ false elems)
    ∙ excl_clause-join x (emit_set y name typ false elems) local typ kw cidrs

module _ (libs : Libs) where
  kill6-join :
      (gw : Gateway) (members : List Text) (r o : Rules)
      → kill6 libs gw members (join_rules r o) ≡ join_rules r (kill6 libs gw members o)
  unfolding kill6
  kill6-join gw [] r o = refl
  kill6-join gw (m ∷ members) r o =
      ap
        (λ (x : Text × Text). record (join_rules r o) {
          sets = x.0;
          kill_rules =
              r.kill_rules
              ++ o.kill_rules
              ++ line (
                  str "        ip6 saddr @"
                  ++ (str "degc_via6_" ++ sanitize gw.name)
                  ++ x.1
                  ++ str " drop");
        })
        (both_sets-join r.sets o.sets (str "degc_via6_" ++ sanitize gw.name) (str "ipv6_addr")
          (str "degc_local6_" ++ sanitize gw.name) (str "ip6 daddr") (m ∷ members)
          (locals libs (λ n. not n.is_ipv4) gw))
      ∙ ap (λ l. record (join_rules r (kill6 libs gw (m ∷ members) o)) { kill_rules = l })
          (append_assoc r.kill_rules o.kill_rules _)

  marked_rules-join :
      (mark : Text) (gp : GatewayPlan) (r o : Rules)
      → marked_rules libs mark gp (join_rules r o) ≡ join_rules r (marked_rules libs mark gp o)
  unfolding marked_rules
  marked_rules-join mark gp r o =
      let gw = gp.gateway in
      let via = str "degc_via_" ++ sanitize gw.name in
      ap
        (λ (x : Text × Text). record (join_rules r o) {
          sets = x.0;
          mark_rules =
              r.mark_rules
              ++ o.mark_rules
              ++ line (str "        ip saddr @" ++ via ++ x.1 ++ str " meta mark set " ++ mark);
          snat_rules =
              r.snat_rules
              ++ o.snat_rules
              ++ (if snat_enabled gw then snat_rule mark gp.egress else []);
        })
        (both_sets-join r.sets o.sets via (str "ipv4_addr") (str "degc_local_" ++ sanitize gw.name)
          (str "ip daddr") (map print (filter is_ipv4 gp.members))
          (locals libs (λ n. n.is_ipv4) gw))
      ∙ ap₂
          (λ l k. record (join_rules r (marked_rules libs mark gp o)) {
            mark_rules = l;
            snat_rules = k;
          })
          (append_assoc r.mark_rules o.mark_rules _) (append_assoc r.snat_rules o.snat_rules _)

  pub gateway_rules-join :
      (mark : Text) (gp : GatewayPlan) (r o : Rules)
      → gateway_rules libs mark gp (join_rules r o) ≡ join_rules r (gateway_rules libs mark gp o)
  unfolding gateway_rules
  gateway_rules-join mark gp r o =
      let members6 = map print (filter is_ipv6 gp.members) in
      let killed : kill6 libs gp.gateway members6 (marked_rules libs mark gp (join_rules r o))
          ≡ join_rules r (kill6 libs gp.gateway members6 (marked_rules libs mark gp o)) =
        ap (kill6 libs gp.gateway members6) (marked_rules-join mark gp r o)
        ∙ kill6-join gp.gateway members6 r (marked_rules libs mark gp o) in
      ap (λ (x : Rules). record x { kill_rules = x.kill_rules ++ kill_rule libs mark gp.egress })
        killed
      ∙ ap (λ l. record (join_rules r (gateway_rules libs mark gp o)) { kill_rules = l })
          (append_assoc r.kill_rules _ (kill_rule libs mark gp.egress))

  -- What a gateway adds by itself.
  abbrev pub own_rules : ℕ × GatewayPlan → Rules
  own_rules mg = gateway_rules libs (mark_text mg.0) mg.1 no_rules

  abbrev pub all_rules : List (ℕ × GatewayPlan) → Rules
  all_rules [] = no_rules
  all_rules (mg ∷ rest) = join_rules (own_rules mg) (all_rules rest)

pub join_rules_assoc :
    (a b c : Rules) → join_rules (join_rules a b) c ≡ join_rules a (join_rules b c)
join_rules_assoc a b c i = record {
  sets = append_assoc a.sets b.sets c.sets i;
  mark_rules = append_assoc a.mark_rules b.mark_rules c.mark_rules i;
  snat_rules = append_assoc a.snat_rules b.snat_rules c.snat_rules i;
  kill_rules = append_assoc a.kill_rules b.kill_rules c.kill_rules i;
}

pub join_rules-no_rules : (r : Rules) → join_rules r no_rules ≡ r
join_rules-no_rules r i = record {
  sets = append-nil r.sets i;
  mark_rules = append-nil r.mark_rules i;
  snat_rules = append-nil r.snat_rules i;
  kill_rules = append-nil r.kill_rules i;
}

-- The gateways with their marks.
pub record IsMarked (gps : List GatewayPlan) (ms : List (ℕ × GatewayPlan)) : Type 0 where
  pub gateways : map (λ (mg : ℕ × GatewayPlan). mg.1) ms ≡ gps
  pub marks : All (λ (mg : ℕ × GatewayPlan). mark_value mg.1.gateway ≡ ok mg.0) ms

module _ (libs : Libs) where
  rules_from-all_rules :
      (gps : List GatewayPlan) (r : Rules) {r' : Rules}
      → rules_from libs gps r ≡ ok r'
      → (ms : List (ℕ × GatewayPlan)) × IsMarked gps ms × (r' ≡ join_rules r (all_rules libs ms))
  unfolding rules_from
  rules_from-all_rules [] r {r'} h =
      let e : r ≡ r' = cc in
      ([], record { gateways = refl; marks = tt }, sym e ∙ sym (join_rules-no_rules r))
  rules_from-all_rules (gp ∷ rest) r h =
      let (mark, e, later) =
        >>=-eq-ok (mark_value gp.gateway)
          (λ m. rules_from libs rest (gateway_rules libs (mark_text m) gp r)) h in
      let (ms, k, eq) =
        rules_from-all_rules rest (gateway_rules libs (mark_text mark) gp r) later in
      let own =
        ap (gateway_rules libs (mark_text mark) gp) (sym (join_rules-no_rules r))
        ∙ gateway_rules-join libs (mark_text mark) gp r no_rules in
      (
        (mark, gp) ∷ ms,
        record { gateways = ap (λ l. gp ∷ l) k.gateways; marks = (e, k.marks) },
        eq
            ∙ ap (λ x. join_rules x (all_rules libs ms)) own
            ∙ join_rules_assoc r (own_rules libs (mark, gp)) (all_rules libs ms),
      )

  -- The script is the table around the rules of the gateways, in their order, where the rules of a
  -- gateway depend on it and its mark alone.
  pub build_script-all_rules :
      (plan : Plan) (script : Text)
      → build_script libs plan ≡ ok script
      → (ms : List (ℕ × GatewayPlan)) × IsMarked plan.gateways ms
        × (script ≡ table_text (all_rules libs ms))
  unfolding build_script
  build_script-all_rules plan script h =
      let (r, e, table) =
        >>=-eq-ok (rules_from libs plan.gateways no_rules) (λ x. ok (table_text x)) h in
      let (ms, k, eq) = rules_from-all_rules plan.gateways no_rules e in
      let same : table_text r ≡ script = cc in (ms, k, sym same ∙ ap table_text eq)
