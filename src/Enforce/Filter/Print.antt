-- ===== src/Enforce/Filter/Print.antt =====
-- The script is the print of the filter.
use degc.Prelude.{
  ℕ, ◌≡◌, refl, false, List, [], ◌∷◌, ◌++◌, append_assoc, append-nil, Result, ok, err, ◌>>=◌, ap,
  ◌∙◌, sym, flat_map,
}
use degc.Text.{str}
use degc.Net.{is_ipv4, is_ipv6}
use degc.Api.{Libs, Error}
use degc.Api.Values.{mark_value, snat_enabled}
use degc.Plan.{Plan, GatewayPlan}
use degc.Enforce.Route.{mark_text}
use degc.Enforce.Nft.{
  Rules, no_rules, line, emit_set, kill_rule, marked_rules, gateway_rules, rules_from, table_text,
  build_script,
}
use degc.Enforce.Nft.Pieces.{
  join_rules, join_rules_assoc, join_rules-no_rules, gateway_rules-join, own_rules, all_rules,
}
use degc.Enforce.Filter.{
  via_name, local_name, members_of, except_set, kills_for, six_sets, six_kills, locals4, locals6,
  own_filter, filter_of, marks_of, filter_for,
}
use degc.Enforce.Filter.Printed.{
  emitted, mark_rule_text, snat_rule_text, kill_rule_text, filter_rules, flat_map-append,
  Rules-path, excl_clause-except_set, excl_clause-except_text, kill6-six_sets, kill6-six_kills,
  kill6-others, snat_rule-snats_for, kill_rule-kills_for,
}
use degc.Enforce.Filter.Written.{filter_text, table_text_lem}

module _ (libs : Libs) where
  own_rules-filter_rules :
      (mg : ℕ × GatewayPlan) → own_rules libs mg ≡ filter_rules libs (own_filter libs mg)
  unfolding gateway_rules marked_rules flat_map
  own_rules-filter_rules (mark, gp) =
      let gw = gp.gateway in
      let six = members_of is_ipv6 gp in
      let before = marked_rules libs (mark_text mark) gp no_rules in
      let four = emit_set [] (via_name gw) (str "ipv4_addr") false (members_of is_ipv4 gp) in
      let excepted =
        flat_map emitted (except_set (local_name gw) (str "ipv4_addr") (locals4 libs gw)) in
      let set_six = flat_map emitted (six_sets gw six (locals6 libs gw)) in
      Rules-path _ _
        (kill6-six_sets libs gw six before
          ∙ ap (λ l. l ++ set_six)
              (excl_clause-except_set four (local_name gw) (str "ipv4_addr") (str "ip daddr")
                (locals4 libs gw))
          ∙ append_assoc four excepted set_six
          ∙ ap (λ l. four ++ l)
              (sym (
                flat_map-append emitted
                  (except_set (local_name gw) (str "ipv4_addr") (locals4 libs gw))
                  (six_sets gw six (locals6 libs gw)))))
        ((kill6-others libs gw six before).0
          ∙ ap
              (λ excl. line (
                str "        ip saddr @"
                ++ via_name gw
                ++ excl
                ++ str " meta mark set "
                ++ mark_text mark))
              (excl_clause-except_text four (local_name gw) (str "ipv4_addr") (str "ip daddr")
                (locals4 libs gw))
          ∙ sym (append-nil _))
        ((kill6-others libs gw six before).1
          ∙ snat_rule-snats_for libs (snat_enabled gw) mark gp.egress)
        (ap (λ l. l ++ kill_rule libs (mark_text mark) gp.egress)
            (kill6-six_kills libs gw six before)
          ∙ ap (λ l. flat_map (kill_rule_text libs) (six_kills gw six (locals6 libs gw)) ++ l)
              (kill_rule-kills_for libs mark gp.egress)
          ∙ sym (
              flat_map-append (kill_rule_text libs) (six_kills gw six (locals6 libs gw))
                (kills_for mark gp.egress)))

  all_rules-filter_rules :
      (ms : List (ℕ × GatewayPlan)) → all_rules libs ms ≡ filter_rules libs (filter_of libs ms)
  unfolding flat_map
  all_rules-filter_rules [] = refl
  all_rules-filter_rules (mg ∷ rest) =
      let f = own_filter libs mg in
      let g = filter_of libs rest in
      ap (λ r. join_rules r (all_rules libs rest)) (own_rules-filter_rules mg)
      ∙ ap (join_rules (filter_rules libs f)) (all_rules-filter_rules rest)
      ∙ Rules-path _ _ (sym (flat_map-append emitted f.sets g.sets))
          (sym (flat_map-append mark_rule_text f.marks g.marks))
          (sym (flat_map-append snat_rule_text f.snats g.snats))
          (sym (flat_map-append (kill_rule_text libs) f.kills g.kills))

  own_first :
      (mark : ℕ) (gp : GatewayPlan) (r o : Rules)
      → join_rules (gateway_rules libs (mark_text mark) gp r) o
        ≡ join_rules r (join_rules (own_rules libs (mark, gp)) o)
  own_first mark gp r o =
      ap (λ x. join_rules (gateway_rules libs (mark_text mark) gp x) o)
        (sym (join_rules-no_rules r))
      ∙ ap (λ x. join_rules x o) (gateway_rules-join libs (mark_text mark) gp r no_rules)
      ∙ join_rules_assoc r (own_rules libs (mark, gp)) o

  abbrev from_marks : Rules → Result Error (List (ℕ × GatewayPlan)) → Result Error Rules
  from_marks r (ok ms) = ok (join_rules r (all_rules libs ms))
  from_marks r (err e) = err e

  rules_from-marks_of :
      (gps : List GatewayPlan) (r : Rules) → rules_from libs gps r ≡ from_marks r (marks_of gps)
  unfolding rules_from marks_of
  rules_from-marks_of [] r = ap ok (sym (join_rules-no_rules r))
  rules_from-marks_of (gp ∷ rest) r =
      by_mark (mark_value gp.gateway)
        (λ mark. rules_from-marks_of rest (gateway_rules libs (mark_text mark) gp r))
    where
      joined :
          (mark : ℕ) (l : Result Error (List (ℕ × GatewayPlan)))
          → from_marks (gateway_rules libs (mark_text mark) gp r) l
            ≡ from_marks r (do ms ← l; ok ((mark, gp) ∷ ms))
      joined mark (ok ms) = ap ok (own_first mark gp r (all_rules libs ms))
      joined mark (err e) = refl

      by_mark :
          (m : Result Error ℕ)
          → ((mark : ℕ)
              → rules_from libs rest (gateway_rules libs (mark_text mark) gp r)
                ≡ from_marks (gateway_rules libs (mark_text mark) gp r) (marks_of rest))
          → (do value ← m; rules_from libs rest (gateway_rules libs (mark_text value) gp r))
            ≡ from_marks r (do mark ← m; ms ← marks_of rest; ok ((mark, gp) ∷ ms))
      by_mark (ok mark) later = later mark ∙ joined mark (marks_of rest)
      by_mark (err e) later = refl

  -- The script of a plan is the print of the filter that the plan means; and where one of the two
  -- fails, for a mark that cannot be read, so does the other, with the same error.
  pub build_script-filter_text :
      (plan : Plan)
      → build_script libs plan ≡ (do f ← filter_for libs plan; ok (filter_text libs f))
  unfolding build_script filter_for
  build_script-filter_text plan =
      ap (λ x. do r ← x; ok (table_text r)) (rules_from-marks_of plan.gateways no_rules)
      ∙ by_marks (marks_of plan.gateways)
    where
      by_marks :
          (r : Result Error (List (ℕ × GatewayPlan)))
          → (do x ← from_marks no_rules r; ok (table_text x))
            ≡ (do f ← (do ms ← r; ok (filter_of libs ms)); ok (filter_text libs f))
      by_marks (ok ms) =
          ap ok
            (ap table_text (all_rules-filter_rules ms) ∙ table_text_lem libs (filter_of libs ms))
      by_marks (err e) = refl
