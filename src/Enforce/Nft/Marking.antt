-- ===== src/Enforce/Nft/Marking.antt =====
-- The sets and the mark rules in the script of `build_script`: whose traffic is marked.
use degc.Prelude.{
  ℕ, ◌≡◌, refl, true, false, List, [], ◌∷◌, ◌++◌, append-nil, Bool, ok, All, In, inl, inr, ap, ◌∙◌,
  sym, subst, filter, map,
}
use degc.Text.{Text, str}
use degc.Net.{is_ipv6, is_ipv4}
use degc.Net.Print.{print}
use degc.Api.{Libs, Gateway}
use degc.Api.Values.{mark_value}
use degc.Plan.{Plan, GatewayPlan}
use degc.Enforce.Route.{mark_text}
use degc.Enforce.Nft.{
  Rules, line, sanitize, emit_set, excl_clause, locals, kill6, marked_rules, gateway_rules,
  table_open, mark_open, snat_chain, kill_open, table_text, build_script,
}
use degc.Enforce.Nft.KillSwitch.{HasPart, part_whole, part_before, part_after}
use degc.Enforce.Nft.Pieces.{emit_set-join, own_rules, all_rules, build_script-all_rules}

-- The set of the IPv4 members, as it is written.
abbrev pub member_set : GatewayPlan → Text
member_set gp =
    emit_set [] (str "degc_via_" ++ sanitize gp.gateway.name) (str "ipv4_addr") false
      (map print (filter is_ipv4 gp.members))

-- What excepts the own IPv4 subnets of a gateway, where it has some.
abbrev pub except4 : Gateway → List Text → Text
except4 gw [] = []
except4 gw (c ∷ cidrs) =
    str " " ++ str "ip daddr" ++ str " != @" ++ (str "degc_local_" ++ sanitize gw.name)

-- The rule that marks what the members send, but to the gateway's own subnets.
abbrev pub mark_rule : Libs → ℕ → GatewayPlan → Text
mark_rule libs mark gp = line (
    str "        ip saddr @"
    ++ (str "degc_via_" ++ sanitize gp.gateway.name)
    ++ except4 gp.gateway (locals libs (λ n. n.is_ipv4) gp.gateway)
    ++ str " meta mark set "
    ++ mark_text mark)

pub emit_set-append :
    (out name typ : Text) (interval : Bool) (elems : List Text)
    → emit_set out name typ interval elems ≡ out ++ emit_set [] name typ interval elems
emit_set-append out name typ interval elems =
    ap (λ l. emit_set l name typ interval elems) (sym (append-nil out))
    ∙ emit_set-join out [] name typ interval elems

part-emit_set :
    {t : Text} (out name typ : Text) (interval : Bool) (elems : List Text)
    → HasPart t out
    → HasPart t (emit_set out name typ interval elems)
part-emit_set {t} out name typ interval elems h =
    subst (HasPart t) (sym (emit_set-append out name typ interval elems)) (part_before out _ h)

part-excl_clause :
    {t : Text} (out name typ kw : Text) (cidrs : List Text)
    → HasPart t out
    → HasPart t (excl_clause out name typ kw cidrs).0
unfolding excl_clause
part-excl_clause out name typ kw [] h = h
part-excl_clause out name typ kw (c ∷ cidrs) h = part-emit_set out name typ true (c ∷ cidrs) h

excl_clause-except4 :
    (gw : Gateway) (out : Text) (cidrs : List Text)
    → (excl_clause out
        (str "degc_local_" ++ sanitize gw.name)
        (str "ipv4_addr")
        (str "ip daddr")
        cidrs).1
      ≡ except4 gw cidrs
unfolding excl_clause
excl_clause-except4 gw out [] = refl
excl_clause-except4 gw out (c ∷ cidrs) = refl

module _ (libs : Libs) where
  part-kill6 :
      {t : Text} (gw : Gateway) (members : List Text) (r : Rules)
      → HasPart t r.sets
      → HasPart t (kill6 libs gw members r).sets
  unfolding kill6
  part-kill6 gw [] r h = h
  part-kill6 gw (m ∷ members) r h =
      part-excl_clause _ _ _ _ _ (part-emit_set r.sets _ _ false (m ∷ members) h)

  kill6-mark_rules :
      (gw : Gateway) (members : List Text) (r : Rules)
      → (kill6 libs gw members r).mark_rules ≡ r.mark_rules
  unfolding kill6
  kill6-mark_rules gw [] r = refl
  kill6-mark_rules gw (m ∷ members) r = refl

  own-member_set :
      (mark : ℕ) (gp : GatewayPlan) → HasPart (member_set gp) (own_rules libs (mark, gp)).sets
  unfolding gateway_rules marked_rules
  own-member_set mark gp =
      part-kill6 gp.gateway (map print (filter is_ipv6 gp.members)) _
        (part-excl_clause _ _ _ _ _ (part_whole (member_set gp)))

  own-mark_rule :
      (mark : ℕ) (gp : GatewayPlan)
      → (own_rules libs (mark, gp)).mark_rules ≡ mark_rule libs mark gp
  unfolding gateway_rules marked_rules
  own-mark_rule mark gp =
      kill6-mark_rules gp.gateway (map print (filter is_ipv6 gp.members)) _
      ∙ ap
          (λ l. line (
            str "        ip saddr @"
            ++ (str "degc_via_" ++ sanitize gp.gateway.name)
            ++ l
            ++ str " meta mark set "
            ++ mark_text mark))
          (excl_clause-except4 gp.gateway _ _)

  -- A gateway with its mark: its set of members and its rule stand in the rules.
  pub record IsServed (mark : ℕ) (gp : GatewayPlan) (sets rules : Text) : Type 0 where
    pub members : HasPart (member_set gp) sets
    pub rule : HasPart (mark_rule libs mark gp) rules

  all_rules-IsServed :
      (ms : List (ℕ × GatewayPlan)) (mark : ℕ) (gp : GatewayPlan)
      → In (mark, gp) ms
      → IsServed mark gp (all_rules libs ms).sets (all_rules libs ms).mark_rules
  all_rules-IsServed [] mark gp i = elim i [ ]
  all_rules-IsServed (mg ∷ ms) mark gp (inl e) =
      subst
        (λ (x : ℕ × GatewayPlan).
          IsServed x.0 x.1 (all_rules libs (mg ∷ ms)).sets (all_rules libs (mg ∷ ms)).mark_rules)
        e
        (record {
          members = part_before _ _ (own-member_set mg.0 mg.1);
          rule = part_before _ _ (
              subst (HasPart (mark_rule libs mg.0 mg.1)) (sym (own-mark_rule mg.0 mg.1))
                (part_whole _));
        })
  all_rules-IsServed (mg ∷ ms) mark gp (inr i) =
      let more = all_rules-IsServed ms mark gp i in
      record { members = part_after _ _ more.members; rule = part_after _ _ more.rule }

part-mark_chain :
    {t : Text} (r : Rules)
    → HasPart t (table_open ++ r.sets ++ mark_open ++ r.mark_rules)
    → HasPart t (table_text r)
unfolding table_text
part-mark_chain r h = part_before _ (line (str "}")) (
    part_before _ (line (str "    }")) (
      part_before _ r.kill_rules (
        part_before _ kill_open
          (part_before _ (snat_chain r.snat_rules) (part_before _ (line (str "    }")) h)))))

marked_with :
    (gp : GatewayPlan) (ms : List (ℕ × GatewayPlan))
    → All (λ (mg : ℕ × GatewayPlan). mark_value mg.1.gateway ≡ ok mg.0) ms
    → In gp (map (λ (mg : ℕ × GatewayPlan). mg.1) ms)
    → (mark : ℕ) × (mark_value gp.gateway ≡ ok mark) × In (mark, gp) ms
marked_with gp [] h i = elim i [ ]
marked_with gp (mg ∷ ms) (e, h) (inl same) = (
  mg.0,
  subst (λ (x : GatewayPlan). mark_value x.gateway ≡ ok mg.0) same e,
  inl (ap (λ x. (mg.0, x)) same),
)
marked_with gp (mg ∷ ms) (e, h) (inr i) =
    let (mark, q, j) = marked_with gp ms h i in (mark, q, inr j)

-- For each gateway of the plan, with its mark, the script has the set of its IPv4 members, each as
-- it is printed, and the rule that gives the mark to what these send, but to the own subnets.
pub build_script-IsServed :
    (libs : Libs) (plan : Plan) (script : Text) (gp : GatewayPlan)
    → build_script libs plan ≡ ok script
    → In gp plan.gateways
    → (mark : ℕ) × (mark_value gp.gateway ≡ ok mark) × IsServed libs mark gp script script
build_script-IsServed libs plan script gp h i =
    let (ms, k, e) = build_script-all_rules libs plan script h in
    let (mark, q, j) = marked_with gp ms k.marks (subst (In gp) (sym k.gateways) i) in
    let r = all_rules libs ms in
    let own = all_rules-IsServed libs ms mark gp j in
    (
      mark,
      q,
      subst (λ s. IsServed libs mark gp s s) (sym e)
          (record {
            members = part-mark_chain r (
                part_before _ r.mark_rules
                  (part_before _ mark_open (part_after table_open r.sets own.members)));
            rule =
                part-mark_chain r
                  (part_after (table_open ++ r.sets ++ mark_open) r.mark_rules own.rule);
          }),
    )
