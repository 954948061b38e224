-- ===== src/Enforce/Nft/KillSwitch.antt =====
-- The kill-switch in the script of `build_script`: what stops a member's traffic that does not leave
-- by its gateway.
use degc.Prelude.{
  ℕ, ◌≡◌, ◌≢◌, refl, not, false, List, [], ◌∷◌, ◌++◌, append_assoc, append-nil, ok, >>=-eq-ok, In,
  inl, inr, ap, ◌∙◌, sym, subst, filter, map,
}
use degc.Text.{Text, str}
use degc.Net.{is_ipv6}
use degc.Net.Print.{print}
use degc.Api.{Libs, Gateway}
use degc.Api.Values.{mark_value}
use degc.Plan.{Plan, GatewayPlan}
use degc.Enforce.Route.{mark_text}
use degc.Enforce.Nft.{
  Rules, no_rules, line, sanitize, kill_rule, kill6, gateway_rules, marked_rules, rules_from,
  table_head, table_text, build_script, emit_set, excl_clause, locals,
}

-- The text stands in the other.
pub record HasPart (t s : Text) : Type 0 where
  pub before : Text
  pub after : Text
  pub parts : s ≡ before ++ (t ++ after)

pub part_whole : (t : Text) → HasPart t t
part_whole t = record { before = []; after = []; parts = sym (append-nil t) }

pub part_before : {t : Text} (s x : Text) → HasPart t s → HasPart t (s ++ x)
part_before {t} s x h = record {
  before = h.before;
  after = h.after ++ x;
  parts =
      ap (λ l. l ++ x) h.parts
      ∙ append_assoc h.before (t ++ h.after) x
      ∙ ap (λ l. h.before ++ l) (append_assoc t h.after x);
}

pub part_after : {t : Text} (x s : Text) → HasPart t s → HasPart t (x ++ s)
part_after {t} x s h = record {
  before = x ++ h.before;
  after = h.after;
  parts = ap (λ l. x ++ l) h.parts ∙ sym (append_assoc x h.before (t ++ h.after));
}

-- What excepts the own IPv6 subnets of a gateway, where it has some.
abbrev pub except6 : Gateway → List Text → Text
except6 gw [] = []
except6 gw (c ∷ cidrs) =
    str " " ++ str "ip6 daddr" ++ str " != @" ++ (str "degc_local6_" ++ sanitize gw.name)

-- The line that drops what a member sends by IPv6, but to the gateway's own subnets.
abbrev pub drop6 : Libs → Gateway → Text
drop6 libs gw = line (
    str "        ip6 saddr @"
    ++ (str "degc_via6_" ++ sanitize gw.name)
    ++ except6 gw (locals libs (λ n. not n.is_ipv4) gw)
    ++ str " drop")

excl_clause-except6 :
    (gw : Gateway) (out : Text) (cidrs : List Text)
    → (excl_clause out
        (str "degc_local6_" ++ sanitize gw.name)
        (str "ipv6_addr")
        (str "ip6 daddr")
        cidrs).1
      ≡ except6 gw cidrs
unfolding excl_clause
excl_clause-except6 gw out [] = refl
excl_clause-except6 gw out (c ∷ cidrs) = refl

abbrev pub members6 : GatewayPlan → List Text
members6 gp = map print (filter is_ipv6 gp.members)

-- For a gateway with its mark: the rule that stops marked traffic which does not leave by the
-- egress, and where it has members with an IPv6 address, the rule that drops what these send.
pub record IsGuarded (libs : Libs) (mark : ℕ) (gp : GatewayPlan) (rules : Text) : Type 0 where
  pub egress : HasPart (kill_rule libs (mark_text mark) gp.egress) rules
  pub six : members6 gp ≢ [] → HasPart (drop6 libs gp.gateway) rules

IsGuarded-by :
    {rules more : Text} {libs : Libs} {mark : ℕ} {gp : GatewayPlan}
    → ((t : Text) → HasPart t rules → HasPart t more)
    → IsGuarded libs mark gp rules
    → IsGuarded libs mark gp more
IsGuarded-by f g = record { egress = f _ g.egress; six = λ n. f _ (g.six n) }

module _ (libs : Libs) where
  -- The rules so far stay.
  kill6_grows :
      {t : Text} (gw : Gateway) (m : List Text) (r : Rules)
      → HasPart t r.kill_rules
      → HasPart t (kill6 libs gw m r).kill_rules
  unfolding kill6
  kill6_grows gw [] r h = h
  kill6_grows gw (x ∷ m) r h = part_before r.kill_rules _ h

  kill6_drops :
      (gw : Gateway) (m : List Text) (r : Rules)
      → m ≢ []
      → HasPart (drop6 libs gw) (kill6 libs gw m r).kill_rules
  unfolding kill6
  kill6_drops gw [] r n = elim (n refl) [ ]
  kill6_drops gw (x ∷ m) r n =
      let cidrs = locals libs (λ k. not k.is_ipv4) gw in
      let shown =
        excl_clause-except6 gw
          (emit_set r.sets (str "degc_via6_" ++ sanitize gw.name) (str "ipv6_addr") false (x ∷ m))
          cidrs in
      subst
        (λ excl. HasPart (drop6 libs gw) (
          r.kill_rules
          ++ line (
              str "        ip6 saddr @"
              ++ (str "degc_via6_" ++ sanitize gw.name)
              ++ excl
              ++ str " drop")))
        (sym shown) (part_after r.kill_rules _ (part_whole (drop6 libs gw)))

  gateway_rules_grows :
      {t : Text} (mark : Text) (gp : GatewayPlan) (r : Rules)
      → HasPart t r.kill_rules
      → HasPart t (gateway_rules libs mark gp r).kill_rules
  unfolding gateway_rules marked_rules
  gateway_rules_grows mark gp r h = part_before _ _ (kill6_grows gp.gateway (members6 gp) _ h)

  gateway_rules-IsGuarded :
      (mark : ℕ) (gp : GatewayPlan) (r : Rules)
      → IsGuarded libs mark gp (gateway_rules libs (mark_text mark) gp r).kill_rules
  unfolding gateway_rules marked_rules
  gateway_rules-IsGuarded mark gp r = record {
    egress = part_after _ _ (part_whole _);
    six = λ n. part_before _ _ (kill6_drops gp.gateway (members6 gp) _ n);
  }

  rules_from_grows :
      {t : Text} (gps : List GatewayPlan) (r : Rules) {r' : Rules}
      → rules_from libs gps r ≡ ok r'
      → HasPart t r.kill_rules
      → HasPart t r'.kill_rules
  unfolding rules_from
  rules_from_grows {t} [] r {r'} h p =
      subst (λ x. HasPart t (Rules.kill_rules x)) (let e : r ≡ r' = cc in e) p
  rules_from_grows (gp ∷ rest) r h p =
      let (mark, e, later) =
        >>=-eq-ok (mark_value gp.gateway)
          (λ m. rules_from libs rest (gateway_rules libs (mark_text m) gp r)) h in
      rules_from_grows rest _ later (gateway_rules_grows (mark_text mark) gp r p)

  rules_from-IsGuarded :
      (gps : List GatewayPlan) (r : Rules) {r' : Rules} (gp : GatewayPlan)
      → rules_from libs gps r ≡ ok r'
      → In gp gps
      → (mark : ℕ) × (mark_value gp.gateway ≡ ok mark) × IsGuarded libs mark gp r'.kill_rules
  unfolding rules_from
  rules_from-IsGuarded [] r gp h i = elim i [ ]
  rules_from-IsGuarded (g ∷ rest) r {r'} gp h i =
      let (mark, e, later) =
        >>=-eq-ok (mark_value g.gateway)
          (λ m. rules_from libs rest (gateway_rules libs (mark_text m) g r)) h in
      elim i [
        | inl same ↦
            subst
              (λ (q : GatewayPlan).
                (mark : ℕ) × (mark_value q.gateway ≡ ok mark) × IsGuarded libs mark q r'.kill_rules)
              same
              (
                mark,
                e,
                IsGuarded-by (λ t. rules_from_grows rest _ later)
                    (gateway_rules-IsGuarded mark g r),
              )
        | inr j ↦ rules_from-IsGuarded rest _ gp later j
      ]

part_of_table : {t : Text} (r : Rules) → HasPart t r.kill_rules → HasPart t (table_text r)
unfolding table_text
part_of_table r h =
    part_before _ (line (str "}"))
      (part_before _ (line (str "    }")) (part_after (table_head r) r.kill_rules h))

-- For each gateway of the plan, with its mark, the script has the rule that stops marked traffic
-- which does not leave by the egress, and where a member has an IPv6 address, a rule that drops
-- what these members send by IPv6.
pub build_script-IsGuarded :
    (libs : Libs) (plan : Plan) (script : Text) (gp : GatewayPlan)
    → build_script libs plan ≡ ok script
    → In gp plan.gateways
    → (mark : ℕ) × (mark_value gp.gateway ≡ ok mark) × IsGuarded libs mark gp script
unfolding build_script
build_script-IsGuarded libs plan script gp h i =
    let (r, e, table) =
      >>=-eq-ok (rules_from libs plan.gateways no_rules) (λ r. ok (table_text r)) h in
    let (mark, m, g) = rules_from-IsGuarded libs plan.gateways no_rules gp e i in
    let same : table_text r ≡ script = cc in
    (mark, m, subst (IsGuarded libs mark gp) same (IsGuarded-by (λ t. part_of_table r) g))
