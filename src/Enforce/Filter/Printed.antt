-- ===== src/Enforce/Filter/Printed.antt =====
-- How the rules of a filter are written, and that the code writes them so.
use degc.Prelude.{
  ℕ, ◌≡◌, refl, Bool, true, false, Option, none, some, List, [], ◌∷◌, ◌++◌, append_assoc,
  append-nil, ap, ◌∙◌, sym, flat_map, if◌then◌else◌,
}
use degc.Text.{Text, str}
use degc.Api.{Libs, Gateway}
use degc.Plan.{Egress, interface, next_hop, unavailable}
use degc.Plan.Resolve.{why}
use degc.Enforce.Route.{mark_text}
use degc.Enforce.Nft.{Rules, line, emit_set, excl_clause, snat_rule, kill_rule, kill6}
use degc.Enforce.Nft.Marking.{emit_set-append}
use degc.Enforce.Filter.{
  SetDef, MarkRule, SnatRule, snat_by, snat_any, KillRule, drop_six, drop_off, drop_all, Filter,
  via6_name, local6_name, except_set, except_name, snats_for, kills_for, six_sets, six_kills,
  locals6,
}

abbrev pub emitted : SetDef → Text
emitted s = emit_set [] s.name s.typ s.interval s.elements

-- A line of a rule, with its line feed.
abbrev pub rule_line : Text → Text
rule_line s = s ++ str "\n"

abbrev pub except_text : Text → Option Text → Text
except_text kw none = []
except_text kw (some name) = str " " ++ kw ++ str " != @" ++ name

abbrev pub mark_rule_text : MarkRule → Text
mark_rule_text r = rule_line (
    str "        ip saddr @"
    ++ r.matches.sources
    ++ except_text (str "ip daddr") r.matches.except
    ++ str " meta mark set "
    ++ mark_text r.mark)

abbrev pub snat_rule_text : SnatRule → Text
snat_rule_text (snat_by mark iface) = rule_line (
    str "        meta mark " ++ mark_text mark ++ str " oifname \"" ++ iface ++ str "\" masquerade")
snat_rule_text (snat_any mark) =
    rule_line (str "        meta mark " ++ mark_text mark ++ str " masquerade")

module _ (libs : Libs) where
  abbrev pub kill_rule_text : KillRule → Text
  kill_rule_text (drop_six m) = rule_line (
      str "        ip6 saddr @"
      ++ m.sources
      ++ except_text (str "ip6 daddr") m.except
      ++ str " drop")
  kill_rule_text (drop_off mark iface) =
      rule_line (
        str "        meta mark "
        ++ mark_text mark
        ++ str " oifname != \""
        ++ iface
        ++ str "\" drop")
  kill_rule_text (drop_all mark reason) = rule_line (
      str "        meta mark "
      ++ mark_text mark
      ++ str " drop   # egress unavailable: "
      ++ why libs.printable reason)

  abbrev pub filter_rules : Filter → Rules
  filter_rules f = record {
    sets = flat_map emitted f.sets;
    mark_rules = flat_map mark_rule_text f.marks;
    snat_rules = flat_map snat_rule_text f.snats;
    kill_rules = flat_map kill_rule_text f.kills;
  }

pub flat_map-append :
    {A B : Type 0} (f : A → List B) (xs ys : List A)
    → flat_map f (xs ++ ys) ≡ flat_map f xs ++ flat_map f ys
unfolding flat_map
flat_map-append f [] ys = refl
flat_map-append f (x ∷ xs) ys =
    ap (λ l. f x ++ l) (flat_map-append f xs ys)
    ∙ sym (append_assoc (f x) (flat_map f xs) (flat_map f ys))

pub Rules-path :
    (r o : Rules)
    → r.sets ≡ o.sets
    → r.mark_rules ≡ o.mark_rules
    → r.snat_rules ≡ o.snat_rules
    → r.kill_rules ≡ o.kill_rules
    → r ≡ o
Rules-path r o a b c d i = record {
  sets = a i;
  mark_rules = b i;
  snat_rules = c i;
  kill_rules = d i;
}

pub excl_clause-except_set :
    (out name typ kw : Text) (cidrs : List Text)
    → (excl_clause out name typ kw cidrs).0 ≡ out ++ flat_map emitted (except_set name typ cidrs)
unfolding excl_clause flat_map
excl_clause-except_set out name typ kw [] = sym (append-nil out)
excl_clause-except_set out name typ kw (c ∷ cidrs) =
    emit_set-append out name typ true (c ∷ cidrs)
    ∙ ap (λ l. out ++ l) (sym (append-nil (emit_set [] name typ true (c ∷ cidrs))))

pub excl_clause-except_text :
    (out name typ kw : Text) (cidrs : List Text)
    → (excl_clause out name typ kw cidrs).1 ≡ except_text kw (except_name name cidrs)
unfolding excl_clause
excl_clause-except_text out name typ kw [] = refl
excl_clause-except_text out name typ kw (c ∷ cidrs) = refl

module _ (libs : Libs) where
  pub kill6-six_sets :
      (gw : Gateway) (members : List Text) (r : Rules)
      → (kill6 libs gw members r).sets
        ≡ r.sets ++ flat_map emitted (six_sets gw members (locals6 libs gw))
  unfolding kill6 flat_map
  kill6-six_sets gw [] r = sym (append-nil r.sets)
  kill6-six_sets gw (m ∷ members) r =
      let own = emit_set [] (via6_name gw) (str "ipv6_addr") false (m ∷ members) in
      let excepted =
        flat_map emitted (except_set (local6_name gw) (str "ipv6_addr") (locals6 libs gw)) in
      excl_clause-except_set _ (local6_name gw) (str "ipv6_addr") (str "ip6 daddr")
        (locals6 libs gw)
      ∙ ap (λ l. l ++ excepted)
          (emit_set-append r.sets (via6_name gw) (str "ipv6_addr") false (m ∷ members))
      ∙ append_assoc r.sets own excepted

  pub kill6-six_kills :
      (gw : Gateway) (members : List Text) (r : Rules)
      → (kill6 libs gw members r).kill_rules
        ≡ r.kill_rules ++ flat_map (kill_rule_text libs) (six_kills gw members (locals6 libs gw))
  unfolding kill6 flat_map
  kill6-six_kills gw [] r = sym (append-nil r.kill_rules)
  kill6-six_kills gw (m ∷ members) r =
      ap
        (λ excl.
          r.kill_rules ++ line (str "        ip6 saddr @" ++ via6_name gw ++ excl ++ str " drop"))
        (excl_clause-except_text _ (local6_name gw) (str "ipv6_addr") (str "ip6 daddr")
          (locals6 libs gw))
      ∙ ap (λ l. r.kill_rules ++ l) (sym (append-nil _))

  pub kill6-others :
      (gw : Gateway) (members : List Text) (r : Rules)
      → ((kill6 libs gw members r).mark_rules ≡ r.mark_rules)
        × ((kill6 libs gw members r).snat_rules ≡ r.snat_rules)
  unfolding kill6
  kill6-others gw [] r = (refl, refl)
  kill6-others gw (m ∷ members) r = (refl, refl)

  pub snat_rule-snats_for :
      (on : Bool) (mark : ℕ) (e : Egress)
      → (if on then snat_rule (mark_text mark) e else [])
        ≡ flat_map snat_rule_text (if on then snats_for mark e else [])
  unfolding snat_rule flat_map
  snat_rule-snats_for false mark e = refl
  snat_rule-snats_for true mark (interface i) = sym (append-nil _)
  snat_rule-snats_for true mark (next_hop ip) = sym (append-nil _)
  snat_rule-snats_for true mark (unavailable reason) = refl

  pub kill_rule-kills_for :
      (mark : ℕ) (e : Egress)
      → kill_rule libs (mark_text mark) e ≡ flat_map (kill_rule_text libs) (kills_for mark e)
  unfolding kill_rule flat_map
  kill_rule-kills_for mark (interface i) = sym (append-nil _)
  kill_rule-kills_for mark (next_hop ip) = refl
  kill_rule-kills_for mark (unavailable reason) = sym (append-nil _)
