-- ===== src/Enforce/Route/Order.antt =====
-- The commands of `build`, one block for each gateway, and the order that keeps marked traffic from
-- the main table.
use degc.Prelude.{
  ℕ, ◌≡◌, ◌≢◌, List, [], ◌∷◌, ◌++◌, append_assoc, append-nil, ok, >>=-eq-ok, In, inl, inr, ap, ◌∙◌,
  sym, subst, arith,
}
use degc.Text.{Text}
use degc.Text.Numbers.{show}
use degc.Api.Values.{mark_value, table_id}
use degc.Plan.{Plan, GatewayPlan, Egress, interface, next_hop, unavailable}
use degc.Enforce.Route.{IpCmd, mark_text, blackhole_cmd, rule_cmd, egress_cmd, build_from, build}

abbrev pub table_of : GatewayPlan → Text
table_of gp = show (table_id gp.gateway)

-- The commands of one gateway, for its mark.
abbrev pub block : ℕ → GatewayPlan → List IpCmd
block mark gp =
    blackhole_cmd (table_of gp)
    ∷ rule_cmd (mark_text mark) (table_of gp)
    ∷ egress_cmd (table_of gp) gp.egress
    ∷ []

-- The commands are the blocks of the gateways, in their order.
pub data IsBlocks : List GatewayPlan → List IpCmd → Type 0 where
  none_left : IsBlocks [] []
  block_for :
      {gp : GatewayPlan} {rest : List GatewayPlan} {cmds : List IpCmd} (mark : ℕ)
      → mark_value gp.gateway ≡ ok mark
      → IsBlocks rest cmds
      → IsBlocks (gp ∷ rest) (block mark gp ++ cmds)

build_from_lem :
    (gps : List GatewayPlan) (done : List IpCmd) {cmds : List IpCmd}
    → build_from gps done ≡ ok cmds
    → (more : List IpCmd) × (cmds ≡ done ++ more) × IsBlocks gps more
unfolding build_from
build_from_lem [] done {cmds} h =
    ([], (let e : cmds ≡ done = cc in e ∙ sym (append-nil done)), none_left)
build_from_lem (gp ∷ rest) done h =
    let (mark, e, after) =
      >>=-eq-ok (mark_value gp.gateway) (λ m. build_from rest (done ++ block m gp)) h in
    let (more, eq, blocks) = build_from_lem rest (done ++ block mark gp) after in
    (block mark gp ++ more, eq ∙ append_assoc done (block mark gp) more, block_for mark e blocks)

pub build-IsBlocks :
    (plan : Plan) {cmds : List IpCmd} → build plan ≡ ok cmds → IsBlocks plan.gateways cmds
unfolding build
build-IsBlocks plan {cmds} h =
    let (more, eq, blocks) = build_from_lem plan.gateways [] h in
    subst (IsBlocks plan.gateways) (sym eq) blocks

rule-ne-blackhole : (mark t u : Text) → rule_cmd mark t ≢ blackhole_cmd u
unfolding rule_cmd blackhole_cmd
rule-ne-blackhole mark t u e = ground (arith, ap (λ (c : IpCmd). c.args) e)

pub rule-ne-egress : (mark t u : Text) (e : Egress) → rule_cmd mark t ≢ egress_cmd u e
unfolding rule_cmd egress_cmd
rule-ne-egress mark t u (interface i) e = ground (arith, ap (λ (c : IpCmd). c.args) e)
rule-ne-egress mark t u (next_hop i) e = ground (arith, ap (λ (c : IpCmd). c.args) e)
rule-ne-egress mark t u (unavailable i) e = ground (arith, ap (λ (c : IpCmd). c.args) e)

rule_table : (m n t u : Text) → rule_cmd m t ≡ rule_cmd n u → t ≡ u
unfolding rule_cmd
rule_table m n t u e = cc (ap (λ (c : IpCmd). c.args) e)

cons_eq : {x y : IpCmd} {xs ys : List IpCmd} → x ∷ xs ≡ y ∷ ys → (x ≡ y) × (xs ≡ ys)
cons_eq h = (cc, cc)

floor_first :
    {gps : List GatewayPlan} {cmds : List IpCmd} (mark table : Text) (before after : List IpCmd)
    → IsBlocks gps cmds
    → cmds ≡ before ++ rule_cmd mark table ∷ after
    → In (blackhole_cmd table) before
floor_first mark table [] after none_left e = cc
floor_first mark table (x ∷ before) after none_left e = absurd (cc)
floor_first mark table [] after (block_for m p b) e =
    absurd (rule-ne-blackhole _ _ _ (sym (cons_eq e).0))
floor_first mark table (x ∷ []) after (block_for {gp} m p b) e =
    let (first, rest) = cons_eq e in
    let same_table = rule_table _ _ _ _ (cons_eq rest).0 in
    inl (sym first ∙ ap blackhole_cmd same_table)
floor_first mark table (x ∷ y ∷ []) after (block_for {gp} m p b) e =
    absurd (rule-ne-egress _ _ _ gp.egress (sym (cons_eq (cons_eq (cons_eq e).1).1).0))
floor_first mark table (x ∷ y ∷ z ∷ before) after (block_for {rest = rest} {cmds = cmds} m p b) e =
    inr (
      inr (
        inr (
          floor_first {gps = rest} {cmds = cmds} mark table before after b
            (cons_eq (cons_eq (cons_eq e).1).1).1)))

-- Wherever a rule that sends marked traffic to a table stands among the commands of a plan, the
-- blackhole default of that table stands before it.
pub build_floor_first :
    (plan : Plan) (cmds before after : List IpCmd) (mark table : Text)
    → build plan ≡ ok cmds
    → cmds ≡ before ++ rule_cmd mark table ∷ after
    → In (blackhole_cmd table) before
build_floor_first plan cmds before after mark table h e =
    floor_first mark table before after (build-IsBlocks plan h) e
