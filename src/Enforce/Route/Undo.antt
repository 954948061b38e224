-- ===== src/Enforce/Route/Undo.antt =====
-- `teardown` against `build`: what the one installs the other removes.
use degc.Prelude.{
  ℕ, ◌≡◌, refl, true, List, [], ◌∷◌, ◌++◌, append_assoc, append-nil, ok, >>=-eq-ok, All, Any,
  Any-map, In, inl, inr, ap, ◌∙◌, sym, subst, map, All-map,
}
use degc.Text.{Text}
use degc.Text.Numbers.{show}
use degc.Api.{Gateway, GatewayList}
use degc.Api.Values.{mark_value, table_id}
use degc.Plan.{Plan, GatewayPlan}
use degc.Enforce.Route.{
  IpCmd, mark_text, blackhole_cmd, rule_cmd, egress_cmd, rule_del_cmd, flush_cmd, build, teardown,
  teardown_from,
}
use degc.Enforce.Kernel.{Command, set_floor, add_rule, del_rule, set_egress, flush, words}
use degc.Enforce.Kernel.Commands.{cmd_of, cmd_of-words}
use degc.Enforce.Route.Order.{table_of, block, IsBlocks, none_left, block_for, build-IsBlocks}

abbrev pub undo_block : ℕ → Gateway → List IpCmd
undo_block mark gw =
    rule_del_cmd (mark_text mark) (show (table_id gw)) ∷ flush_cmd (show (table_id gw)) ∷ []

pub data IsUndo : GatewayList → List IpCmd → Type 0 where
  nothing_left : IsUndo [] []
  undo_for :
      {gw : Gateway} {rest : GatewayList} {cmds : List IpCmd} (mark : ℕ)
      → mark_value gw ≡ ok mark
      → IsUndo rest cmds
      → IsUndo (gw ∷ rest) (undo_block mark gw ++ cmds)

pub teardown_from_lem :
    (gws : GatewayList) (done : List IpCmd) {cmds : List IpCmd}
    → teardown_from gws done ≡ ok cmds
    → (more : List IpCmd) × (cmds ≡ done ++ more) × IsUndo gws more
unfolding teardown_from
teardown_from_lem [] done {cmds} h =
    ([], (let e : cmds ≡ done = cc in e ∙ sym (append-nil done)), nothing_left)
teardown_from_lem (gw ∷ rest) done h =
    let (mark, e, after) =
      >>=-eq-ok (mark_value gw) (λ m. teardown_from rest (done ++ undo_block m gw)) h in
    let (more, eq, undo) = teardown_from_lem rest (done ++ undo_block mark gw) after in
    (
      undo_block mark gw ++ more,
      eq ∙ append_assoc done (undo_block mark gw) more,
      undo_for mark e undo,
    )

In-append_right : {A : Type 0} (x : A) (xs ys : List A) → In x ys → In x (xs ++ ys)
In-append_right x [] ys h = h
In-append_right x (y ∷ xs) ys h = inr (In-append_right x xs ys h)

-- Among the commands.
abbrev IsAmong : List IpCmd → List IpCmd → GatewayPlan → Type 0
IsAmong cmds undo gp =
    (mark : ℕ) × (mark_value gp.gateway ≡ ok mark)
    × In (rule_cmd (mark_text mark) (table_of gp)) cmds
    × In (rule_del_cmd (mark_text mark) (table_of gp)) undo
    × In (blackhole_cmd (table_of gp)) cmds
    × In (egress_cmd (table_of gp) gp.egress) cmds
    × In (flush_cmd (table_of gp)) undo

-- The commands of the gateways behind the first.
later-IsAmong :
    (m n : ℕ) (gp : GatewayPlan) (cmds undo : List IpCmd) (p : GatewayPlan)
    → IsAmong cmds undo p
    → IsAmong (block m gp ++ cmds) (undo_block n gp.gateway ++ undo) p
later-IsAmong m n gp cmds undo p (k, v, r, d, h, l, f) = (
  k,
  v,
  In-append_right _ (block m gp) cmds r,
  In-append_right _ (undo_block n gp.gateway) undo d,
  In-append_right _ (block m gp) cmds h,
  In-append_right _ (block m gp) cmds l,
  In-append_right _ (undo_block n gp.gateway) undo f,
)

IsUndo-inv :
    (gw : Gateway) (rest : GatewayList) {undo : List IpCmd}
    → IsUndo (gw ∷ rest) undo
    → (mark : ℕ) × (more : List IpCmd) × (mark_value gw ≡ ok mark)
      × (undo ≡ undo_block mark gw ++ more)
      × IsUndo rest more
IsUndo-inv gw rest (undo_for {cmds = cmds} m e u) = (m, cmds, e, refl, u)

blocks-IsAmong :
    {gps : List GatewayPlan} {cmds : List IpCmd}
    → IsBlocks gps cmds
    → {undo : List IpCmd} → IsUndo (map (λ (p : GatewayPlan). p.gateway) gps) undo
    → All (IsAmong cmds undo) gps
blocks-IsAmong none_left u = tt
blocks-IsAmong (block_for {gp = gp} {rest = rest} {cmds = cmds} m e b) {undo} u =
    let (n, more, f, eq, later) =
      IsUndo-inv gp.gateway (map (λ (p : GatewayPlan). p.gateway) rest) u in
    let same : n ≡ m = cc (sym f ∙ e) in
    let del = λ (k : ℕ). rule_del_cmd (mark_text k) (table_of gp) in
    subst (λ l. All (IsAmong (block m gp ++ cmds) l) (gp ∷ rest)) (sym eq)
      (
        (m, e, inr (inl refl), inl (ap del same), inl refl, inr (inr (inl refl)), inr (inl refl)),
        All-map (λ p x. later-IsAmong m n gp cmds more p x) rest
            (blocks-IsAmong {gps = rest} {cmds = cmds} b {undo = more} later),
      )

undo_tolerant :
    {gws : GatewayList} {undo : List IpCmd}
    → IsUndo gws undo
    → All (λ (c : IpCmd). c.ignore_fail ≡ true) undo
unfolding rule_del_cmd flush_cmd
undo_tolerant nothing_left = tt
undo_tolerant (undo_for {rest = rest} {cmds = cmds} m e u) =
    (refl, (refl, undo_tolerant {gws = rest} {undo = cmds} u))

-- A command with these words.
abbrev pub Says : List Text → List IpCmd → Type 0
Says args cmds = Any (λ (c : IpCmd). c.args ≡ args) cmds

Says-words : (c : Command) (cmds : List IpCmd) → In (cmd_of c) cmds → Says (words c) cmds
Says-words c cmds i = Any-map (λ x e. ap (λ (y : IpCmd). y.args) e ∙ cmd_of-words c) cmds i

-- The commands have `ip rule add` for the gateway's mark and table, the blackhole and the egress in
-- the table; the others have `ip rule del` for the mark and the table, and `ip route flush` of the
-- table, each in the words of `ip`.
abbrev pub IsUndone : List IpCmd → List IpCmd → GatewayPlan → Type 0
IsUndone cmds undo gp =
    (mark : ℕ) × (mark_value gp.gateway ≡ ok mark)
    × Says (words (add_rule (mark_text mark) (table_of gp))) cmds
    × Says (words (del_rule (mark_text mark) (table_of gp))) undo
    × Says (words (set_floor (table_of gp))) cmds
    × Says (words (set_egress (table_of gp) gp.egress)) cmds
    × Says (words (flush (table_of gp))) undo

among-IsUndone :
    (cmds undo : List IpCmd) (gp : GatewayPlan) → IsAmong cmds undo gp → IsUndone cmds undo gp
among-IsUndone cmds undo gp (m, v, r, d, h, l, f) = (
  m,
  v,
  Says-words (add_rule (mark_text m) (table_of gp)) cmds r,
  Says-words (del_rule (mark_text m) (table_of gp)) undo d,
  Says-words (set_floor (table_of gp)) cmds h,
  Says-words (set_egress (table_of gp) gp.egress) cmds l,
  Says-words (flush (table_of gp)) undo f,
)

-- Where `teardown` is given the gateways of a plan: for the mark and the table of each, for which
-- `build` adds a rule, a blackhole and the egress, it has `rule del fwmark <mark> table <table>`
-- and `route flush table <table> proto 194`, and no failure of its commands counts.
pub teardown-build :
    (plan : Plan) (cmds undo : List IpCmd)
    → build plan ≡ ok cmds
    → teardown (map (λ (p : GatewayPlan). p.gateway) plan.gateways) ≡ ok undo
    → All (IsUndone cmds undo) plan.gateways × All (λ (c : IpCmd). c.ignore_fail ≡ true) undo
unfolding teardown
teardown-build plan cmds undo h k =
    let gws = map (λ (p : GatewayPlan). p.gateway) plan.gateways in
    let (more, eq, u) = teardown_from_lem gws [] k in
    let u' = subst (IsUndo gws) (sym eq) u in
    (
      All-map (among-IsUndone cmds undo) plan.gateways (blocks-IsAmong (build-IsBlocks plan h) u'),
      undo_tolerant u',
    )
