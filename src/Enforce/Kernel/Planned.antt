-- ===== src/Enforce/Kernel/Planned.antt =====
-- The commands of a plan and of a teardown as effects, and what these leave in a host.
use degc.Prelude.{
  ℕ, ◌≡◌, ◌≢◌, refl, Bool, true, false, ◌&&◌, ◌||◌, List, [], ◌∷◌, ◌++◌, ok, All, inl, inr, ap, ◌∙◌,
  subst, map, arith, Bool-cases,
}
use degc.Text.{Text, same}
use degc.Text.Laws.{eq_of_same}
use degc.Api.Values.{mark_value}
use degc.Plan.{GatewayPlan, Egress}
use degc.Enforce.Route.{IpCmd, mark_text}
use degc.Enforce.Route.Order.{IsBlocks, none_left, block_for, block, table_of}
use degc.Enforce.Kernel.Commands.{cmd_of}
use degc.Enforce.Kernel.{Host, Command, set_floor, add_rule, set_egress, effect, effects}

abbrev pub block_effects : ℕ → GatewayPlan → List Command
block_effects mark gp =
    set_floor (table_of gp)
    ∷ add_rule (mark_text mark) (table_of gp)
    ∷ set_egress (table_of gp) gp.egress
    ∷ []

-- The effects are the blocks of the gateways, in their order.
pub data IsPlanned : List GatewayPlan → List Command → Type 0 where
  no_gateway : IsPlanned [] []
  planned_for :
      {gp : GatewayPlan} {rest : List GatewayPlan} {cs : List Command} (mark : ℕ)
      → mark_value gp.gateway ≡ ok mark
      → IsPlanned rest cs
      → IsPlanned (gp ∷ rest) (block_effects mark gp ++ cs)

-- The commands of a plan are those of its effects.
pub IsBlocks-IsPlanned :
    {gps : List GatewayPlan} {cmds : List IpCmd}
    → IsBlocks gps cmds
    → (cs : List Command) × (cmds ≡ map cmd_of cs) × IsPlanned gps cs
IsBlocks-IsPlanned none_left = ([], refl, no_gateway)
IsBlocks-IsPlanned (block_for {gp = gp} {rest = rest} {cmds = cmds} mark e b) =
    let (cs, eq, p) = IsBlocks-IsPlanned {gps = rest} {cmds = cmds} b in
    (block_effects mark gp ++ cs, ap (λ l. block mark gp ++ l) eq, planned_for mark e p)

-- A rule to the table stands over its blackhole.
abbrev pub IsFloored : Text → Host → Type 0
IsFloored t h = (m : Text) → h.rule m t ≡ true → h.floor t ≡ true

or_true : (a b : Bool) → b ≡ true → (a || b) ≡ true
or_true a b h = ground arith

block-IsFloored :
    (mark t u : Text) (e : Egress) (h : Host)
    → IsFloored u h
    → IsFloored u (effect (set_floor t) h)
      × IsFloored u (effect (add_rule mark t) (effect (set_floor t) h))
      × IsFloored u (effect (set_egress t e) (effect (add_rule mark t) (effect (set_floor t) h)))
block-IsFloored mark t u e h f = (λ m r. or_true (same t u) (h.floor u) (f m r), second, second)
  where
    second :
        (m : Text)
        → ((same mark m && same t u) || h.rule m u) ≡ true
        → (same t u || h.floor u) ≡ true
    second m r = ground (arith, f m)

cons_eq : {x y : Command} {xs ys : List Command} → x ∷ xs ≡ y ∷ ys → (x ≡ y) × (xs ≡ ys)
cons_eq h = (cc, cc)

-- Every first part of the effects of a plan keeps a table floored.
pub prefix-IsFloored :
    {gps : List GatewayPlan} {cs : List Command}
    → IsPlanned gps cs
    → (u : Text) (ran left : List Command) (h : Host) → cs ≡ ran ++ left
    → IsFloored u h
    → IsFloored u (effects ran h)
prefix-IsFloored b u [] left h e f = f
prefix-IsFloored no_gateway u (x ∷ ran) left h e f = absurd (cc)
prefix-IsFloored (planned_for {gp} m q b) u (x ∷ []) left h e f =
    subst (λ c. IsFloored u (effect c h)) (cons_eq e).0
      (block-IsFloored (mark_text m) (table_of gp) u gp.egress h f).0
prefix-IsFloored (planned_for {gp} m q b) u (x ∷ y ∷ []) left h e f =
    let (first, rest) = cons_eq e in
    subst (λ c. IsFloored u (effect y (effect c h))) first
      (subst (λ c. IsFloored u (effect c (effect (set_floor (table_of gp)) h))) (cons_eq rest).0
        (block-IsFloored (mark_text m) (table_of gp) u gp.egress h f).1)
prefix-IsFloored (planned_for {gp} {rest} {cs} m q b) u (x ∷ y ∷ z ∷ ran) left h e f =
    let (first, e1) = cons_eq e in
    let (second, e2) = cons_eq e1 in
    let (third, e3) = cons_eq e2 in
    let start = block-IsFloored (mark_text m) (table_of gp) u gp.egress h f in
    let h3 =
      effect (set_egress (table_of gp) gp.egress)
        (effect (add_rule (mark_text m) (table_of gp)) (effect (set_floor (table_of gp)) h)) in
    let same_host : h3 ≡ effect z (effect y (effect x h)) =
      ap
        (λ c.
          effect (set_egress (table_of gp) gp.egress)
            (effect (add_rule (mark_text m) (table_of gp)) (effect c h)))
        first
      ∙ ap (λ c. effect (set_egress (table_of gp) gp.egress) (effect c (effect x h))) second
      ∙ ap (λ c. effect c (effect y (effect x h))) third in
    subst (λ g. IsFloored u (effects ran g)) same_host
      (prefix-IsFloored {gps = rest} {cs = cs} b u ran left h3 e3 start.2)

-- The routes of a table and the rules to it are as they were.
pub record IsUntouched (t : Text) (h h' : Host) : Type 0 where
  pub floor : h'.floor t ≡ h.floor t
  pub live : h'.live t ≡ h.live t
  pub rule : (m : Text) → h'.rule m t ≡ h.rule m t

not_same : (t u : Text) → t ≢ u → same t u ≡ false
not_same t u n = elim (Bool-cases (same t u)) [ inl e ↦ absurd (n (eq_of_same t u e)) | inr e ↦ e ]

block-IsUntouched :
    (mark t u : Text) (e : Egress) (h : Host)
    → same t u ≡ false
    → IsUntouched u h (effect (set_egress t e) (effect (add_rule mark t) (effect (set_floor t) h)))
block-IsUntouched mark t u e h n = record {
  floor = ground (arith, n);
  live = ground (arith, n);
  rule = λ m. ground (arith, n);
}

-- A plan touches the tables of its gateways alone.
pub effects-IsUntouched :
    {gps : List GatewayPlan} {cs : List Command}
    → IsPlanned gps cs
    → (u : Text) (h : Host) → All (λ gp. table_of gp ≢ u) gps
    → IsUntouched u h (effects cs h)
effects-IsUntouched no_gateway u h others = record { floor = refl; live = refl; rule = λ m. refl }
effects-IsUntouched (planned_for {gp} {rest} {cs} m q b) u h (other, others) =
    let one =
      block-IsUntouched (mark_text m) (table_of gp) u gp.egress h
        (not_same (table_of gp) u other) in
    let more =
      effects-IsUntouched {gps = rest} {cs = cs} b u (effects (block_effects m gp) h) others in
    record {
      floor = more.floor ∙ one.floor;
      live = more.live ∙ one.live;
      rule = λ n. more.rule n ∙ one.rule n;
    }
