-- ===== src/Enforce/Route/FailClosed.antt =====
-- A gateway without an egress gets no live default route, and keeps its blackhole.
use native.Mathlib.Nat.{pow-suc}
use degc.Prelude.{
  ℕ, zero, suc, ◌+◌, ◌^◌, ◌<◌, ◌≡◌, List, [], ◌∷◌, ◌++◌, ok, All, Any, In, inl, inr, ◌⊎◌, ap, ◌∙◌,
  sym, arith, map, subst, Any-map,
}
use degc.Text.{Text, str}
use degc.Text.Numbers.{show, from_str_radix}
use degc.Text.Numbers.RoundTrip.{from_str_radix-show_radix}
use degc.Api.Values.{table_id}
use degc.Api.Gateways.Unique.{IsUnique, IsApart}
use degc.Plan.{Plan, GatewayPlan, Egress, Reason, interface, next_hop, unavailable}
use degc.Enforce.Route.{IpCmd, blackhole_cmd, rule_cmd, egress_cmd, build}
use degc.Enforce.Route.Order.{table_of, block, IsBlocks, none_left, block_for, build-IsBlocks}

lt_two_pow : (n : ℕ) → n < 2 ^ n
lt_two_pow zero = omega arith
lt_two_pow (suc n) = omega (arith, pow-suc 2 n, lt_two_pow n)

-- Two numbers with one print are one number.
pub show-injective : (a b : ℕ) → show a ≡ show b → a ≡ b
show-injective a b e =
    let fits = lt_two_pow (a + b) in
    let read_a =
      from_str_radix-show_radix (a + b) 10 a (omega arith) (omega arith) (omega (arith, fits)) in
    let read_b =
      from_str_radix-show_radix (a + b) 10 b (omega arith) (omega arith) (omega (arith, fits)) in
    cc (sym read_a ∙ ap (from_str_radix (a + b) 10) e ∙ read_b)

-- A command that writes a default route with a device or a next hop into the given table,
-- whatever its verb, what follows, and whether its failure counts.
abbrev pub IsLive : Text → IpCmd → Type 0
IsLive table c =
    (verb : Text) × (kind : Text) × (x : Text) × (rest : List Text) × (c.args
      ≡ str "route" ∷ verb ∷ str "default" ∷ kind ∷ x ∷ str "table" ∷ table ∷ rest)

not-IsLive_blackhole : (t u : Text) → ¬ IsLive u (blackhole_cmd t)
unfolding blackhole_cmd
not-IsLive_blackhole t u (verb, kind, x, rest, e) = ground (arith, e)

not-IsLive_rule : (m t u : Text) → ¬ IsLive u (rule_cmd m t)
unfolding rule_cmd
not-IsLive_rule m t u (verb, kind, x, rest, e) = ground (arith, e)

abbrev IsAvailable : Egress → Type 0
IsAvailable (unavailable why) = ⊥
IsAvailable _ = Unit

live_egress : (t u : Text) (e : Egress) → IsLive u (egress_cmd t e) → (t ≡ u) × IsAvailable e
unfolding egress_cmd
live_egress t u (interface i) (verb, kind, x, rest, p) = (cc p, tt)
live_egress t u (next_hop i) (verb, kind, x, rest, p) = (cc p, tt)
live_egress t u (unavailable i) (verb, kind, x, rest, p) = absurd (ground (arith, p))

-- A live route is the third command of its gateway.
live_in_block :
    (mark : ℕ) (gp : GatewayPlan) (table : Text)
    → Any (IsLive table) (block mark gp)
    → (table_of gp ≡ table) × IsAvailable gp.egress
live_in_block mark gp table (inl here) = absurd (not-IsLive_blackhole _ table here)
live_in_block mark gp table (inr (inl here)) = absurd (not-IsLive_rule _ _ table here)
live_in_block mark gp table (inr (inr (inl here))) = live_egress _ table gp.egress here
live_in_block mark gp table (inr (inr (inr none_more))) = elim none_more [ ]

Any-split : {A : Type 0} (P : A → Type 0) (xs ys : List A) → Any P (xs ++ ys) → Any P xs ⊎ Any P ys
Any-split P [] ys h = inr h
Any-split P (x ∷ xs) ys (inl h) = inl (inl h)
Any-split P (x ∷ xs) ys (inr h) = elim (Any-split P xs ys h) [ inl a ↦ inl (inr a) | inr b ↦ inr b ]

live_has_gateway :
    {gps : List GatewayPlan} {cmds : List IpCmd} (table : Text)
    → IsBlocks gps cmds
    → Any (IsLive table) cmds
    → Any (λ gp. (table_of gp ≡ table) × IsAvailable gp.egress) gps
live_has_gateway table none_left h = h
live_has_gateway table (block_for {gp = gp} {rest = rest} {cmds = cmds} m p b) h =
    elim (Any-split (IsLive table) (block m gp) cmds h) [
      | inl here ↦ inl (live_in_block m gp table here)
      | inr there ↦ inr (live_has_gateway {gps = rest} {cmds = cmds} table b there)
    ]

-- Every live default route among the commands of a plan belongs to a gateway of the plan whose
-- egress was resolved, and goes into that gateway's table.
pub build_live_routes :
    (plan : Plan) (cmds : List IpCmd) (table : Text)
    → build plan ≡ ok cmds
    → Any (IsLive table) cmds
    → Any (λ gp. (table_of gp ≡ table) × IsAvailable gp.egress) plan.gateways
build_live_routes plan cmds table h live = live_has_gateway table (build-IsBlocks plan h) live

not_shared :
    (rest : List GatewayPlan) (m table : ℕ)
    → All (IsApart m table) (map (λ (p : GatewayPlan). p.gateway) rest)
    → ¬ Any (λ p. table_of p ≡ show table) rest
not_shared [] m table apart h = h
not_shared (p ∷ rest) m table (a, apart) (inl e) = a.1 (show-injective _ _ e)
not_shared (p ∷ rest) m table (a, apart) (inr h) = not_shared rest m table apart h

-- In a list with identities of its own, another gateway has another table.
other_table :
    (gps : List GatewayPlan) (gp : GatewayPlan)
    → IsUnique (map (λ (p : GatewayPlan). p.gateway) gps)
    → In gp gps
    → Any (λ p. (table_of p ≡ table_of gp) × IsAvailable p.egress) gps
    → IsAvailable gp.egress
other_table [] gp u i h = elim i [ ]
other_table (p ∷ rest) gp ((m, e, apart), u) (inl same) (inl (t, a)) =
    subst (λ (x : GatewayPlan). IsAvailable x.egress) same a
other_table (p ∷ rest) gp ((m, e, apart), u) (inl same) (inr h) = absurd (
    not_shared rest m (table_id p.gateway) apart
      (Any-map (λ q x. x.0 ∙ sym (ap table_of same)) rest h))
other_table (p ∷ rest) gp ((m, e, apart), u) (inr i) (inl (t, a)) =
    absurd
      (not_shared rest m (table_id p.gateway) apart (Any-map (λ q x. ap table_of x ∙ sym t) rest i))
other_table (p ∷ rest) gp ((m, e, apart), u) (inr i) (inr h) = other_table rest gp u i h

-- The gateways of the plan have marks and tables of their own.
abbrev pub IsUniquePlan : Plan → Type 0
IsUniquePlan plan = IsUnique (map (λ (p : GatewayPlan). p.gateway) plan.gateways)

-- Where the gateways of a plan have identities of their own, a gateway whose egress is not
-- available gets no live default route in its table, from whatever gateway: no command has the
-- words of one, with a device or a next hop.
pub build_fail_closed :
    (plan : Plan) (cmds : List IpCmd) (gp : GatewayPlan) (why : Reason)
    → build plan ≡ ok cmds
    → IsUniquePlan plan
    → In gp plan.gateways
    → gp.egress ≡ unavailable why
    → ¬ Any (IsLive (table_of gp)) cmds
build_fail_closed plan cmds gp why h u i down live =
    subst IsAvailable down
      (other_table plan.gateways gp u i (build_live_routes plan cmds (table_of gp) h live))
