-- ===== src/Enforce/Kernel/Commands.antt =====
-- The commands of enforce/route.rs are those with the words of `Kernel`, and the failures that they
-- let pass are those of a command that may have nothing to do.
use degc.Prelude.{◌≡◌, refl, is_some}
use degc.Plan.{interface, next_hop, unavailable}
use degc.Enforce.Route.{IpCmd, blackhole_cmd, rule_cmd, egress_cmd, rule_del_cmd, flush_cmd}
use degc.Enforce.Kernel.{
  Command, set_floor, add_rule, del_rule, set_egress, flush, words, complaint,
}

abbrev pub cmd_of : Command → IpCmd
cmd_of (set_floor t) = blackhole_cmd t
cmd_of (add_rule m t) = rule_cmd m t
cmd_of (del_rule m t) = rule_del_cmd m t
cmd_of (set_egress t e) = egress_cmd t e
cmd_of (flush t) = flush_cmd t

pub cmd_of-words : (c : Command) → (cmd_of c).args ≡ words c
unfolding blackhole_cmd rule_cmd egress_cmd rule_del_cmd flush_cmd
cmd_of-words (set_floor t) = refl
cmd_of-words (add_rule m t) = refl
cmd_of-words (del_rule m t) = refl
cmd_of-words (set_egress t (interface i)) = refl
cmd_of-words (set_egress t (next_hop ip)) = refl
cmd_of-words (set_egress t (unavailable why)) = refl
cmd_of-words (flush t) = refl

pub cmd_of-complaint : (c : Command) → (cmd_of c).ignore_fail ≡ is_some (complaint c)
unfolding blackhole_cmd rule_cmd egress_cmd rule_del_cmd flush_cmd
cmd_of-complaint (set_floor t) = refl
cmd_of-complaint (add_rule m t) = refl
cmd_of-complaint (del_rule m t) = refl
cmd_of-complaint (set_egress t (interface i)) = refl
cmd_of-complaint (set_egress t (next_hop ip)) = refl
cmd_of-complaint (set_egress t (unavailable why)) = refl
cmd_of-complaint (flush t) = refl
