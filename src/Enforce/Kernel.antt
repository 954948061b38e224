-- ===== src/Enforce/Kernel.antt =====
-- The policy routing of the kernel for IPv4, as far as degc's commands reach it: for each table its
-- blackhole default and its live default, both of degc's protocol, and the fwmark rules; the rules
-- and routes of other programs, and those of IPv6, are not part of it. The commands are given by
-- their words, and `Kernel` says what the documentation of iproute2 and nftables says of them: one
-- that succeeds has its effect, and one that fails has none. `Commands` has the code's commands,
-- with the failures that the code counts.
pub mod Commands
pub mod Run
pub mod Planned
pub mod Policy
pub mod Removal
use degc.Prelude.{
  ℕ, ◌≡◌, Bool, true, false, ◌&&◌, ◌||◌, not, Option, none, some, List, [], ◌∷◌, if◌then◌else◌,
}
use degc.Text.{Text, str, same, contains}
use degc.Text.Numbers.{show}
use degc.Net.{IpAddr, v6}
use degc.Net.Print.{print}
use degc.Plan.{Egress, interface, next_hop, unavailable}
use degc.Enforce.Host.{Programs, Output, not_spawned, exited}

pub data Hop : Type 0 where
  dev via : Text → Hop

pub record Host : Type 0 where
  pub floor : Text → Bool
  pub live : Text → Option Hop
  pub rule : Text → Text → Bool

-- What a packet meets that carries the mark: a default route, a blackhole, or the main table.
pub data Fate : Type 0 where
  leaves : Hop → Fate
  dropped falls_through : Fate

abbrev pub by_table : Option Hop → Bool → Fate
by_table (some hop) floor = leaves hop
by_table none true = dropped
by_table none false = falls_through

abbrev pub fate : Host → Text → Text → Fate
fate h mark table =
    if h.rule mark table then by_table (h.live table) (h.floor table) else falls_through

-- The fate that a plan means.
abbrev pub planned : Egress → Fate
planned (interface i) = leaves (dev i)
planned (next_hop ip) = leaves (via (print ip))
planned (unavailable why) = dropped

pub data Command : Type 0 where
  set_floor : Text → Command
  add_rule del_rule : Text → Text → Command
  set_egress : Text → Egress → Command
  flush : Text → Command

-- The words of `ip` for it.
abbrev pub words : Command → List Text
words (set_floor t) =
    str "route"
    ∷ str "replace"
    ∷ str "blackhole"
    ∷ str "default"
    ∷ str "table"
    ∷ t
    ∷ str "proto"
    ∷ str "194"
    ∷ str "metric"
    ∷ str "9999"
    ∷ []
words (add_rule m t) =
    str "rule" ∷ str "add" ∷ str "fwmark" ∷ m ∷ str "table" ∷ t ∷ str "priority" ∷ str "100" ∷ []
words (del_rule m t) = str "rule" ∷ str "del" ∷ str "fwmark" ∷ m ∷ str "table" ∷ t ∷ []
words (set_egress t (interface i)) =
    str "route"
    ∷ str "replace"
    ∷ str "default"
    ∷ str "dev"
    ∷ i
    ∷ str "table"
    ∷ t
    ∷ str "proto"
    ∷ str "194"
    ∷ str "metric"
    ∷ str "1"
    ∷ []
words (set_egress t (next_hop ip)) =
    str "route"
    ∷ str "replace"
    ∷ str "default"
    ∷ str "via"
    ∷ print ip
    ∷ str "table"
    ∷ t
    ∷ str "proto"
    ∷ str "194"
    ∷ str "metric"
    ∷ str "1"
    ∷ []
words (set_egress t (unavailable why)) =
    str "route"
    ∷ str "del"
    ∷ str "default"
    ∷ str "table"
    ∷ t
    ∷ str "proto"
    ∷ str "194"
    ∷ str "metric"
    ∷ str "1"
    ∷ []
words (flush t) = str "route" ∷ str "flush" ∷ str "table" ∷ t ∷ str "proto" ∷ str "194" ∷ []

-- What `ip` says where it has nothing to do: there is such a rule; there is none; there is no such
-- route; there is no such table. A route that is put in place has no such case.
abbrev pub complaint : Command → Option Text
complaint (set_floor t) = none
complaint (add_rule m t) = some (str "File exists")
complaint (del_rule m t) = some (str "No such file or directory")
complaint (set_egress t (interface i)) = none
complaint (set_egress t (next_hop ip)) = none
complaint (set_egress t (unavailable why)) = some (str "No such process")
complaint (flush t) = some (str "table does not exist")

-- A route by an IPv6 next hop is one of the IPv6 tables.
abbrev pub is_six : Egress → Bool
is_six (next_hop (v6 _ _ _ _ _ _ _ _)) = true
is_six _ = false

abbrev pub hop_of : Egress → Option Hop
hop_of (interface i) = some (dev i)
hop_of (next_hop ip) = some (via (print ip))
hop_of (unavailable why) = none

abbrev pub effect : Command → Host → Host
effect (set_floor t) h = record h { floor = λ u. same t u || h.floor u }
effect (add_rule m t) h = record h { rule = λ n u. (same m n && same t u) || h.rule n u }
effect (del_rule m t) h = record h { rule = λ n u. not (same m n && same t u) && h.rule n u }
effect (set_egress t e) h = record h {
  live = λ u. if not (is_six e) && same t u then hop_of e else h.live u;
}
effect (flush t) h = record h {
  floor = λ u. not (same t u) && h.floor u;
  live = λ u. if same t u then none else h.live u;
}

abbrev pub effects : List Command → Host → Host
effects [] h = h
effects (c ∷ cs) h = effects cs (effect c h)

abbrev pub succeeded : Output → Bool
succeeded not_spawned = false
succeeded (exited success out e) = success

-- All fields but one are documentation of the programs: what the commands do, what their messages
-- mean, and that to show changes nothing. `no_other` is on the host: the commands with a message of
-- their own fail for no other reason, as where degc has the right to change the routing.
pub record Kernel {S : Type 0} (p : Programs S) : Type 0 where
  pub view : S → Host
  pub has_effect :
      (c : Command) (s : S)
      → succeeded (p.ip (words c) s).0 ≡ true
      → view (p.ip (words c) s).1 ≡ effect c (view s)
  pub has_none :
      (c : Command) (s : S)
      → succeeded (p.ip (words c) s).0 ≡ false
      → view (p.ip (words c) s).1 ≡ view s
  pub nothing_to_do :
      (c : Command) (s : S) (said : Text)
      → complaint c ≡ some said
      → {out error : Text} → (p.ip (words c) s).0 ≡ exited false out error
      → contains said error ≡ true
      → effect c (view s) ≡ view s
  pub no_other :
      (c : Command) (s : S) (said : Text)
      → complaint c ≡ some said
      → {out error : Text} → (p.ip (words c) s).0 ≡ exited false out error
      → contains said error ≡ true
  pub show_rules_reads :
      (s : S) → view (p.ip (str "-o" ∷ str "rule" ∷ str "show" ∷ []) s).1 ≡ view s
  pub show_table_reads :
      (table : ℕ) (s : S)
      → view (p.ip (str "-o" ∷ str "route" ∷ str "show" ∷ str "table" ∷ show table ∷ []) s).1
        ≡ view s
  pub nft_keeps : (script : Text) (s : S) → view (p.nft script s).1 ≡ view s
