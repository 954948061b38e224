-- ===== src/Enforce/Filter.antt =====
-- The table `inet degc` as a packet filter: named sets and the rules of its three chains, what they
-- do with a packet, and the filter that a plan means. `covers` says which addresses an element of a
-- set covers: an address itself, or a network all of its addresses.
pub mod Printed
pub mod Written
pub mod Print
pub mod Apart
pub mod Sets
pub mod Lookup
pub mod Verdicts
pub mod Members
pub mod Effects
pub mod Policy
pub mod Script
use degc.Prelude.{
  ℕ, Bool, true, false, ◌&&◌, ◌||◌, not, Option, none, some, List, [], ◌∷◌, ◌++◌, map, filter, any,
  ◌==◌, Result, ok, ◌>>=◌, if◌then◌else◌,
}
use degc.Text.{Text, str, same}
use degc.Net.{IpAddr, is_ipv4, is_ipv6}
use degc.Net.Print.{print}
use degc.Api.{Libs, Gateway, Error}
use degc.Api.Values.{mark_value, snat_enabled}
use degc.Plan.{Plan, GatewayPlan, Egress, Reason, interface, next_hop, unavailable}
use degc.Enforce.Nft.{sanitize, locals}

pub record SetDef : Type 0 where
  pub name : Text
  pub typ : Text
  pub interval : Bool
  pub elements : List Text

-- The source is in a set, and the destination is not in the excepted one.
pub record Match : Type 0 where
  pub sources : Text
  pub except : Option Text

pub record MarkRule : Type 0 where
  pub matches : Match
  pub mark : ℕ

-- Masquerade what has the mark: where it leaves by an interface, or everywhere.
pub data SnatRule : Type 0 where
  snat_by : ℕ → Text → SnatRule
  snat_any : ℕ → SnatRule

-- Drop by IPv6 source; by mark, unless it leaves by an interface; by mark.
pub data KillRule : Type 0 where
  drop_six : Match → KillRule
  drop_off : ℕ → Text → KillRule
  drop_all : ℕ → Reason → KillRule

pub record Filter : Type 0 where
  pub sets : List SetDef
  pub marks : List MarkRule
  pub snats : List SnatRule
  pub kills : List KillRule

-- What the chains read of a packet. The interface is known once it is routed.
pub record Packet : Type 0 where
  pub source : IpAddr
  pub destination : IpAddr
  pub mark : ℕ
  pub leaves_by : Text

abbrev pub masquerades : Packet → SnatRule → Bool
masquerades p (snat_by mark iface) = mark == p.mark && same iface p.leaves_by
masquerades p (snat_any mark) = mark == p.mark

abbrev pub masqueraded : Filter → Packet → Bool
masqueraded f p = any (masquerades p) f.snats

module _ (covers : Text → IpAddr → Bool) where
  abbrev pub covered : List Text → IpAddr → Bool
  covered elements ip = any (λ e. covers e ip) elements

  -- Definitions of one name are one set.
  abbrev pub in_set : List SetDef → Text → IpAddr → Bool
  in_set sets name ip = any (λ (s : SetDef). same s.name name && covered s.elements ip) sets

  abbrev pub in_except : List SetDef → Option Text → IpAddr → Bool
  in_except sets none ip = false
  in_except sets (some name) ip = in_set sets name ip

  abbrev pub matches : List SetDef → Match → Packet → Bool
  matches sets m p = in_set sets m.sources p.source && not (in_except sets m.except p.destination)

  -- `degc_mark`: each rule that matches sets the mark, the last one to stay.
  abbrev pub mark_chain : List SetDef → List MarkRule → Packet → ℕ → ℕ
  mark_chain sets [] p mark = mark
  mark_chain sets (r ∷ rest) p mark =
      mark_chain sets rest p (if is_ipv4 p.source && matches sets r.matches p then r.mark else mark)

  abbrev pub marked : Filter → Packet → ℕ
  marked f p = mark_chain f.sets f.marks p p.mark

  abbrev pub drops : List SetDef → Packet → KillRule → Bool
  drops sets p (drop_six m) = is_ipv6 p.source && matches sets m p
  drops sets p (drop_off mark iface) = mark == p.mark && not (same iface p.leaves_by)
  drops sets p (drop_all mark reason) = mark == p.mark

  abbrev pub dropped : Filter → Packet → Bool
  dropped f p = any (drops f.sets p) f.kills

abbrev pub via_name : Gateway → Text
via_name gw = str "degc_via_" ++ sanitize gw.name

abbrev pub local_name : Gateway → Text
local_name gw = str "degc_local_" ++ sanitize gw.name

abbrev pub via6_name : Gateway → Text
via6_name gw = str "degc_via6_" ++ sanitize gw.name

abbrev pub local6_name : Gateway → Text
local6_name gw = str "degc_local6_" ++ sanitize gw.name

abbrev pub members_of : (IpAddr → Bool) → GatewayPlan → List Text
members_of family gp = map print (filter family gp.members)

-- The set of the networks that a rule excepts, where there are some.
abbrev pub except_set : Text → Text → List Text → List SetDef
except_set name typ [] = []
except_set name typ (c ∷ cidrs) =
    record { name = name; typ = typ; interval = true; elements = c ∷ cidrs } ∷ []

abbrev pub except_name : Text → List Text → Option Text
except_name name [] = none
except_name name (c ∷ cidrs) = some name

abbrev pub plain_set : Text → Text → List Text → SetDef
plain_set name typ elements = record {
  name = name;
  typ = typ;
  interval = false;
  elements = elements;
}

abbrev pub snats_for : ℕ → Egress → List SnatRule
snats_for mark (interface i) = snat_by mark i ∷ []
snats_for mark (next_hop ip) = snat_any mark ∷ []
snats_for mark (unavailable why) = []

abbrev pub kills_for : ℕ → Egress → List KillRule
kills_for mark (interface i) = drop_off mark i ∷ []
kills_for mark (next_hop ip) = []
kills_for mark (unavailable why) = drop_all mark why ∷ []

-- The part for IPv6, where a gateway has members with such an address.
abbrev pub six_sets : Gateway → List Text → List Text → List SetDef
six_sets gw [] cidrs = []
six_sets gw (m ∷ members) cidrs =
    plain_set (via6_name gw) (str "ipv6_addr") (m ∷ members)
    ∷ except_set (local6_name gw) (str "ipv6_addr") cidrs

abbrev pub six_kills : Gateway → List Text → List Text → List KillRule
six_kills gw [] cidrs = []
six_kills gw (m ∷ members) cidrs =
    drop_six (record { sources = via6_name gw; except = except_name (local6_name gw) cidrs }) ∷ []

abbrev pub append_filter : Filter → Filter → Filter
append_filter f g = record {
  sets = f.sets ++ g.sets;
  marks = f.marks ++ g.marks;
  snats = f.snats ++ g.snats;
  kills = f.kills ++ g.kills;
}

module _ (libs : Libs) where
  abbrev pub locals4 : Gateway → List Text
  locals4 gw = locals libs (λ n. n.is_ipv4) gw

  abbrev pub locals6 : Gateway → List Text
  locals6 gw = locals libs (λ n. not n.is_ipv4) gw

  abbrev pub own_filter : ℕ × GatewayPlan → Filter
  own_filter (mark, gp) =
      let gw = gp.gateway in
      record {
        sets =
            plain_set (via_name gw) (str "ipv4_addr") (members_of is_ipv4 gp)
              ∷ except_set (local_name gw) (str "ipv4_addr") (locals4 gw)
            ++ six_sets gw (members_of is_ipv6 gp) (locals6 gw);
        marks =
            record {
              matches = record {
                sources = via_name gw;
                except = except_name (local_name gw) (locals4 gw);
              };
              mark = mark;
            }
            ∷ [];
        snats = if snat_enabled gw then snats_for mark gp.egress else [];
        kills = six_kills gw (members_of is_ipv6 gp) (locals6 gw) ++ kills_for mark gp.egress;
      }

  abbrev pub filter_of : List (ℕ × GatewayPlan) → Filter
  filter_of [] = record { sets = []; marks = []; snats = []; kills = [] }
  filter_of (mg ∷ rest) = append_filter (own_filter mg) (filter_of rest)

-- The gateways with their marks.
unfoldable pub marks_of : List GatewayPlan → Result Error (List (ℕ × GatewayPlan))
marks_of [] = ok []
marks_of (gp ∷ rest) = do mark ← mark_value gp.gateway; ms ← marks_of rest; ok ((mark, gp) ∷ ms)

-- The filter that a plan means.
unfoldable pub filter_for : Libs → Plan → Result Error Filter
filter_for libs plan = do ms ← marks_of plan.gateways; ok (filter_of libs ms)
