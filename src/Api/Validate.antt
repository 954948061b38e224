-- ===== src/Api/Validate.antt =====
-- `Gateway::validate` and `valid_ifname`.
pub mod WellFormed
pub mod Defects
use degc.Prelude.{
  ℕ, Bool, ◌&&◌, ◌||◌, not, Option, none, some, List, [], ◌∷◌, Result, ok, ◌>>=◌, ◌>>◌, ensure,
  ok_or, is_empty, is_some, all, filter, length, ltb, leb, ◌==◌,
}
use degc.Text.{Text}
use degc.Text.Chars.{is_ascii_alphanumeric}
use degc.Text.Utf8.{byte_length}
use degc.Net.Parse.{parse}
use degc.Api.{
  Libs, Egress, Gateway, Selector, Error, egress_kinds, bad_mark, zero_mark, zero_table,
  bad_interface, bad_next_hop, bad_local_subnet, empty_selector,
}
use degc.Api.Values.{parse_mark}

unfoldable pub ifname_char : ℕ → Bool
ifname_char c = is_ascii_alphanumeric c || c == b'.' || c == b'-' || c == b'_'

unfoldable pub valid_ifname : Text → Bool
valid_ifname name = leb 1 (byte_length name) && leb (byte_length name) 15 && all ifname_char name

-- How many of the three kinds of egress are set.
unfoldable pub kinds : Egress → ℕ
kinds e =
    length
      (filter (λ set. set) (is_some e.interface ∷ is_some e.container ∷ is_some e.next_hop ∷ []))

module _ (name : Text) where
  unfoldable pub check_mark : Option Text → Result Error (Unit {0})
  check_mark none = ok tt
  check_mark (some m) = do
    v ← ok_or (parse_mark m) (bad_mark name m)
    ensure (not (v == 0)) (zero_mark name)

  unfoldable pub check_table : Option ℕ → Result Error (Unit {0})
  check_table none = ok tt
  check_table (some t) = ensure (ltb 0 t) (zero_table name)

  unfoldable pub check_interface : Option Text → Result Error (Unit {0})
  check_interface none = ok tt
  check_interface (some iface) = ensure (valid_ifname iface) (bad_interface name iface)

  unfoldable pub check_next_hop : Option Text → Result Error (Unit {0})
  check_next_hop none = ok tt
  check_next_hop (some nh) = do ok_or (parse nh) (bad_next_hop name nh); ok tt

  unfoldable pub check_subnets : Libs → List Text → Result Error (Unit {0})
  check_subnets libs [] = ok tt
  check_subnets libs (s ∷ rest) = do
    ok_or (libs.network s) (bad_local_subnet name s)
    check_subnets libs rest

  unfoldable pub check_selectors : List Selector → Result Error (Unit {0})
  check_selectors [] = ok tt
  check_selectors (sel ∷ rest) = do
    ensure (not (is_empty sel)) (empty_selector name)
    check_selectors rest

unfoldable pub validate : Libs → Gateway → Result Error (Unit {0})
validate libs g = do
  ensure (kinds g.egress == 1) (egress_kinds g.name (kinds g.egress))
  check_mark g.name g.mark
  check_table g.name g.table
  check_interface g.name g.egress.interface
  check_next_hop g.name g.egress.next_hop
  check_subnets g.name libs g.local_subnets
  check_selectors g.name g.members
