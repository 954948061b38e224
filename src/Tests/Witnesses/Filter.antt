-- ===== src/Tests/Witnesses/Filter.antt =====
-- The theorems on the packet filter, at a plan of two gateways.
use degc.Prelude.{
  ap, arith, ℕ, ◌≡◌, ◌≢◌, refl, Bool, true, false, ◌&&◌, ◌||◌, [], All, In, inl, inr, Result, ok,
  err, ◌>>=◌, ◌==◌,
}
use degc.Text.{Text, str, same}
use degc.Net.{IpAddr, v4, v6, is_ipv4, is_ipv6}
use degc.Net.Print.{print}
use degc.Api.{Error}
use degc.Api.Values.{mark_value}
use degc.Plan.{GatewayPlan}
use degc.Enforce.Nft.{build_script}
use degc.Enforce.Filter.{Filter, Packet, marked, dropped, masqueraded, filter_for}
use degc.Enforce.Filter.Written.{filter_text}
use degc.Enforce.Filter.Print.{build_script-filter_text}
use degc.Enforce.Filter.Apart.{HasOwnSets}
use degc.Enforce.Filter.Members.{IsExact}
use degc.Enforce.Filter.Script.{IsPrint, build_script-drops, build_script_foreign}
use degc.Tests.Open.{program}
use degc.Tests.Data.{libs, ip}
use degc.Tests.Witnesses.{up, two, two_script, two-script}

-- An address covers itself, and the first of the private networks its addresses.
abbrev in_ten : IpAddr → Bool
in_ten (v4 a b c d) = a == 10
in_ten (v6 _ _ _ _ _ _ _ _) = false

abbrev pub covering : Text → IpAddr → Bool
covering element address =
    same element (print address) || (same element (str "10.0.0.0/8") && in_ten address)

two-HasOwnSets : HasOwnSets two.gateways
unfolding program
two-HasOwnSets = ((λ e. ground arith, tt), (tt, tt))

abbrev packet : IpAddr → Packet
packet source = record { source = source; destination = v4 1 1 1 1; mark = 0; leaves_by = [] }

build_script-filter_text_example :
    build_script libs two ≡ (do f ← filter_for libs two; ok (filter_text libs f))
build_script-filter_text_example = build_script-filter_text libs two

abbrev six_member : IpAddr
six_member = v6 0xfd00 0 0 0 0 0 0 1

six-IsExact : IsExact covering six_member up.members
unfolding program
six-IsExact =
    ((λ h. absurd (cc), λ e. absurd (let f = ap is_ipv4 e in cc)), ((λ h. refl, λ e. refl), tt))

six_is_six : is_ipv6 six_member ≡ true
unfolding program
six_is_six = refl

build_script-drops_example :
    (f : Filter) × IsPrint libs two two_script f × (dropped covering f (packet six_member) ≡ true)
unfolding program
build_script-drops_example =
    build_script-drops libs two two_script covering two-script up (packet six_member) two-HasOwnSets
      (inl refl) (inr (inl refl)) six_is_six six-IsExact refl

abbrev last_octet : IpAddr → ℕ
last_octet (v4 a b c d) = d
last_octet (v6 _ _ _ _ _ _ _ _) = 0

seven_not_nine : ip 7 ≢ ip 9
unfolding program
seven_not_nine e = ground (arith, ap last_octet e)

stranger_outside :
    All
      (λ (g : GatewayPlan). IsExact covering (ip 9) g.members × (¬ In (ip 9) g.members))
      two.gateways
unfolding program
stranger_outside = (
  (
    (
      (λ h. absurd (cc), λ e. absurd (seven_not_nine e)),
      ((λ h. absurd (cc), λ e. absurd (let f = ap is_ipv4 e in cc)), tt),
    ),
    λ i. elim i [
      | inl e ↦ seven_not_nine e
      | inr j ↦ elim j [ inl e ↦ (let f = ap is_ipv4 e in cc) | inr k ↦ k ]
    ],
  ),
  ((tt, λ i. i), tt),
)

abbrev number_or : ℕ → Result Error ℕ → ℕ
number_or n (ok m) = m
number_or n (err e) = n

stranger_unmarked : All (λ (g : GatewayPlan). mark_value g.gateway ≢ ok 0) two.gateways
unfolding program
stranger_unmarked = (
  λ e. absurd (let f : 4 ≡ 0 = ap (number_or 4) e in ground arith),
  (λ e. absurd (let f : 5 ≡ 0 = ap (number_or 5) e in ground arith), tt),
)

build_script_foreign_example :
    (f : Filter) × IsPrint libs two two_script f
    × (marked covering f (packet (ip 9)) ≡ 0)
    × (dropped covering f (packet (ip 9)) ≡ false)
    × (masqueraded f (packet (ip 9)) ≡ false)
build_script_foreign_example =
    build_script_foreign libs two two_script covering two-script (packet (ip 9)) stranger_outside
      stranger_unmarked
