-- ===== src/Net/Print.antt =====
-- `Display` of `IpAddr`: dotted octets; groups in hexadecimal with the longest run of at least two
-- zero groups as `::`, the first of equal length; and an IPv4-mapped address with dotted octets.
use degc.Prelude.{
  ℕ, zero, suc, ◌+◌, ◌/◌, ◌%◌, ◌&&◌, List, [], ◌∷◌, ◌++◌, map, ltb, leb, ◌==◌, if◌then◌else◌,
}
use degc.Text.{Text, str, join}
use degc.Text.Numbers.{show, show_hex, show_radix}
use degc.Net.{IpAddr, v4, v6}

dotted : ℕ → ℕ → ℕ → ℕ → Text
unfolding join show_radix
dotted a b c d = join (str ".") (show a ∷ show b ∷ show c ∷ show d ∷ [])

-- The zero groups at the front.
run_length : List ℕ → ℕ
run_length [] = 0
run_length (g ∷ gs) = let rest = run_length gs in if g == 0 then suc rest else 0

-- Where the longest run starts, and its length; `i` counts the groups passed.
longest : ℕ → List ℕ → ℕ × ℕ → ℕ × ℕ
unfolding run_length
longest i [] best = best
longest i (g ∷ gs) best =
    longest (suc i) gs (if ltb best.1 (run_length (g ∷ gs)) then (i, run_length (g ∷ gs)) else best)

take_groups : ℕ → List ℕ → List ℕ
take_groups zero gs = []
take_groups (suc n) [] = []
take_groups (suc n) (g ∷ gs) = g ∷ take_groups n gs

drop_groups : ℕ → List ℕ → List ℕ
drop_groups zero gs = gs
drop_groups (suc n) [] = []
drop_groups (suc n) (g ∷ gs) = drop_groups n gs

groups_text : List ℕ → Text
unfolding join show_radix
groups_text gs = join (str ":") (map show_hex gs)

compressed : List ℕ → Text
unfolding longest take_groups drop_groups groups_text
compressed gs =
    let (at, byte_length) = longest 0 gs (0, 0) in
    if leb 2 byte_length
    then groups_text (take_groups at gs)
      ++ str "::"
      ++ groups_text (drop_groups (at + byte_length) gs)
    else groups_text gs

unfoldable pub print : IpAddr → Text
unfolding dotted compressed
print (v4 a b c d) = dotted a b c d
print (v6 a b c d e f g h) =
    if a == 0 && b == 0 && c == 0 && d == 0 && e == 0 && f == 65535
    then str "::ffff:" ++ dotted (g / 256) (g % 256) (h / 256) (h % 256)
    else compressed (a ∷ b ∷ c ∷ d ∷ e ∷ f ∷ g ∷ h ∷ [])
