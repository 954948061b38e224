-- ===== src/Tests/Std.antt =====
-- Tests of the model of Rust's standard library.
use degc.Prelude.{◌≡◌, refl, none, some, [], ◌∷◌}
use degc.Text.{str, trim, split, split_once, split_whitespace, lines}
use degc.Text.Numbers.{from_str_radix, show_radix}
use degc.Net.{v4, v6}
use degc.Net.Parse.{parse}
use degc.Net.Print.{print}
use degc.Tests.Open.{std}

trimmed : trim (str " a b\t") ≡ str "a b"
unfolding std
trimmed = refl

split_parts : split b',' (str "a,,b") ≡ str "a" ∷ [] ∷ str "b" ∷ []
unfolding std
split_parts = refl

split_pair : split_once b'=' (str "vpn=a=b") ≡ some (str "vpn", str "a=b")
unfolding std
split_pair = refl

line_ends : lines (str "a\r\n\nb\n") ≡ str "a" ∷ [] ∷ str "b" ∷ []
unfolding std
line_ends = refl

words : split_whitespace (str " fwmark  0x4\t") ≡ str "fwmark" ∷ str "0x4" ∷ []
unfolding std
words = refl

numbers :
    (from_str_radix 32 10 (str "+42") ≡ some 42)
    × (from_str_radix 32 16 (str "fFffFFff") ≡ some 4294967295)
    × (from_str_radix 32 10 (str "4294967296") ≡ none)
    × (from_str_radix 32 10 (str "+") ≡ none)
    × (show_radix 10 60000 ≡ str "60000")
    × (show_radix 16 52301 ≡ str "cc4d")
unfolding std
numbers = (refl, refl, refl, refl, refl, refl)

addresses :
    (parse (str "172.18.0.7") ≡ some (v4 172 18 0 7))
    × (parse (str "172.18.0.07") ≡ none)
    × (parse (str "fd00::1") ≡ some (v6 64768 0 0 0 0 0 0 1))
    × (parse (str "::ffff:1.2.3.4") ≡ some (v6 0 0 0 0 0 65535 258 772))
    × (parse (str "1:2:3:4:5:6:7:8") ≡ some (v6 1 2 3 4 5 6 7 8))
    × (parse (str "wg0") ≡ none)
unfolding std
addresses = (refl, refl, refl, refl, refl, refl)

prints :
    (print (v4 172 18 0 7) ≡ str "172.18.0.7")
    × (print (v6 64768 0 0 0 0 0 0 1) ≡ str "fd00::1")
    × (print (v6 0 0 0 0 0 0 0 0) ≡ str "::")
    × (print (v6 0 0 0 0 0 65535 258 772) ≡ str "::ffff:1.2.3.4")
    × (print (v6 1 0 0 2 0 0 0 8) ≡ str "1:0:0:2::8")
unfolding std
prints = (refl, refl, refl, refl, refl)
