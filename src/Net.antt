-- ===== src/Net.antt =====
-- `std::net::IpAddr`: its two variants, the order that sets of addresses use, the strict parser
-- behind `str::parse` and the canonical print.
pub mod Parse
pub mod Print
use degc.Prelude.{ℕ, Bool, true, false, not, List, [], ◌∷◌, ◌≡◌, arith}
use degc.Text.{Text}
use degc.Map.{Key}

-- Four octets, or eight groups of sixteen bits.
pub data IpAddr : Type 0 where
  v4 : ℕ → ℕ → ℕ → ℕ → IpAddr
  v6 : ℕ → ℕ → ℕ → ℕ → ℕ → ℕ → ℕ → ℕ → IpAddr

-- The derived order: `V4` before `V6`, and octet by octet.
abbrev pub rank : IpAddr → Text
rank (v4 a b c d) = 4 ∷ a ∷ b ∷ c ∷ d ∷ []
rank (v6 a b c d e f g h) = 6 ∷ a ∷ b ∷ c ∷ d ∷ e ∷ f ∷ g ∷ h ∷ []

pub rank_injective : (a b : IpAddr) → rank a ≡ rank b → a ≡ b
rank_injective (v4 _ _ _ _) (v4 _ _ _ _) e = cc
rank_injective (v4 _ _ _ _) (v6 _ _ _ _ _ _ _ _) e = ground arith
rank_injective (v6 _ _ _ _ _ _ _ _) (v4 _ _ _ _) e = ground arith
rank_injective (v6 _ _ _ _ _ _ _ _) (v6 _ _ _ _ _ _ _ _) e = cc

instance abbrev pub ip_key : Key IpAddr
ip_key = record { rank = rank; rank_injective = rank_injective }

unfoldable pub is_ipv4 : IpAddr → Bool
is_ipv4 (v4 _ _ _ _) = true
is_ipv4 (v6 _ _ _ _ _ _ _ _) = false

unfoldable pub is_ipv6 : IpAddr → Bool
is_ipv6 a = not (is_ipv4 a)
