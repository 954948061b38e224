-- ===== src/Text/Trim.antt =====
-- Where `trim` changes nothing.
use mathlib.Core.List.{reverse-cons, reverse-reverse}
use degc.Prelude.{ℕ, ◌≡◌, refl, false, [], ◌∷◌, reverse, arith, inl, inr, All, All-append}
use degc.Text.{Text, trim, trim_start}
use degc.Text.Chars.{is_whitespace}
use degc.Text.Numbers.RoundTrip.{IsHexDigit}

abbrev pub IsSolid : Text → Type 0
IsSolid = All (λ c. is_whitespace c ≡ false)

trim_start_solid : (s : Text) → IsSolid s → trim_start s ≡ s
unfolding trim_start
trim_start_solid [] h = refl
trim_start_solid (c ∷ s) (hc, h) = rw hc

reverse-IsSolid : (s : Text) → IsSolid s → IsSolid (reverse s)
reverse-IsSolid [] h = h
reverse-IsSolid (c ∷ s) (hc, h) =
    rw (reverse-cons c s) (All-append _ (reverse s) (c ∷ []) (reverse-IsSolid s h) (hc, tt))

-- A text without white space is its own trim.
pub trim_solid : (s : Text) → IsSolid s → trim s ≡ s
unfolding trim
trim_solid s h =
    rw (trim_start_solid s h, trim_start_solid (reverse s) (reverse-IsSolid s h))
      (reverse-reverse s)

hex_digit_solid : (c : ℕ) → IsHexDigit c → is_whitespace c ≡ false
unfolding is_whitespace
hex_digit_solid c (inl h) = ground arith
hex_digit_solid c (inr h) = ground arith

pub hex-IsSolid : (s : Text) → All IsHexDigit s → IsSolid s
hex-IsSolid [] h = h
hex-IsSolid (c ∷ s) (hc, h) = (hex_digit_solid c hc, hex-IsSolid s h)
