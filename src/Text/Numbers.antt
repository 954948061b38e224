-- ===== src/Text/Numbers.antt =====
-- `from_str_radix` and `parse` of the unsigned types, and the prints `{}` and `{:x}`.
pub mod RoundTrip
pub mod Fits
use degc.Prelude.{
  ℕ, zero, suc, ◌+◌, ◌*◌, ◌/◌, ◌%◌, ◌^◌, Option, none, some, List, [], ◌∷◌, ltb, ◌==◌,
  if◌then◌else◌,
}
use degc.Text.Chars.{to_digit, digit_char}

module _ (bits radix : ℕ) where
  -- One round of the loop: `None` for no digit, or where the number leaves the type.
  abbrev pub shift_in : ℕ → Option ℕ → Option ℕ
  shift_in n none = none
  shift_in n (some d) = if ltb (n * radix + d) (2 ^ bits) then some (n * radix + d) else none

  unfoldable pub scan : List ℕ → Option ℕ → Option ℕ
  scan s none = none
  scan [] (some n) = some n
  scan (c ∷ s) (some n) = scan s (shift_in n (to_digit radix c))

  -- No digit is an error.
  unfoldable pub scan_all : List ℕ → Option ℕ
  scan_all [] = none
  scan_all (c ∷ s) = scan (c ∷ s) (some 0)

  -- A leading `+` is accepted; `-` is no digit of an unsigned type.
  unfoldable pub from_str_radix : List ℕ → Option ℕ
  from_str_radix [] = none
  from_str_radix (c ∷ s) = if c == b'+' then scan_all s else scan_all (c ∷ s)

-- `str::parse::<u32>()`
abbrev pub parse_u32 : List ℕ → Option ℕ
parse_u32 = from_str_radix 32 10

abbrev pub parse_u64 : List ℕ → Option ℕ
parse_u64 = from_str_radix 64 10

-- The digits of `n` before `out`; the fuel `n` is enough, as each round divides by the radix.
unfoldable pub digits : ℕ → ℕ → ℕ → List ℕ → List ℕ
digits radix zero n out = out
digits radix (suc fuel) n out =
    let rest = digits radix fuel (n / radix) (digit_char (n % radix) ∷ out) in
    if n == 0 then out else rest

unfoldable pub show_radix : ℕ → ℕ → List ℕ
show_radix radix n = if n == 0 then b'0' ∷ [] else digits radix n n []

-- `{}` and `{:x}`
abbrev pub show : ℕ → List ℕ
show = show_radix 10

abbrev pub show_hex : ℕ → List ℕ
show_hex = show_radix 16
