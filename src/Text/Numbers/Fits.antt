-- ===== src/Text/Numbers/Fits.antt =====
-- The numbers that the parsers give fit their type.
use degc.Prelude.{
  ℕ, ◌+◌, ◌*◌, ◌^◌, ◌<◌, ◌≡◌, refl, Bool, true, false, Option, none, some, List, [], ◌∷◌, ltb,
  ltb→lt, if◌then◌else◌, ◌==◌,
}
use degc.Text.Chars.{to_digit}
use degc.Text.Numbers.{shift_in, scan, scan_all, from_str_radix}

-- A number that was read fits its type.
abbrev pub Fits : ℕ → Option ℕ → Type 0
Fits bits none = Unit {0}
Fits bits (some n) = n < 2 ^ bits

module _ (bits radix : ℕ) where
  checked-Fits : (b : Bool) (x : ℕ) → ltb x (2 ^ bits) ≡ b → Fits bits (if b then some x else none)
  checked-Fits true x h = ltb→lt x (2 ^ bits) h
  checked-Fits false x h = tt

  shift_in-Fits : (n : ℕ) (d : Option ℕ) → Fits bits (shift_in bits radix n d)
  shift_in-Fits n none = tt
  shift_in-Fits n (some d) = checked-Fits _ (n * radix + d) refl

  scan-Fits : (s : List ℕ) (o : Option ℕ) → Fits bits o → Fits bits (scan bits radix s o)
  unfolding scan
  scan-Fits [] none h = tt
  scan-Fits (c ∷ s) none h = tt
  scan-Fits [] (some n) h = h
  scan-Fits (c ∷ s) (some n) h = scan-Fits s _ (shift_in-Fits n (to_digit radix c))

  scan_all-Fits : (s : List ℕ) → 0 < 2 ^ bits → Fits bits (scan_all bits radix s)
  unfolding scan_all
  scan_all-Fits [] p = tt
  scan_all-Fits (c ∷ s) p = scan-Fits (c ∷ s) (some 0) p

  pub from_str_radix-Fits : (s : List ℕ) → 0 < 2 ^ bits → Fits bits (from_str_radix bits radix s)
  unfolding from_str_radix
  from_str_radix-Fits [] p = tt
  from_str_radix-Fits (c ∷ s) p = either (c == b'+')
    where
      either :
          (b : Bool) → Fits bits (if b then scan_all bits radix s else scan_all bits radix (c ∷ s))
      either true = scan_all-Fits s p
      either false = scan_all-Fits (c ∷ s) p
