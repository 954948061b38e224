-- ===== src/Text/Numbers/RoundTrip.antt =====
-- What `show_radix` prints is read back by `from_str_radix`.
use native.Mathlib.Nat.{mod-lt, div-add-mod', div-lt_self, le_trans, le_refl}
use mathlib.Core.List.{cons-ne-nil}
use degc.Prelude.{
  ℕ, zero, suc, ◌+◌, ◌*◌, ◌/◌, ◌%◌, ◌^◌, ◌≤◌, ◌<◌, ◌≡◌, ◌≢◌, refl, false, some, List, [], ◌∷◌,
  arith, ltb, ◌==◌, ◌∙◌, ap, sym, ◌⊎◌, Bool-cases, ==_iff, lt→ltb, inl, inr, All,
}
use degc.Text.Chars.{digit_char, to_digit-digit_char}
use degc.Text.Numbers.{scan, shift_in, scan_all, from_str_radix, digits, show_radix}

shift_in_fits :
    (bits r q d n : ℕ) → q * r + d ≡ n → n < 2 ^ bits → shift_in bits r q (some d) ≡ some n
shift_in_fits bits r q d n e fits = rw e (rw (lt→ltb n (2 ^ bits) fits))

-- Reading the last digit behind the digits before it.
scan_last :
    (bits r n : ℕ) (out : List ℕ)
    → 2 ≤ r
    → r ≤ 16
    → n < 2 ^ bits
    → scan bits r (digit_char (n % r) ∷ out) (some (n / r)) ≡ scan bits r out (some n)
unfolding scan
scan_last bits r n out h k fits =
    ap (λ o. scan bits r out (shift_in bits r (n / r) o))
      (to_digit-digit_char r (n % r) k (mod-lt n (le_trans (omega arith) h)))
    ∙ ap (scan bits r out) (shift_in_fits bits r (n / r) (n % r) n (div-add-mod' n r) fits)

scan-digits :
    (bits r fuel n : ℕ) (out : List ℕ)
    → 2 ≤ r
    → r ≤ 16
    → n ≤ fuel
    → n < 2 ^ bits
    → scan bits r (digits r fuel n out) (some 0) ≡ scan bits r out (some n)
unfolding digits
scan-digits bits r zero n out h k le fits = let e : n ≡ 0 = omega arith in rw e
scan-digits bits r (suc fuel) n out h k le fits = elim (Bool-cases (n == 0)) [
  | inl done ↦ rw done (rw ((==_iff n 0).0 done))
  | inr more ↦
      let shrinks : n / r < n = div-lt_self (ground arith) h in
      rw more (
        scan-digits bits r fuel (n / r) (digit_char (n % r) ∷ out) h k (omega arith) (omega arith)
        ∙ scan_last bits r n out h k fits)
]

-- The prints start with a digit, and hold nothing else.
abbrev pub IsHexDigit : ℕ → Type 0
IsHexDigit c = ((b'0' ≤ c) × (c ≤ b'9')) ⊎ ((b'a' ≤ c) × (c ≤ b'f'))

digit_char-IsHexDigit : (d : ℕ) → d < 16 → IsHexDigit (digit_char d)
unfolding digit_char
digit_char-IsHexDigit d h = elim (Bool-cases (ltb d 10)) [
  | inl e ↦ rw e (inl (ground arith))
  | inr e ↦ rw e (inr (ground arith))
]

digits-IsHexDigit :
    (r fuel n : ℕ) (out : List ℕ)
    → 2 ≤ r
    → r ≤ 16
    → All IsHexDigit out
    → All IsHexDigit (digits r fuel n out)
unfolding digits
digits-IsHexDigit r zero n out h k all = all
digits-IsHexDigit r (suc fuel) n out h k all = elim (Bool-cases (n == 0)) [
  | inl done ↦ rw done all
  | inr more ↦
      let last : n % r < 16 = le_trans (mod-lt n (le_trans (omega arith) h)) k in
      rw more (digits-IsHexDigit r fuel (n / r) _ h k (digit_char-IsHexDigit (n % r) last, all))
]

pub show_radix-IsHexDigit : (r n : ℕ) → 2 ≤ r → r ≤ 16 → All IsHexDigit (show_radix r n)
unfolding show_radix
show_radix-IsHexDigit r n h k = elim (Bool-cases (n == 0)) [
  | inl zero_case ↦ rw zero_case (inl (omega arith), tt)
  | inr more ↦ rw more (digits-IsHexDigit r n n [] h k tt)
]

digits-ne-nil : (r fuel n : ℕ) (out : List ℕ) → out ≢ [] → digits r fuel n out ≢ []
unfolding digits
digits-ne-nil r zero n out h = h
digits-ne-nil r (suc fuel) n out h = elim (Bool-cases (n == 0)) [
  | inl done ↦ rw done h
  | inr more ↦ rw more (digits-ne-nil r fuel (n / r) _ (cons-ne-nil _ _))
]

digits_pos-ne-nil : (r n : ℕ) → (n == 0) ≡ false → digits r n n [] ≢ []
unfolding digits
digits_pos-ne-nil r zero h = cc
digits_pos-ne-nil r (suc m) h = rw h (digits-ne-nil r m (suc m / r) _ (cons-ne-nil _ _))

pub show_radix-ne-nil : (r n : ℕ) → show_radix r n ≢ []
unfolding show_radix
show_radix-ne-nil r n = elim (Bool-cases (n == 0)) [
  | inl done ↦ rw done (cons-ne-nil _ _)
  | inr more ↦ rw more (digits_pos-ne-nil r n more)
]

scan_zero : (bits r : ℕ) → 2 ≤ r → r ≤ 16 → 0 < 2 ^ bits → scan bits r (b'0' ∷ []) (some 0) ≡ some 0
unfolding scan digit_char
scan_zero bits r h k fits =
    ap (λ o. scan bits r [] (shift_in bits r 0 o))
      (to_digit-digit_char r 0 k (le_trans (omega arith) h))
    ∙ ap (scan bits r []) (shift_in_fits bits r 0 0 0 (omega arith) fits)

scan-show_radix :
    (bits r n : ℕ) → 2 ≤ r → r ≤ 16 → n < 2 ^ bits → scan bits r (show_radix r n) (some 0) ≡ some n
unfolding show_radix
scan-show_radix bits r n h k fits = elim (Bool-cases (n == 0)) [
  | inl done ↦
      let e : n ≡ 0 = (==_iff n 0).0 done in
      rw done (scan_zero bits r h k (le_trans (omega arith) fits) ∙ ap some (sym e))
  | inr more ↦ rw more (scan-digits bits r n n [] h k (le_refl n) fits ∙ (unfold scan in refl))
]

no_plus :
    (s : List ℕ)
    → s ≢ []
    → All IsHexDigit s
    → (bits r : ℕ) → from_str_radix bits r s ≡ scan bits r s (some 0)
unfolding from_str_radix scan_all
no_plus [] h all bits r = absurd (h refl)
no_plus (c ∷ s) h (hc, all) bits r = ground arith

-- Within the type, the print of a number is read back.
pub from_str_radix-show_radix :
    (bits r n : ℕ) → 2 ≤ r → r ≤ 16 → n < 2 ^ bits → from_str_radix bits r (show_radix r n) ≡ some n
from_str_radix-show_radix bits r n h k fits =
    no_plus (show_radix r n) (show_radix-ne-nil r n) (show_radix-IsHexDigit r n h k) bits r
    ∙ scan-show_radix bits r n h k fits
