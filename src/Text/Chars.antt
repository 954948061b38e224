-- ===== src/Text/Chars.antt =====
-- Rust's tests on characters: `char::is_whitespace` (Unicode's White_Space), the ASCII classes and
-- `char::to_digit`.
use degc.Prelude.{
  ℕ, ◌+◌, ◌-◌, ◌≤◌, ◌<◌, ◌≡◌, Bool, ◌&&◌, ◌||◌, Option, none, some, ltb, leb, ◌==◌, if◌then◌else◌,
  arith,
}

unfoldable pub is_whitespace : ℕ → Bool
is_whitespace c =
    (leb 9 c && leb c 13)
    || c == 32
    || c == 0x85
    || c == 0xa0
    || c == 0x1680
    || (leb 0x2000 c && leb c 0x200a)
    || c == 0x2028
    || c == 0x2029
    || c == 0x202f
    || c == 0x205f
    || c == 0x3000

unfoldable pub is_ascii_alphanumeric : ℕ → Bool
is_ascii_alphanumeric c =
    (leb b'0' c && leb c b'9') || (leb b'A' c && leb c b'Z') || (leb b'a' c && leb c b'z')

-- The value of a letter or a digit, below 36.
digit_value : ℕ → Option ℕ
digit_value c =
    if leb b'0' c && leb c b'9'
    then some (c - b'0')
    else if leb b'a' c && leb c b'z'
    then some (c - b'a' + 10)
    else if leb b'A' c && leb c b'Z'
    then some (c - b'A' + 10)
    else none

below_radix : ℕ → Option ℕ → Option ℕ
below_radix radix none = none
below_radix radix (some d) = if ltb d radix then some d else none

unfoldable pub to_digit : ℕ → ℕ → Option ℕ
unfolding digit_value below_radix
to_digit radix c = below_radix radix (digit_value c)

-- The lower-case digit that `{}` and `{:x}` print.
unfoldable pub digit_char : ℕ → ℕ
digit_char d = if ltb d 10 then b'0' + d else b'a' + (d - 10)

pub to_digit-digit_char :
    (radix d : ℕ) → radix ≤ 16 → d < radix → to_digit radix (digit_char d) ≡ some d
unfolding to_digit digit_char
to_digit-digit_char radix d r h = ground arith
