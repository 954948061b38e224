-- ===== src/Net/Parse.antt =====
-- The parser of `std::net`: a reader takes a text and gives what it read with the rest.
use degc.Prelude.{
  ℕ, zero, suc, ◌+◌, ◌-◌, ◌*◌, Bool, true, false, ◌&&◌, not, Option, none, some, List, [], ◌∷◌,
  ◌++◌, ltb, leb, ◌==◌, if◌then◌else◌, is_empty, length,
}
use degc.Text.{Text}
use degc.Text.Chars.{to_digit}
use degc.Net.{IpAddr, v4, v6}

-- What was read and what is left.
abbrev Read : Type 0 → Type 0
Read A = Option (A × Text)

infixl 5 ◌>>=◌
abbrev ◌>>=◌ : {A B : Type 0} → Option A → (A → Option B) → Option B
none >>= f = none
some a >>= f = f a

given : ℕ → Text → Option Text
given c [] = none
given c (d ∷ s) = if c == d then some s else none

-- The digits at the front, at most `max`; one more is an error.
take_digits : ℕ → ℕ → Text → ℕ → ℕ → Read (ℕ × ℕ)
unfolding to_digit
take_digits radix max [] n count = some ((n, count), [])
take_digits radix max (c ∷ s) n count = elim (to_digit radix c) [
  | none ↦ some ((n, count), c ∷ s)
  | some d ↦ if leb max count then none else take_digits radix max s (n * radix + d) (count + 1)
]

leading_zero : Text → Bool
leading_zero [] = false
leading_zero (c ∷ s) = c == b'0'

-- Some digit, no leading zero where none is allowed, and a value of the result's type.
accept : Bool → ℕ → Text → ℕ → ℕ → Text → Read ℕ
unfolding leading_zero
accept allow_zero_prefix limit s n count rest =
    if count == 0
    then none
    else if not allow_zero_prefix && leading_zero s && ltb 1 count
    then none
    else if ltb n limit
    then some (n, rest)
    else none

-- `read_number`: `limit` is the number of values of the result's type.
read_number : ℕ → ℕ → Bool → ℕ → Text → Read ℕ
unfolding take_digits accept
read_number radix max allow_zero_prefix limit s = do
  ((n, count), rest) ← take_digits radix max s 0 0
  accept allow_zero_prefix limit s n count rest

octet : Text → Read ℕ
unfolding read_number
octet = read_number 10 3 false 256

read_ipv4 : Text → Read (ℕ × ℕ × ℕ × ℕ)
unfolding octet given
read_ipv4 s = do
  (a, s1) ← octet s
  s2 ← given b'.' s1
  (b, s3) ← octet s2
  s4 ← given b'.' s3
  (c, s5) ← octet s4
  s6 ← given b'.' s5
  (d, s7) ← octet s6
  some ((a, b, c, d), s7)

-- A separator stands before every group but the first.
separator : ℕ → Text → Option Text
unfolding given
separator zero s = some s
separator (suc i) s = given b':' s

-- `read_groups` from the group `i` on, with `left` groups to read: the groups, whether an IPv4
-- address ended them, and the rest.
read_groups : ℕ → ℕ → Text → List ℕ × Bool × Text
unfolding separator read_ipv4 read_number
read_groups zero i s = ([], false, s)
read_groups (suc left) i s = elim (if leb 1 left then (separator i s >>= read_ipv4) else none) [
  | some ((a, b, c, d), rest) ↦ ((a * 256 + b) ∷ (c * 256 + d) ∷ [], true, rest)
  | none ↦ elim (separator i s >>= read_number 16 4 true 65536) [
    | none ↦ ([], false, s)
    | some (n, rest) ↦ let (ns, ended, r) = read_groups left (suc i) rest in (n ∷ ns, ended, r)
  ]
]

zeros : ℕ → List ℕ
zeros zero = []
zeros (suc n) = 0 ∷ zeros n

from_groups : List ℕ → Option IpAddr
from_groups (a ∷ b ∷ c ∷ d ∷ e ∷ f ∷ g ∷ h ∷ []) = some (v6 a b c d e f g h)
from_groups _ = none

-- The groups behind `::` fill the end of the address.
read_tail : List ℕ → Text → Read IpAddr
unfolding read_groups zeros from_groups given
read_tail head s = do
  s1 ← given b':' s
  s2 ← given b':' s1
  let size = length head
  let (tail, _, rest) = read_groups (7 - size) 0 s2
  ip ← from_groups (head ++ zeros (8 - size - length tail) ++ tail)
  some (ip, rest)

read_ipv6 : Text → Read IpAddr
unfolding read_tail read_groups from_groups
read_ipv6 s =
    let (head, ended, rest) = read_groups 8 0 s in
    if length head == 8
    then (do ip ← from_groups head; some (ip, rest))
    else if ended
    then none
    else read_tail head rest

-- Nothing may be left over.
whole : {A : Type 0} → Read A → Option A
whole none = none
whole (some (a, rest)) = if is_empty rest then some a else none

-- `read_ip_addr`: IPv4 first, and IPv6 where that fails.
unfoldable pub parse : Text → Option IpAddr
unfolding read_ipv4 read_ipv6 whole
parse s = elim (read_ipv4 s) [
  | some ((a, b, c, d), rest) ↦ whole (some (v4 a b c d, rest))
  | none ↦ whole (read_ipv6 s)
]
