-- ===== src/Api/Values.antt =====
-- The effective values of a gateway: given, or derived from its name.
pub mod Bounds
pub mod Effective
use degc.Prelude.{
  ℕ, ◌+◌, ◌*◌, ◌%◌, ◌^◌, bit_xor, Bool, Option, none, some, List, [], ◌∷◌, Result, ok, ok_or,
  is_empty, is_some, if◌then◌else◌,
}
use degc.Text.{Text, str, trim, strip_prefix}
use degc.Text.Numbers.{parse_u32, from_str_radix}
use degc.Text.Utf8.{bytes}
use degc.Api.{Gateway, Error, bad_mark}

-- One byte of the hash: xor, then a multiplication that wraps around.
hash_byte : ℕ → ℕ → ℕ
hash_byte h b = bit_xor h b * 0x01000193 % 2 ^ 32

hash_bytes : ℕ → List ℕ → ℕ
unfolding hash_byte
hash_bytes h [] = h
hash_bytes h (b ∷ bs) = hash_bytes (hash_byte h b) bs

unfoldable pub fnv1a : Text → ℕ
unfolding hash_bytes
fnv1a s = hash_bytes 0x811c9dc5 (bytes s)

unfoldable pub auto_mark : Text → ℕ
auto_mark name = 0x1000 + fnv1a name % 0xe000

unfoldable pub auto_table : Text → ℕ
auto_table name = 5000 + fnv1a name % 1000

-- Behind `0x` hexadecimal, else decimal.
unfoldable pub parse_trimmed : Text → Option ℕ
parse_trimmed t = elim (strip_prefix (str "0x") t) [
  | none ↦ parse_u32 t
  | some hex ↦ from_str_radix 32 16 hex
]

unfoldable pub parse_mark : Text → Option ℕ
parse_mark s = parse_trimmed (trim s)

unfoldable pub mark_value : Gateway → Result Error ℕ
mark_value g = elim g.mark [
  | some m ↦ ok_or (parse_mark m) (bad_mark g.name m)
  | none ↦ ok (auto_mark g.name)
]

unfoldable pub table_id : Gateway → ℕ
table_id g = elim g.table [ some t ↦ t | none ↦ auto_table g.name ]

unfoldable pub snat_enabled : Gateway → Bool
snat_enabled g = elim g.snat [ some b ↦ b | none ↦ is_some g.egress.interface ]

abbrev default_local_subnets : List Text
default_local_subnets = str "10.0.0.0/8" ∷ str "172.16.0.0/12" ∷ str "192.168.0.0/16" ∷ []

unfoldable pub local_subnets_effective : Gateway → List Text
local_subnets_effective g =
    if is_empty g.local_subnets then default_local_subnets else g.local_subnets
