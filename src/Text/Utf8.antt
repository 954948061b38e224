-- ===== src/Text/Utf8.antt =====
-- The bytes of a text: `str::bytes` and `str::len`.
use degc.Prelude.{ℕ, ◌+◌, ◌/◌, ◌%◌, List, [], ◌∷◌, flat_map, ltb, if◌then◌else◌, length}

unfoldable pub encode : ℕ → List ℕ
encode c =
    if ltb c 0x80
    then c ∷ []
    else if ltb c 0x800
    then (0xc0 + c / 64) ∷ (0x80 + c % 64) ∷ []
    else if ltb c 0x10000
    then (0xe0 + c / 4096) ∷ (0x80 + c / 64 % 64) ∷ (0x80 + c % 64) ∷ []
    else (0xf0 + c / 262144) ∷ (0x80 + c / 4096 % 64) ∷ (0x80 + c / 64 % 64) ∷ (0x80 + c % 64) ∷ []

unfoldable pub bytes : List ℕ → List ℕ
bytes s = flat_map encode s

unfoldable pub byte_length : List ℕ → ℕ
byte_length s = length (bytes s)
