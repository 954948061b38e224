-- ===== src/Text/Debug.antt =====
-- `{:?}` of a text: quoted and escaped, so that it stays on one line.
use degc.Prelude.{ℕ, Bool, ◌&&◌, ◌||◌, [], ◌∷◌, ◌++◌, flat_map, leb, ltb, ◌==◌, if◌then◌else◌}
use degc.Text.{Text, str}
use degc.Text.Numbers.{show_hex}

-- `printable` is Unicode's table beyond ASCII.
module _ (printable : ℕ → Bool) where
  unfoldable pub escape_debug : ℕ → Text
  escape_debug c =
      if c == 0
      then str "\\0"
      else if c == 9
      then str "\\t"
      else if c == 13
      then str "\\r"
      else if c == 10
      then str "\\n"
      else if c == b'"'
      then str "\\\""
      else if c == b'\\'
      then str "\\\\"
      else if (leb 32 c && ltb c 127) || (leb 128 c && printable c)
      then c ∷ []
      else str "\\u{" ++ show_hex c ++ str "}"

  unfoldable pub debug : Text → Text
  debug s = b'"' ∷ (flat_map escape_debug s ++ b'"' ∷ [])
