-- ===== src/Text.antt =====
-- Rust's `str` and `String` as lists of code points, with the methods that the source calls. The
-- order of two texts is the order of their code points, which is that of their UTF-8 bytes.
pub mod Chars
pub mod Numbers
pub mod Utf8
pub mod Debug
pub mod Laws
pub mod Trim
use Prim.Native.Char.{code}
use degc.Prelude.{
  ℕ, String, Bool, true, false, ◌&&◌, ◌||◌, not, Option, none, some, List, [], ◌∷◌, ◌++◌, reverse,
  ltb, ◌==◌, if◌then◌else◌, is_empty, filter, map,
}
use degc.Text.Chars.{is_whitespace}

abbrev pub Text : Type 0
Text = List ℕ

-- The code points of a literal.
abbrev pub str : String → Text
str String.[] = []
str (String.◌∷◌ c s) = code c ∷ str s

unfoldable pub same : Text → Text → Bool
same [] [] = true
same (a ∷ s) (b ∷ t) = a == b && same s t
same _ _ = false

-- The lexicographic order.
unfoldable pub before : Text → Text → Bool
before [] [] = false
before [] (b ∷ t) = true
before (a ∷ s) [] = false
before (a ∷ s) (b ∷ t) = ltb a b || (a == b && before s t)

unfoldable pub trim_start : Text → Text
trim_start [] = []
trim_start (c ∷ s) = let rest = trim_start s in if is_whitespace c then rest else c ∷ s

unfoldable pub trim : Text → Text
trim s = reverse (trim_start (reverse (trim_start s)))

-- Put a character before the first part.
abbrev pub push : ℕ → List Text → List Text
push c [] = (c ∷ []) ∷ []
push c (p ∷ ps) = (c ∷ p) ∷ ps

-- `split`: one part more than there are separators.
unfoldable pub split_by : (ℕ → Bool) → Text → List Text
split_by p [] = [] ∷ []
split_by p (c ∷ s) = let rest = split_by p s in if p c then [] ∷ rest else push c rest

abbrev pub split : ℕ → Text → List Text
split sep = split_by (λ c. c == sep)

abbrev extend_first : ℕ → Option (Text × Text) → Option (Text × Text)
extend_first c none = none
extend_first c (some (k, v)) = some (c ∷ k, v)

-- `split_once`: what stands before and behind the first separator.
unfoldable pub split_once : ℕ → Text → Option (Text × Text)
split_once sep [] = none
split_once sep (c ∷ s) =
    let rest = split_once sep s in if c == sep then some ([], s) else extend_first c rest

unfoldable pub split_whitespace : Text → List Text
split_whitespace s = filter (λ p. not (is_empty p)) (split_by is_whitespace s)

-- A carriage return at the end is dropped.
strip_return : Text → Text
strip_return [] = []
strip_return (c ∷ []) = if c == 13 then [] else c ∷ []
strip_return (c ∷ d ∷ s) = c ∷ strip_return (d ∷ s)

-- Only the last part has no line feed behind it; it is no line if it is empty.
terminated : List Text → List Text
unfolding strip_return
terminated [] = []
terminated (p ∷ []) = if is_empty p then [] else p ∷ []
terminated (p ∷ q ∷ ps) = strip_return p ∷ terminated (q ∷ ps)

unfoldable pub lines : Text → List Text
unfolding terminated
lines s = terminated (split 10 s)

unfoldable pub strip_prefix : Text → Text → Option Text
strip_prefix [] s = some s
strip_prefix (c ∷ p) [] = none
strip_prefix (c ∷ p) (d ∷ s) = let rest = strip_prefix p s in if c == d then rest else none

unfoldable pub starts_with : Text → Text → Bool
starts_with [] s = true
starts_with (c ∷ p) [] = false
starts_with (c ∷ p) (d ∷ s) = c == d && starts_with p s

unfoldable pub contains : Text → Text → Bool
contains needle [] = is_empty needle
contains needle (c ∷ s) = starts_with needle (c ∷ s) || contains needle s

unfoldable pub join : Text → List Text → Text
join sep [] = []
join sep (p ∷ []) = p
join sep (p ∷ q ∷ ps) = p ++ sep ++ join sep (q ∷ ps)

-- The concatenation of pieces, as `format!` writes them.
unfoldable pub concat : List Text → Text
concat [] = []
concat (p ∷ ps) = p ++ concat ps
