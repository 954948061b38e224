-- ===== src/Api/Values/Bounds.antt =====
-- The ranges of the derived values, and the marks that are read back from their print.
use degc.Prelude.{ℕ, ◌^◌, ◌≤◌, ◌<◌, ◌≡◌, refl, some, arith, ◌∙◌, ap}
use degc.Text.{Text, strip_prefix}
use degc.Text.Numbers.{show_hex, from_str_radix}
use degc.Text.Numbers.RoundTrip.{show_radix-IsHexDigit, from_str_radix-show_radix}
use degc.Text.Trim.{IsSolid, trim_solid, hex-IsSolid}
use degc.Text.Chars.{is_whitespace}
use degc.Api.Values.{parse_mark, parse_trimmed, auto_mark, auto_table}
use degc.Enforce.Route.{mark_text}

pub auto_mark_bounds : (name : Text) → (0x1000 ≤ auto_mark name) × (auto_mark name < 0xf000)
unfolding auto_mark
auto_mark_bounds name = (omega arith, omega arith)

pub auto_table_bounds : (name : Text) → (5000 ≤ auto_table name) × (auto_table name < 6000)
unfolding auto_table
auto_table_bounds name = (omega arith, omega arith)

mark_text-IsSolid : (m : ℕ) → IsSolid (mark_text m)
unfolding mark_text is_whitespace
mark_text-IsSolid m =
    (refl, (refl, hex-IsSolid _ (show_radix-IsHexDigit 16 m (omega arith) (omega arith))))

parse_trimmed-mark_text : (m : ℕ) → parse_trimmed (mark_text m) ≡ from_str_radix 32 16 (show_hex m)
unfolding parse_trimmed strip_prefix mark_text
parse_trimmed-mark_text m = refl

-- Every mark that is written into the commands as `0x…` is read back as the same number.
pub parse_mark-mark_text : (m : ℕ) → m < 2 ^ 32 → parse_mark (mark_text m) ≡ some m
unfolding parse_mark
parse_mark-mark_text m h =
    ap parse_trimmed (trim_solid (mark_text m) (mark_text-IsSolid m))
    ∙ parse_trimmed-mark_text m
    ∙ from_str_radix-show_radix 32 16 m (omega arith) (omega arith) h
