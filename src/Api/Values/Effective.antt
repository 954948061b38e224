-- ===== src/Api/Values/Effective.antt =====
-- The mark and the table that a validated gateway routes by.
use degc.Prelude.{ℕ, ◌^◌, ◌<◌, ◌≡◌, refl, Option, none, some, Result, ok, arith, ap, subst, ok_or}
use degc.Text.{Text, trim, strip_prefix, str}
use degc.Text.Numbers.{from_str_radix}
use degc.Text.Numbers.Fits.{Fits, from_str_radix-Fits}
use degc.Api.{Libs, Gateway, Error, bad_mark}
use degc.Api.Values.{parse_trimmed, parse_mark, auto_mark, auto_table, mark_value, table_id}
use degc.Api.Values.Bounds.{auto_mark_bounds, auto_table_bounds}
use degc.Api.Validate.{validate}
use degc.Api.Validate.WellFormed.{IsMark, IsTable, validate_iff}

parse_mark-Fits : (s : Text) → Fits 32 (parse_mark s)
unfolding parse_mark parse_trimmed
parse_mark-Fits s = either (strip_prefix (str "0x") (trim s))
  where
    either :
        (o : Option Text)
        → Fits 32
            (elim o [ none ↦ from_str_radix 32 10 (trim s) | some hex ↦ from_str_radix 32 16 hex ])
    either none = from_str_radix-Fits 32 10 (trim s) (omega arith)
    either (some hex) = from_str_radix-Fits 32 16 hex (omega arith)

abbrev IsProperMark : Result Error ℕ → Type 0
IsProperMark r = (mark : ℕ) × (r ≡ ok mark) × (0 < mark) × (mark < 2 ^ 32)

proper_mark :
    (name : Text) (o : Option Text)
    → IsMark o
    → IsProperMark
        (elim o [ some m ↦ ok_or (parse_mark m) (bad_mark name m) | none ↦ ok (auto_mark name) ])
proper_mark name none h =
    let (low, high) = auto_mark_bounds name in (auto_mark name, refl, omega arith, omega arith)
proper_mark name (some m) (v, e, n) =
    (v, ap (λ r. ok_or r (bad_mark name m)) e, ground arith, subst (Fits 32) e (parse_mark-Fits m))

proper_table :
    (name : Text) (o : Option ℕ) → IsTable o → 0 < elim o [ some t ↦ t | none ↦ auto_table name ]
proper_table name none h = let (low, high) = auto_table_bounds name in omega arith
proper_table name (some t) h = h

-- A gateway that validates has a mark, which is not 0 and fits in 32 bits, and a table that is not 0.
pub validate-mark_value :
    (libs : Libs) (g : Gateway)
    → validate libs g ≡ ok tt
    → (mark : ℕ) × (mark_value g ≡ ok mark) × (0 < mark) × (mark < 2 ^ 32) × (0 < table_id g)
unfolding mark_value table_id
validate-mark_value libs g h =
    let w = (validate_iff libs g).0 h in
    let (mark, e, low, high) = proper_mark g.name g.mark w.mark in
    (mark, e, low, high, proper_table g.name g.table w.table)
