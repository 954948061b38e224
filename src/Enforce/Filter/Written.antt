-- ===== src/Enforce/Filter/Written.antt =====
-- The text of a filter, written out: the sets, the chains with their hooks and policies, and the
-- rules in them; and that the code writes a filter so.
use degc.Prelude.{
  ◌≡◌, refl, Bool, true, false, List, [], ◌∷◌, ◌++◌, append_assoc, append-nil, is_empty, ap, ◌∙◌,
  sym, flat_map, if◌then◌else◌,
}
use degc.Text.{Text, str, join}
use degc.Api.{Libs}
use degc.Enforce.Nft.{line, emit_set, snat_chain, table_text}
use degc.Enforce.Filter.{SetDef, SnatRule, snat_by, snat_any, Filter}
use degc.Enforce.Filter.Printed.{
  emitted, mark_rule_text, snat_rule_text, kill_rule_text, filter_rules,
}

-- The elements behind the first, each behind the separator.
abbrev rest_text : Text → List Text → Text
rest_text sep [] = []
rest_text sep (e ∷ es) = sep ++ e ++ rest_text sep es

abbrev elements_text : List Text → Text
elements_text [] = []
elements_text (e ∷ es) =
    str "        elements = { " ++ e ++ rest_text (str ", ") es ++ str " }" ++ str "\n"

abbrev interval_text : Bool → Text
interval_text true = str "        flags interval\n"
interval_text false = []

abbrev pub set_text : SetDef → Text
set_text s =
    str "    set "
    ++ s.name
    ++ str " {"
    ++ str "\n"
    ++ str "        type "
    ++ s.typ
    ++ str "\n"
    ++ interval_text s.interval
    ++ elements_text s.elements
    ++ str "    }\n"

abbrev snat_text : List SnatRule → Text
snat_text [] = []
snat_text (r ∷ rs) =
    str "    chain degc_snat {\n        type nat hook postrouting priority srcnat; policy accept;\n"
    ++ flat_map snat_rule_text (r ∷ rs)
    ++ str "    }\n"

abbrev head_text : Text
head_text = str "add table inet degc\ndelete table inet degc\ntable inet degc {\n"

abbrev mark_text_open : Text
mark_text_open =
    str
      "    chain degc_mark {\n        type filter hook prerouting priority mangle; policy accept;\n"

abbrev kill_text_open : Text
kill_text_open =
    str
      "    chain degc_killswitch {\n        type filter hook forward priority filter; policy accept;\n"

abbrev pub filter_text : Libs → Filter → Text
filter_text libs f =
    head_text
    ++ flat_map set_text f.sets
    ++ mark_text_open
    ++ flat_map mark_rule_text f.marks
    ++ str "    }\n"
    ++ snat_text f.snats
    ++ kill_text_open
    ++ flat_map (kill_rule_text libs) f.kills
    ++ str "    }\n"
    ++ str "}\n"

join-rest_text : (sep e : Text) (es : List Text) → join sep (e ∷ es) ≡ e ++ rest_text sep es
unfolding join
join-rest_text sep e [] = sym (append-nil e)
join-rest_text sep e (f ∷ es) =
    ap (λ (l : Text). e ++ sep ++ l) (join-rest_text sep f es) ∙ simp append_assoc refl

joined_line : (a j e r z nl : Text) → j ≡ e ++ r → (a ++ j ++ z) ++ nl ≡ a ++ e ++ r ++ z ++ nl
joined_line a j e r z nl h = ap (λ (l : Text). (a ++ l ++ z) ++ nl) h ∙ simp append_assoc refl

elements_line :
    (es : List Text)
    → (if is_empty es
        then []
        else line (str "        elements = { " ++ join (str ", ") es ++ str " }"))
      ≡ elements_text es
elements_line [] = refl
elements_line (e ∷ es) =
    joined_line (str "        elements = { ") (join (str ", ") (e ∷ es)) e (rest_text (str ", ") es)
      (str " }") (str "\n") (join-rest_text (str ", ") e es)

interval_line :
    (on : Bool) → (if on then line (str "        flags interval") else []) ≡ interval_text on
interval_line true = refl
interval_line false = refl

set_lines :
    (a name b nl ty typ on on' el el' z : Text)
    → on ≡ on'
    → el ≡ el'
    → [] ++ ((a ++ name ++ b) ++ nl) ++ ((ty ++ typ) ++ nl) ++ on ++ el ++ z
      ≡ a ++ name ++ b ++ nl ++ ty ++ typ ++ nl ++ on' ++ el' ++ z
set_lines a name b nl ty typ on on' el el' z h k =
    ap (λ (x : Text). ((a ++ name ++ b) ++ nl) ++ ((ty ++ typ) ++ nl) ++ x ++ el ++ z) h
    ∙ ap (λ (x : Text). ((a ++ name ++ b) ++ nl) ++ ((ty ++ typ) ++ nl) ++ on' ++ x ++ z) k
    ∙ simp append_assoc refl

pub emitted-set_text : (s : SetDef) → emitted s ≡ set_text s
unfolding emit_set
emitted-set_text s =
    set_lines (str "    set ") s.name (str " {") (str "\n") (str "        type ") s.typ _ _ _ _ _
      (interval_line s.interval) (elements_line s.elements)

emitted_sets : (l : List SetDef) → flat_map emitted l ≡ flat_map set_text l
unfolding flat_map
emitted_sets [] = refl
emitted_sets (s ∷ l) =
    ap (λ (t : Text). t ++ flat_map emitted l) (emitted-set_text s)
    ∙ ap (λ (t : Text). set_text s ++ t) (emitted_sets l)

snat_line : (rs : List SnatRule) → snat_chain (flat_map snat_rule_text rs) ≡ snat_text rs
unfolding flat_map
snat_line [] = refl
snat_line (snat_by mark iface ∷ rs) = refl
snat_line (snat_any mark ∷ rs) = refl

table_lines :
    (a sets sets' b marks c snats snats' d kills e f : Text)
    → sets ≡ sets'
    → snats ≡ snats'
    → (a ++ sets ++ b ++ marks ++ c ++ snats ++ d) ++ kills ++ e ++ f
      ≡ a ++ sets' ++ b ++ marks ++ c ++ snats' ++ d ++ kills ++ e ++ f
table_lines a sets sets' b marks c snats snats' d kills e f h k =
    ap (λ (x : Text). (a ++ x ++ b ++ marks ++ c ++ snats ++ d) ++ kills ++ e ++ f) h
    ∙ ap (λ (x : Text). (a ++ sets' ++ b ++ marks ++ c ++ x ++ d) ++ kills ++ e ++ f) k
    ∙ simp append_assoc refl

-- The code's table around the rules of a filter is the text of the filter.
pub table_text_lem :
    (libs : Libs) (f : Filter) → table_text (filter_rules libs f) ≡ filter_text libs f
unfolding table_text
table_text_lem libs f =
    table_lines head_text _ _ mark_text_open (flat_map mark_rule_text f.marks) (str "    }\n") _ _
      kill_text_open (flat_map (kill_rule_text libs) f.kills) (str "    }\n") (str "}\n")
      (emitted_sets f.sets) (snat_line f.snats)
