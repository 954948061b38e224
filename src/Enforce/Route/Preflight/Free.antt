-- ===== src/Enforce/Route/Preflight/Free.antt =====
-- The preflight passes exactly where the guarded tables and marks are free.
use degc.Prelude.{
  ℕ, Bool, true, false, ◌≡◌, ◌↔◌, refl, Option, none, some, List, [], ◌∷◌, Result, ok, sym, map,
  find, All, if◌then◌else◌, ◌∙◌, ap, subst,
}
use degc.Text.{Text, str, trim, lines, split_whitespace}
use degc.Text.Numbers.{show}
use degc.Api.{Error, foreign_occupant, fwmark_taken}
use degc.Enforce.Host.{Programs, Output, not_spawned, exited, World, Exec, continue, run_ip, ◌>>=◌}
use degc.Enforce.Route.Preflight.{
  preflight, preflight_each, ip_show, refuse, shown, show_rules, show_table, is_foreign,
  foreign_route, is_conflict, conflict_in, conflicting_fwmark_rule,
}
use degc.Enforce.Route.Preflight.Lines.{
  IsForeign, IsDiversion, is_foreign-IsForeign, is_conflict-IsDiversion,
}

abbrev IsDiverted : Text → ℕ → Text → Type 0
IsDiverted mark table line = IsDiversion mark (show table) (split_whitespace line)

-- A search that is over at its first element, or goes on.
search_step :
    {A : Type 0} (b : Bool) (x : A) (o : Option A)
    → ((if b then some x else o) ≡ none) ↔ ((b ≡ false) × (o ≡ none))
search_step true x o = (λ e. cc, λ h. (let e = h.0 in cc))
search_step false x o = (λ e. (refl, e), λ h. h.1)

find-IsForeign :
    (ls : List Text) → (find is_foreign (map trim ls) ≡ none) ↔ All (λ l. ¬ IsForeign (trim l)) ls
unfolding find
find-IsForeign [] = (λ e. tt, λ h. refl)
find-IsForeign (l ∷ ls) =
    let step = search_step (is_foreign (trim l)) (trim l) (find is_foreign (map trim ls)) in
    let one = is_foreign-IsForeign (trim l) in
    let more = find-IsForeign ls in
    (
      λ e. (let (h, later) = step.0 e in (one.0 h, more.0 later)),
      λ h. step.1 (one.1 h.0, more.1 h.1),
    )

conflict_in-IsDiverted :
    (ls : List Text) (mark : Text) (table : ℕ)
    → (conflict_in ls mark (show table) ≡ none) ↔ All (λ l. ¬ IsDiverted mark table l) ls
unfolding conflict_in
conflict_in-IsDiverted [] mark table = (λ e. tt, λ h. refl)
conflict_in-IsDiverted (l ∷ ls) mark table =
    let step =
      search_step (is_conflict mark (show table) (split_whitespace l)) (trim l)
        (conflict_in ls mark (show table)) in
    let one = is_conflict-IsDiversion mark (show table) (split_whitespace l) in
    let more = conflict_in-IsDiverted ls mark table in
    (
      λ e. (let (h, later) = step.0 e in (one.0 h, more.0 later)),
      λ h. step.1 (one.1 h.0, more.1 h.1),
    )

-- What a command prints; nothing where it fails.
abbrev pub printed : Output → Text
printed (exited true out e) = out
printed (exited false out e) = []
printed not_spawned = []

printed_lem : (o : Output) → shown o ≡ printed o
printed_lem not_spawned = refl
printed_lem (exited true out e) = refl
printed_lem (exited false out e) = refl

module _ {S : Type 0} (p : Programs S) where
  abbrev pub show_routes : ℕ → S → Output × S
  show_routes table h = p.ip (str "-o" ∷ str "route" ∷ str "show" ∷ str "table" ∷ show table ∷ []) h

  -- In the state behind the commands for the guards before it: no line that `ip` shows of the table
  -- is foreign, and no line of the rules diverts the mark to another table.
  abbrev pub AreFree : List Text → List (Text × ℕ) → S → Type 0
  AreFree rules [] h = Unit {0}
  AreFree rules ((mark, table) ∷ rest) h =
      All (λ l. ¬ IsForeign (trim l)) (lines (printed (show_routes table h).0))
      × All (λ l. ¬ IsDiversion mark (show table) (split_whitespace l)) rules
      × AreFree rules rest (show_routes table h).1

  abbrev IsPassed : Result Error (Unit {0}) → Type 0
  IsPassed r = r ≡ ok tt

  refusing :
      (o : Option Text) (e : Text → Error) (f : Exec S (Unit {0})) (w : World S)
      → IsPassed (continue (refuse o e) (λ _. f) w).0 ↔ ((o ≡ none) × IsPassed (f w).0)
  refusing none e f w = (λ h. (refl, h), λ h. h.1)
  refusing (some s) e f w = (λ h. cc, λ h. (let x = h.0 in cc))

  each-AreFree :
      (rules : Text) (guards : List (Text × ℕ)) (w : World S)
      → IsPassed (preflight_each p rules guards w).0 ↔ AreFree (lines rules) guards w.host
  unfolding preflight_each ip_show run_ip ◌>>=◌ foreign_route conflicting_fwmark_rule
  each-AreFree rules [] w = (λ h. tt, λ h. refl)
  each-AreFree rules ((mark, table) ∷ rest) w =
      let v = (ip_show p (show_table table) w).1 in
      let out = (p.ip (show_table table) w.host).0 in
      let routes = find-IsForeign (lines (printed out)) in
      let same_lines = ap (λ (t : Text). find is_foreign (map trim (lines t))) (printed_lem out) in
      let rule = conflict_in-IsDiverted (lines rules) mark table in
      let first = refusing (foreign_route (shown out)) (foreign_occupant table) _ v in
      let second =
        refusing (conflicting_fwmark_rule rules mark (show table)) (fwmark_taken mark)
          (preflight_each p rules rest) v in
      let more = each-AreFree rules rest v in
      (
        λ h.
            (let (a, one) = first.0 h in
              let (b, two) = second.0 one in (routes.0 (sym same_lines ∙ a), rule.0 b, more.0 two)),
        λ h. first.1 (same_lines ∙ routes.1 h.0, second.1 (rule.1 h.1, more.1 h.2)),
      )

  -- The preflight passes exactly where, for every mark and table it guards, in their order: no line
  -- that `ip route show` then prints of the table, blanks aside, is without degc's protocol; and no
  -- line that `ip rule show` printed at the start selects the mark, with a mask or without, and
  -- looks up another table. A command that fails prints nothing, and so refuses nothing.
  pub preflight_iff :
      (guards : List (Text × ℕ)) (w : World S)
      → ((preflight p guards w).0 ≡ ok tt)
        ↔ AreFree
            (lines (printed (p.ip (str "-o" ∷ str "rule" ∷ str "show" ∷ []) w.host).0))
            guards
            (p.ip (str "-o" ∷ str "rule" ∷ str "show" ∷ []) w.host).1
  unfolding preflight ip_show run_ip ◌>>=◌
  preflight_iff guards w =
      let out = (p.ip show_rules w.host).0 in
      let each = each-AreFree (shown out) guards (ip_show p show_rules w).1 in
      let free = λ (t : Text). AreFree (lines t) guards (p.ip show_rules w.host).1 in
      (
        λ h. subst free (printed_lem out) (each.0 h),
        λ h. each.1 (subst free (sym (printed_lem out)) h),
      )
