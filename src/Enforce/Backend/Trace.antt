-- ===== src/Enforce/Backend/Trace.antt =====
-- What the system backend runs, in which order, and where it stops.
use degc.Prelude.{
  ℕ, ◌≡◌, refl, List, [], ◌∷◌, ◌++◌, append_assoc, append-nil, Result, ok, err, ap, ◌∙◌, sym, map,
}
use degc.Text.{Text}
use degc.Text.Numbers.{show}
use degc.Api.{GatewayList, Error, foreign_occupant, fwmark_taken}
use degc.Enforce.Host.{
  Programs, Action, ip_run, nft_run, World, Exec, lift, continue, run_ip, run_nft, ◌>>=◌,
}
use degc.Enforce.Route.{IpCmd, teardown}
use degc.Enforce.Route.Apply.{apply as apply_cmds, run_cmd}
use degc.Enforce.Route.Preflight.{
  preflight, preflight_each, ip_show, refuse, show_rules, show_table, foreign_route,
  conflicting_fwmark_rule,
}
use degc.Enforce.Nft.Apply.{apply as apply_script}
use degc.Enforce.Compile.{Desired}
use degc.Enforce.Backend.{apply, system, down}
use degc.Enforce.Nft.{teardown_script}

abbrev pub run_of : IpCmd → Action
run_of c = ip_run c.args

abbrev pub show_of : Text × ℕ → Action
show_of g = ip_run (show_table g.1)

-- The commands of the preflight.
abbrev pub checks : List (Text × ℕ) → List Action
checks guards = ip_run show_rules ∷ map show_of guards

-- What `down` has left to run behind the table, for the outcome of `teardown`.
abbrev pub undo_runs : Result Error (List IpCmd) → List Action
undo_runs (ok cmds) = map run_of cmds
undo_runs (err e) = []

abbrev pub IsDone : {A : Type 0} → Result Error A → Type 0
IsDone (ok a) = Unit {0}
IsDone (err e) = ⊥

-- Of these actions a first part was run and nothing else; where all is well it is all of them.
pub record IsRun {S A : Type 0} (actions : List Action) (w : World S) (o : Result Error A × World S)
    : Type 0 where
  pub ran : List Action
  pub left : List Action
  pub all_actions : actions ≡ ran ++ left
  pub trace : o.1.trace ≡ w.trace ++ ran
  pub complete : IsDone o.0 → left ≡ []

module _ {S A B : Type 0} where
  then_step :
      (f : A → Exec S B) (xs ys : List Action) (w : World S) (r : Result Error A) (w' : World S)
      → IsRun xs w (r, w')
      → ((a : A) (v : World S) → IsRun ys v (f a v))
      → IsRun (xs ++ ys) w (continue r f w')
  then_step f xs ys w (err e) w' first later = record {
    ran = first.ran;
    left = first.left ++ ys;
    all_actions = ap (λ l. l ++ ys) first.all_actions ∙ append_assoc first.ran first.left ys;
    trace = first.trace;
    complete = λ b. elim b [ ];
  }
  then_step f xs ys w (ok a) w' first later =
      let done = later a w' in
      let whole =
        first.all_actions ∙ ap (λ l. first.ran ++ l) (first.complete tt) ∙ append-nil first.ran in
      record {
        ran = first.ran ++ done.ran;
        left = done.left;
        all_actions =
            ap (λ l. l ++ ys) whole
            ∙ ap (λ l. first.ran ++ l) done.all_actions
            ∙ sym (append_assoc first.ran done.ran done.left);
        trace =
            done.trace
            ∙ ap (λ l. l ++ done.ran) first.trace
            ∙ append_assoc w.trace first.ran done.ran;
        complete = done.complete;
      }

  -- One after the other.
  IsRun-then :
      (m : Exec S A) (f : A → Exec S B) (xs ys : List Action) (w : World S)
      → IsRun xs w (m w)
      → ((a : A) (v : World S) → IsRun ys v (f a v))
      → IsRun (xs ++ ys) w ((m >>= f) w)
  unfolding ◌>>=◌
  IsRun-then m f xs ys w first later = then_step f xs ys w (m w).0 (m w).1 first later

module _ {S : Type 0} where
  IsRun-nothing : {A : Type 0} (r : Result Error A) (w : World S) → IsRun [] w (lift r w)
  IsRun-nothing r w = record {
    ran = [];
    left = [];
    all_actions = refl;
    trace = sym (append-nil w.trace);
    complete = λ _. refl;
  }

module _ {S : Type 0} (p : Programs S) where
  run_cmd-IsRun : (c : IpCmd) (w : World S) → IsRun (run_of c ∷ []) w (run_cmd p c w)
  unfolding run_cmd run_ip
  run_cmd-IsRun c w = record {
    ran = run_of c ∷ [];
    left = [];
    all_actions = refl;
    trace = refl;
    complete = λ _. refl;
  }

  ip_show-IsRun : (args : List Text) (w : World S) → IsRun (ip_run args ∷ []) w (ip_show p args w)
  unfolding ip_show run_ip
  ip_show-IsRun args w = record {
    ran = ip_run args ∷ [];
    left = [];
    all_actions = refl;
    trace = refl;
    complete = λ _. refl;
  }

  apply_script-IsRun : (s : Text) (w : World S) → IsRun (nft_run s ∷ []) w (apply_script p s w)
  unfolding apply_script run_nft
  apply_script-IsRun s w = record {
    ran = nft_run s ∷ [];
    left = [];
    all_actions = refl;
    trace = refl;
    complete = λ _. refl;
  }

  -- `apply` of enforce/route.rs runs a first part of its commands, in their order, each once; where
  -- it gives ok, all of them.
  pub apply_cmds-IsRun :
      (cmds : List IpCmd) (w : World S) → IsRun (map run_of cmds) w (apply_cmds p cmds w)
  unfolding apply_cmds
  apply_cmds-IsRun [] w = IsRun-nothing (ok tt) w
  apply_cmds-IsRun (c ∷ rest) w =
      IsRun-then (run_cmd p c) (λ _. apply_cmds p rest) (run_of c ∷ []) (map run_of rest) w
        (run_cmd-IsRun c w) (λ _ v. apply_cmds-IsRun rest v)

  preflight_each-IsRun :
      (rules : Text) (guards : List (Text × ℕ)) (w : World S)
      → IsRun (map show_of guards) w (preflight_each p rules guards w)
  unfolding preflight_each
  preflight_each-IsRun rules [] w = IsRun-nothing (ok tt) w
  preflight_each-IsRun rules ((mark, table) ∷ rest) w =
      IsRun-then (ip_show p (show_table table)) _ (ip_run (show_table table) ∷ [])
        (map show_of rest) w (ip_show-IsRun (show_table table) w)
        (λ routes v.
          IsRun-then (lift (refuse (foreign_route routes) (foreign_occupant table))) _ []
            (map show_of rest) v (IsRun-nothing _ v)
            (λ _ v'.
              IsRun-then
                (lift
                  (refuse (conflicting_fwmark_rule rules mark (show table)) (fwmark_taken mark)))
                _ [] (map show_of rest) v' (IsRun-nothing _ v')
                (λ _ v''. preflight_each-IsRun rules rest v'')))

  preflight-IsRun :
      (guards : List (Text × ℕ)) (w : World S) → IsRun (checks guards) w (preflight p guards w)
  unfolding preflight
  preflight-IsRun guards w =
      IsRun-then (ip_show p show_rules) _ (ip_run show_rules ∷ []) (map show_of guards) w
        (ip_show-IsRun show_rules w) (λ rules v. preflight_each-IsRun rules guards v)

  -- The system backend runs a first part of this list, in its order, and nothing else, and where it
  -- gives ok, the whole list: `ip rule show`, then `ip route show` for the table of each guard; the
  -- script for `nft`, once; the `ip` commands of the desired state.
  pub apply_system-IsRun :
      (d : Desired) (w : World S)
      → IsRun (checks d.guards ++ nft_run d.nft ∷ map run_of d.ip) w (apply p system d w)
  unfolding apply
  apply_system-IsRun d w =
      IsRun-then (preflight p d.guards) _ (checks d.guards) (nft_run d.nft ∷ map run_of d.ip) w
        (preflight-IsRun d.guards w)
        (λ _ v.
          IsRun-then (apply_script p d.nft) _ (nft_run d.nft ∷ []) (map run_of d.ip) v
            (apply_script-IsRun d.nft v) (λ _ v'. apply_cmds-IsRun d.ip v'))

  undo-IsRun :
      (r : Result Error (List IpCmd)) (w : World S)
      → IsRun (undo_runs r) w ((lift r >>= λ cmds. apply_cmds p cmds) w)
  unfolding ◌>>=◌
  undo-IsRun (ok cmds) w = apply_cmds-IsRun cmds w
  undo-IsRun (err e) w = IsRun-nothing (err e) w

  -- `down` runs a first part of this list, in its order, and nothing else, and where it gives ok, the
  -- whole list: the script that deletes the table, also where the removals cannot be built; then
  -- the `ip` commands of `teardown`.
  pub down-IsRun :
      (gws : GatewayList) (w : World S)
      → IsRun (nft_run teardown_script ∷ undo_runs (teardown gws)) w (down p gws w)
  unfolding down
  down-IsRun gws w =
      IsRun-then (apply_script p teardown_script) _ (nft_run teardown_script ∷ [])
        (undo_runs (teardown gws)) w (apply_script-IsRun teardown_script w)
        (λ _ v. undo-IsRun (teardown gws) v)
