-- ===== src/Enforce/Kernel/Run.antt =====
-- The runs of degc on the host, by the effect of the commands that were run.
use degc.Prelude.{
  is_some, ℕ, ◌≡◌, refl, true, false, Option, none, some, List, [], ◌∷◌, ◌++◌, append_assoc,
  append-nil, Result, ok, err, ap, ◌∙◌, sym, subst, map,
}
use degc.Text.{Text}
use degc.Api.{Error}
use degc.Enforce.Host.{
  Programs, Output, not_spawned, exited, World, Exec, lift, continue, run_ip, run_nft, ◌>>=◌,
}
use degc.Enforce.Route.Apply.{apply as apply_cmds, run_cmd, judge}
use degc.Text.Numbers.{show}
use degc.Api.{GatewayList, foreign_occupant, fwmark_taken}
use degc.Enforce.Route.{IpCmd, teardown}
use degc.Enforce.Route.Preflight.{
  preflight, preflight_each, ip_show, refuse, show_rules, show_table, foreign_route,
  conflicting_fwmark_rule,
}
use degc.Enforce.Nft.{teardown_script}
use degc.Enforce.Nft.Apply.{apply as apply_script}
use degc.Enforce.Compile.{Desired}
use degc.Enforce.Backend.{apply, system, down}
use degc.Enforce.Kernel.Commands.{cmd_of, cmd_of-words, cmd_of-complaint}
use degc.Enforce.Kernel.{Host, Command, effect, effects, succeeded, words, complaint, Kernel}
use degc.Enforce.Backend.Trace.{IsDone}

effects-append :
    (xs ys : List Command) (h : Host) → effects (xs ++ ys) h ≡ effects ys (effects xs h)
effects-append [] ys h = refl
effects-append (x ∷ xs) ys h = effects-append xs ys (effect x h)

module _ {S : Type 0} {p : Programs S} (k : Kernel p) where
  -- A first part of the commands had its effect, and nothing else; where all is well it is all of them.
  pub record IsEffect {A : Type 0} (commands : List Command) (w : World S)
      (o : Result Error A × World S) : Type 0 where
    pub ran : List Command
    pub left : List Command
    pub all_commands : commands ≡ ran ++ left
    pub view : k.view o.1.host ≡ effects ran (k.view w.host)
    pub complete : IsDone o.0 → left ≡ []

  then_step :
      {A B : Type 0} (f : A → Exec S B) (xs ys : List Command) (w : World S) (r : Result Error A)
      (w' : World S)
      → IsEffect xs w (r, w')
      → ((a : A) (v : World S) → IsEffect ys v (f a v))
      → IsEffect (xs ++ ys) w (continue r f w')
  then_step f xs ys w (err e) w' first later = record {
    ran = first.ran;
    left = first.left ++ ys;
    all_commands = ap (λ l. l ++ ys) first.all_commands ∙ append_assoc first.ran first.left ys;
    view = first.view;
    complete = λ b. elim b [ ];
  }
  then_step f xs ys w (ok a) w' first later =
      let done = later a w' in
      let whole =
        first.all_commands ∙ ap (λ l. first.ran ++ l) (first.complete tt) ∙ append-nil first.ran in
      record {
        ran = first.ran ++ done.ran;
        left = done.left;
        all_commands =
            ap (λ l. l ++ ys) whole
            ∙ ap (λ l. first.ran ++ l) done.all_commands
            ∙ sym (append_assoc first.ran done.ran done.left);
        view =
            done.view
            ∙ ap (effects done.ran) first.view
            ∙ sym (effects-append first.ran done.ran (k.view w.host));
        complete = done.complete;
      }

  pub IsEffect-then :
      {A B : Type 0} (m : Exec S A) (f : A → Exec S B) (xs ys : List Command) (w : World S)
      → IsEffect xs w (m w)
      → ((a : A) (v : World S) → IsEffect ys v (f a v))
      → IsEffect (xs ++ ys) w ((m >>= f) w)
  unfolding ◌>>=◌
  IsEffect-then m f xs ys w first later = then_step f xs ys w (m w).0 (m w).1 first later

  -- What changes nothing that is seen.
  pub IsEffect-nothing :
      {A : Type 0} (w : World S) (o : Result Error A × World S)
      → k.view o.1.host ≡ k.view w.host
      → IsEffect [] w o
  IsEffect-nothing w o e = record {
    ran = [];
    left = [];
    all_commands = refl;
    view = e;
    complete = λ _. refl;
  }

  one_effect :
      {A : Type 0} (c : Command) (w : World S) (o : Result Error A × World S)
      → k.view o.1.host ≡ effect c (k.view w.host)
      → IsEffect (c ∷ []) w o
  one_effect c w o e = record {
    ran = c ∷ [];
    left = [];
    all_commands = refl;
    view = e;
    complete = λ _. refl;
  }

  no-IsEffect :
      (c : Command) (e : Error) (w w' : World S)
      → k.view w'.host ≡ k.view w.host
      → IsEffect {A = Unit {0}} (c ∷ []) w (err e, w')
  no-IsEffect c e w w' same = record {
    ran = [];
    left = c ∷ [];
    all_commands = refl;
    view = same;
    complete = λ b. elim b [ ];
  }

  -- By the answer of the command and by whether it may have nothing to do.
  judged :
      (c : Command) (args : List Text) (w w' : World S) (o : Output) (said : Option Text)
      → (p.ip (words c) w.host).0 ≡ o
      → (p.ip (words c) w.host).1 ≡ w'.host
      → complaint c ≡ said
      → IsEffect (c ∷ []) w (judge (record { args = args; ignore_fail = is_some said }) o, w')
  unfolding judge
  judged c args w w' not_spawned said a h i =
      no-IsEffect c _ w w' (ap k.view (sym h) ∙ k.has_none c w.host (ap succeeded a))
  judged c args w w' (exited true out e) said a h i =
      one_effect c w (ok tt, w') (ap k.view (sym h) ∙ k.has_effect c w.host (ap succeeded a))
  judged c args w w' (exited false out e) (some message) a h i =
      one_effect c w (ok tt, w')
        (ap k.view (sym h)
          ∙ k.has_none c w.host (ap succeeded a)
          ∙ sym (k.nothing_to_do c w.host message i a (k.no_other c w.host message i a)))
  judged c args w w' (exited false out e) none a h i =
      no-IsEffect c _ w w' (ap k.view (sym h) ∙ k.has_none c w.host (ap succeeded a))

  run_cmd-IsEffect : (c : Command) (w : World S) → IsEffect (c ∷ []) w (run_cmd p (cmd_of c) w)
  unfolding run_cmd run_ip
  run_cmd-IsEffect c w =
      let documented : IpCmd = record { args = words c; ignore_fail = is_some (complaint c) } in
      let code : documented ≡ cmd_of c =
        λ i. record { args = sym (cmd_of-words c) i; ignore_fail = sym (cmd_of-complaint c) i } in
      subst (λ x. IsEffect (c ∷ []) w (run_cmd p x w)) code
        (judged c (words c) w _ _ (complaint c) refl refl refl)

  -- `apply` of enforce/route.rs on the commands of a list of effects.
  pub apply_cmds-IsEffect :
      (cs : List Command) (w : World S) → IsEffect cs w (apply_cmds p (map cmd_of cs) w)
  unfolding apply_cmds
  apply_cmds-IsEffect [] w = IsEffect-nothing w _ refl
  apply_cmds-IsEffect (c ∷ cs) w =
      IsEffect-then (run_cmd p (cmd_of c)) (λ _. apply_cmds p (map cmd_of cs)) (c ∷ []) cs w
        (run_cmd-IsEffect c w) (λ _ v. apply_cmds-IsEffect cs v)

  apply_script-IsEffect : (script : Text) (w : World S) → IsEffect [] w (apply_script p script w)
  unfolding apply_script run_nft
  apply_script-IsEffect script w = IsEffect-nothing w _ (k.nft_keeps script w.host)

  preflight_each-IsEffect :
      (rules : Text) (guards : List (Text × ℕ)) (w : World S)
      → IsEffect [] w (preflight_each p rules guards w)
  unfolding preflight_each ip_show run_ip
  preflight_each-IsEffect rules [] w = IsEffect-nothing w _ refl
  preflight_each-IsEffect rules ((mark, table) ∷ rest) w =
      IsEffect-then (ip_show p (show_table table)) _ [] [] w
        (IsEffect-nothing w _ (k.show_table_reads table w.host))
        (λ routes v.
          IsEffect-then (lift (refuse (foreign_route routes) (foreign_occupant table))) _ [] [] v
            (IsEffect-nothing v _ refl)
            (λ _ v'.
              IsEffect-then
                (lift
                  (refuse (conflicting_fwmark_rule rules mark (show table)) (fwmark_taken mark)))
                _ [] [] v' (IsEffect-nothing v' _ refl)
                (λ _ v''. preflight_each-IsEffect rules rest v'')))

  preflight-IsEffect :
      (guards : List (Text × ℕ)) (w : World S) → IsEffect [] w (preflight p guards w)
  unfolding preflight ip_show run_ip
  preflight-IsEffect guards w =
      IsEffect-then (ip_show p show_rules) _ [] [] w
        (IsEffect-nothing w _ (k.show_rules_reads w.host))
        (λ rules v. preflight_each-IsEffect rules guards v)

  -- The system backend, where its `ip` commands are those of a list of effects.
  pub apply_system-IsEffect :
      (d : Desired) (cs : List Command) (w : World S)
      → d.ip ≡ map cmd_of cs
      → IsEffect cs w (apply p system d w)
  unfolding apply
  apply_system-IsEffect d cs w e =
      IsEffect-then (preflight p d.guards) _ [] cs w (preflight-IsEffect d.guards w) (λ _ v.
        IsEffect-then (apply_script p d.nft) _ [] cs v (apply_script-IsEffect d.nft v) (λ _ v'.
          subst (λ l. IsEffect cs v' (apply_cmds p l v')) (sym e) (apply_cmds-IsEffect cs v')))

  lifted-IsEffect :
      (cs : List Command) (w : World S)
      → IsEffect cs w ((lift (ok (map cmd_of cs)) >>= λ cmds. apply_cmds p cmds) w)
  unfolding ◌>>=◌
  lifted-IsEffect cs w = apply_cmds-IsEffect cs w

  -- `down`, where the removals can be built.
  pub down-IsEffect :
      (gws : GatewayList) (cs : List Command) (w : World S)
      → teardown gws ≡ ok (map cmd_of cs)
      → IsEffect cs w (down p gws w)
  unfolding down
  down-IsEffect gws cs w e =
      IsEffect-then (apply_script p teardown_script) _ [] cs w
        (apply_script-IsEffect teardown_script w)
        (λ _ v.
          subst (λ r. IsEffect cs v ((lift r >>= λ cmds. apply_cmds p cmds) v)) (sym e)
            (lifted-IsEffect cs v))
