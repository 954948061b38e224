-- ===== src/Daemon/Cli/Effects.antt =====
-- What the commands leave of the host, and what `validate` says of `run`.
use degc.Prelude.{
  ◌≡◌, refl, Bool, true, false, none, List, [], ◌∷◌, ◌++◌, Result, ok, err, ◌>>=◌, length,
}
use degc.Text.{Text, str}
use degc.Text.Numbers.{show}
use degc.Api.{GatewayList, Error}
use degc.Api.Gateways.{parse_gateways}
use degc.Config.{from_env}
use degc.Enforce.Host.{World}
use degc.Enforce.Backend.{select}
use degc.Daemon.{Daemon}
use degc.Daemon.Start.{FileRead, contents, not_found, read_error, load_gateways, validate_file}
use degc.Daemon.Loop.Keeping.{run_dry}
use degc.Daemon.Status.{StatusLine, plain}
use degc.Daemon.Commands.{newborn, connected, loaded, setup_for, run_with}
use degc.Daemon.Commands as Commands
use degc.Daemon.Cli.{
  Command, run, down, status, schema, validate, Surroundings, Exit, print_ok, count_text, main,
}

-- The commands that only look.
abbrev pub IsObserver : Command → Type 0
IsObserver (run true) = Unit
IsObserver (run false) = ⊥
IsObserver down = ⊥
IsObserver status = Unit
IsObserver schema = Unit
IsObserver (validate path) = Unit

print_ok-world :
    {S : Type 0} (w : World S) (before : List StatusLine) (r : Result Error Text)
    → (print_ok w before r).world ≡ w
print_ok-world w before (ok text) = refl
print_ok-world w before (err e) = refl

module _ {S : Type 0} (s : Surroundings S) where
  -- Every command but `down`, and `run` without `--dry-run`, leaves the host and its trace as they
  -- are, whatever it reads and whichever way it ends.
  pub main_observes : (c : Command) (w : World S) → IsObserver c → (main s c w).world ≡ w
  unfolding main Commands.run select
  main_observes (run true) w o = started (connected s.client (loaded s.libs s.yaml s.var s.files))
    where
      started :
          (r : Result Error GatewayList)
          → (run_with s.libs s.yaml s.var s.files s.programs true s.first s.wakes w r).1.world ≡ w
      started (ok gws) =
          run_dry (setup_for s.libs s.yaml s.var s.files s.programs true gws) s.first s.wakes
            (newborn w) refl
      started (err e) = refl
  main_observes status w o =
      let shown = Commands.status s.libs s.yaml s.var s.files s.client s.snapshot in
      print_ok-world w shown.0 shown.1
  main_observes schema w o = print_ok-world w [] s.schema
  main_observes (validate path) w o = print_ok-world w [] _
  main_observes (run false) w o = elim o [ ]
  main_observes down w o = elim o [ ]

  abbrev ran_on : Result Error (Unit {0}) × Daemon S → Exit S
  ran_on o = record { result = o.0; world = o.1.world; printed = [] }

  -- `run` from where it has its gateways.
  abbrev pub started : Bool → World S → GatewayList → Exit S
  started dry w gws = ran_on (
      run_with s.libs s.yaml s.var s.files s.programs dry s.first s.wakes w
        (connected s.client (ok gws)))

  -- What `validate` of the configured file gives beside what `run` does: the number of gateways with
  -- which `run` goes on; or there is no file, which `run` takes as no gateways; or the same error,
  -- the host as it was.
  pub data IsVerdict (dry : Bool) (w : World S) : Exit S → Exit S → Type 0 where
    accepted :
        (gws : GatewayList)
        → IsVerdict dry w
            (record {
              result = ok tt;
              world = w;
              printed = plain (str "ok: " ++ show (length gws) ++ str " gateway(s) valid") ∷ [];
            })
            (started dry w gws)
    no_file :
        {e : Error}
        → s.files (from_env s.var).gateways_path ≡ not_found
        → IsVerdict dry w (record { result = err e; world = w; printed = [] }) (started dry w [])
    refused :
        {e : Error}
        → IsVerdict dry w
            (record { result = err e; world = w; printed = [] })
            (record { result = err e; world = w; printed = [] })

  -- `validate` without a path foretells what `run` does with the gateways file, with `--dry-run` and
  -- without: where it accepts the file, it prints the number of gateways that `run` goes on
  -- with, to connect to Docker and then to start its daemon; where there is no file it fails, and `run`
  -- goes on with no gateways; and every other failure
  -- of it is the error with which `run` fails, with the host left as it was.
  pub validate_foretells :
      (dry : Bool) (w : World S) → IsVerdict dry w (main s (validate none) w) (main s (run dry) w)
  unfolding main Commands.run loaded load_gateways validate_file
  validate_foretells dry w = verdict (s.files path) refl
    where
      path : Text
      path = (from_env s.var).gateways_path

      checked : FileRead → Exit S
      checked file = print_ok w [] (count_text (validate_file s.libs s.yaml path file))

      entered : FileRead → Exit S
      entered file = ran_on (
          run_with s.libs s.yaml s.var s.files s.programs dry s.first s.wakes w
            (connected s.client (load_gateways s.libs s.yaml path file)))

      parsed :
          (r : Result Error GatewayList)
          → IsVerdict dry w (print_ok w [] (count_text (do gws ← r; ok (length gws)))) (
              ran_on (
                run_with s.libs s.yaml s.var s.files s.programs dry s.first s.wakes w
                  (connected s.client r)))
      parsed (ok gws) = accepted gws
      parsed (err e) = refused

      verdict : (f : FileRead) → s.files path ≡ f → IsVerdict dry w (checked f) (entered f)
      verdict (contents text) q = parsed (parse_gateways s.libs s.yaml text)
      verdict not_found q = no_file q
      verdict read_error q = refused
