-- ===== src/Daemon/Cli.antt =====
-- The command line and `main` of main.rs, behind its parser: one function of the command and of what
-- the process reads, to its result, the host it leaves and what it prints.
pub mod Effects
use degc.Prelude.{ℕ, Bool, Option, none, some, List, [], ◌∷◌, ◌++◌, Result, ok, err, map}
use degc.Text.{Text, str}
use degc.Text.Numbers.{show}
use degc.Api.{Libs, GatewayList, Error}
use degc.Config.{Environment, from_env}
use degc.Docker.{ContainerSummary}
use degc.Enforce.Host.{Programs, World}
use degc.Daemon.{Daemon}
use degc.Daemon.Start.{FileRead, validate_file}
use degc.Daemon.Loop.{Reading, Wake}
use degc.Daemon.Status.{StatusLine, plain}
use degc.Daemon.Commands as Commands
use degc.Daemon.Commands.{down_command}

pub data Command : Type 0 where
  run : Bool → Command
  down status schema : Command
  validate : Option Text → Command

-- The libraries and programs; the environment, the files and whether there is a client for Docker;
-- what the daemon meets, and what `status` reads of Docker. `schema` is the text that schemars and
-- serde_yaml_ng make of the type of the gateways.
pub record Surroundings (S : Type 0) : Type 0 where
  pub libs : Libs
  pub yaml : Text → Option GatewayList
  pub var : Environment
  pub files : Text → FileRead
  pub client : Bool
  pub programs : Programs S
  pub first : Reading
  pub wakes : List Wake
  pub snapshot : Result Error (List ContainerSummary)
  pub schema : Result Error Text

pub record Exit (S : Type 0) : Type 0 where
  pub result : Result Error (Unit {0})
  pub world : World S
  pub printed : List StatusLine

-- A result that is printed where it is ok, behind what is out already. The end of a line is left
-- out; the text of `status` brings its own.
abbrev pub print_ok : {S : Type 0} → World S → List StatusLine → Result Error Text → Exit S
print_ok w before (ok text) = record {
  result = ok tt;
  world = w;
  printed = before ++ plain text ∷ [];
}
print_ok w before (err e) = record { result = err e; world = w; printed = before }

abbrev pub count_text : Result Error ℕ → Result Error Text
count_text (ok n) = ok (str "ok: " ++ show n ++ str " gateway(s) valid")
count_text (err e) = err e

abbrev pub path_or : Text → Option Text → Text
path_or fallback none = fallback
path_or fallback (some path) = path

module _ {S : Type 0} (s : Surroundings S) where
  abbrev pub ran : Bool → World S → Result Error (Unit {0}) × Daemon S
  ran dry w = Commands.run s.libs s.yaml s.var s.files s.programs s.client dry s.first s.wakes w

  abbrev pub validated : Text → Result Error ℕ
  validated path = validate_file s.libs s.yaml path (s.files path)

  unfoldable pub main : Command → World S → Exit S
  main (run dry) w = record { result = (ran dry w).0; world = (ran dry w).1.world; printed = [] }
  main down w =
      let (r, after) = down_command s.libs s.yaml s.var s.files s.programs w in
      record { result = r; world = after; printed = [] }
  main status w =
      let (lines, text) = Commands.status s.libs s.yaml s.var s.files s.client s.snapshot in
      print_ok w lines text
  main schema w = print_ok w [] s.schema
  main (validate path) w =
      print_ok w [] (count_text (validated (path_or (from_env s.var).gateways_path path)))
