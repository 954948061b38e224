-- ===== src/Tests/Witnesses/Cli.antt =====
-- The theorems on the commands.
use degc.Prelude.{ℕ, ◌≡◌, none, [], ◌∷◌, true, false, err}
use degc.Text.{str}
use degc.Api.{docker_failed}
use degc.Daemon.Loop.{tick}
use degc.Daemon.Cli.{run, validate, Surroundings, main}
use degc.Daemon.Cli.Effects.{IsVerdict, main_observes, validate_foretells}
use degc.Tests.Data.{libs}
use degc.Tests.Witnesses.{calm, idle, reading, failing, any_document}
use degc.Tests.Witnesses.Runs.{no_variables, any_file}

abbrev around : Surroundings ℕ
around = record {
  libs = libs;
  yaml = any_document;
  var = no_variables;
  files = any_file;
  client = true;
  programs = calm;
  first = reading;
  wakes = tick failing ∷ tick reading ∷ [];
  snapshot = reading.snapshot;
  schema = err (docker_failed (str "serializing schema"));
}

main_observes_example : (main around (run true) idle).world ≡ idle
main_observes_example = main_observes around (run true) idle tt

validate_foretells_example :
    IsVerdict around false idle (main around (validate none) idle) (main around (run false) idle)
validate_foretells_example = validate_foretells around false idle
