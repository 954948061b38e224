-- ===== src/Daemon/Commands.antt =====
-- The commands of main.rs, from the environment and the gateways file on.
pub mod Preview
use degc.Prelude.{ℕ, Bool, Option, none, List, [], Result, ok, err}
use degc.Text.{Text}
use degc.Api.{Libs, GatewayList, Error}
use degc.Config.{Environment, Config, from_env}
use degc.Docker.{ContainerSummary, connect}
use degc.Obs.{initial}
use degc.Enforce.Host.{Programs, World, Exec, lift, ◌>>=◌}
use degc.Enforce.Backend.{select, down}
use degc.Daemon.{Daemon}
use degc.Daemon.Reconcile.{Setup}
use degc.Daemon.Start.{FileRead, load_gateways}
use degc.Daemon.Loop
use degc.Daemon.Loop.{Reading, Wake}
use degc.Daemon.Status.{StatusLine, status_in}

abbrev pub newborn : {S : Type 0} → World S → Daemon S
newborn w = record { world = w; metrics = initial; last_fp = none; log = [] }

-- The client for Docker comes after the gateways.
abbrev pub with_client : Result Error (Unit {0}) → GatewayList → Result Error GatewayList
with_client (ok u) gws = ok gws
with_client (err e) gws = err e

abbrev pub connected : Bool → Result Error GatewayList → Result Error GatewayList
connected client (ok gws) = with_client (connect client) gws
connected client (err e) = err e

module _ (libs : Libs) (yaml : Text → Option GatewayList) (var : Environment)
    (files : Text → FileRead) where
  -- The file that the environment names, read and validated.
  unfoldable pub loaded : Result Error GatewayList
  loaded = load_gateways libs yaml (from_env var).gateways_path (files (from_env var).gateways_path)

  abbrev pub status_with :
      Result Error (List ContainerSummary)
      → Result Error GatewayList
      → List StatusLine × Result Error Text
  status_with snapshot (ok gws) = status_in libs (from_env var).label_prefix gws snapshot
  status_with snapshot (err e) = ([], err e)

  unfoldable pub status :
      Bool → Result Error (List ContainerSummary) → List StatusLine × Result Error Text
  status client snapshot = status_with snapshot (connected client loaded)

  module _ {S : Type 0} (p : Programs S) where
    abbrev pub setup_for : Bool → GatewayList → Setup S
    setup_for dry gws = record {
      libs = libs;
      programs = p;
      enforcer = select dry;
      label_prefix = (from_env var).label_prefix;
      gateways = gws;
    }

    abbrev pub run_with :
        Bool
        → Reading
        → List Wake
        → World S
        → Result Error GatewayList
        → Result Error (Unit {0}) × Daemon S
    run_with dry first wakes w (ok gws) = Loop.run (setup_for dry gws) first wakes (newborn w)
    run_with dry first wakes w (err e) = (err e, newborn w)

    -- The gateways, the client, then the first reconcile, then the loop.
    unfoldable pub run :
        Bool → Bool → Reading → List Wake → World S → Result Error (Unit {0}) × Daemon S
    run client dry first wakes w = run_with dry first wakes w (connected client loaded)

    unfoldable pub down_command : Exec S (Unit {0})
    down_command = do gws ← lift loaded; down p gws
