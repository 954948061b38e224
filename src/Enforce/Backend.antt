-- ===== src/Enforce/Backend.antt =====
-- The enforcers of enforce/mod.rs, and `down`.
pub mod Trace
pub mod Loaded
use degc.Prelude.{Bool, true, false, Result, ok, if◌then◌else◌}
use degc.Text.{Text, str}
use degc.Api.{GatewayList}
use degc.Enforce.Host.{Programs, Exec, lift, ◌>>=◌, ◌>>◌}
use degc.Enforce.Route
use degc.Enforce.Route.{teardown}
use degc.Enforce.Route.Preflight.{preflight}
use degc.Enforce.Nft
use degc.Enforce.Nft.{teardown_script}
use degc.Enforce.Compile.{Desired}

pub data Enforcer : Type 0 where
  dry_run system : Enforcer

unfoldable pub select : Bool → Enforcer
select dry = if dry then dry_run else system

unfoldable pub label : Enforcer → Text
label dry_run = str "dry-run"
label system = str "system (nft + ip)"

module _ {S : Type 0} (p : Programs S) where
  -- The log lines are not modelled. A dry run runs nothing.
  unfoldable pub apply : Enforcer → Desired → Exec S (Unit {0})
  apply dry_run desired = lift (ok tt)
  apply system desired = do
    preflight p desired.guards
    Nft.Apply.apply p desired.nft
    Route.Apply.apply p desired.ip

  -- The table goes before the commands are built, so it is gone where a mark is no number.
  unfoldable pub down : GatewayList → Exec S (Unit {0})
  down gws = do
    Nft.Apply.apply p teardown_script
    cmds ← lift (teardown gws)
    Route.Apply.apply p cmds
