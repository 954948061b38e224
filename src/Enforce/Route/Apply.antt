-- ===== src/Enforce/Route/Apply.antt =====
-- `apply` of enforce/route.rs: the commands in their order, up to the first that fails.
use degc.Prelude.{◌&&◌, not, List, [], ◌∷◌, Result, ok, err, if◌then◌else◌}
use degc.Text.{trim}
use degc.Api.{Error, ip_spawn, ip_failed}
use degc.Enforce.Host.{Programs, Output, not_spawned, exited, Exec, lift, run_ip, ◌>>◌}
use degc.Enforce.Route.{IpCmd}

-- A command that was not spawned fails also where a failure is expected.
unfoldable pub judge : IpCmd → Output → Result Error (Unit {0})
judge c not_spawned = err (ip_spawn c.args)
judge c (exited success out e) =
    if not success && not c.ignore_fail then err (ip_failed c.args (trim e)) else ok tt

module _ {S : Type 0} (p : Programs S) where
  unfoldable pub run_cmd : IpCmd → Exec S (Unit {0})
  run_cmd c w = let (o, w') = run_ip p c.args w in (judge c o, w')

  unfoldable pub apply : List IpCmd → Exec S (Unit {0})
  apply [] = lift (ok tt)
  apply (c ∷ rest) = do run_cmd c; apply rest
