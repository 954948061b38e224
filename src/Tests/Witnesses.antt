-- ===== src/Tests/Witnesses.antt =====
-- The theorems at the inputs of the source's own tests.
mod Gateways
mod Policy
mod Runs
mod Filter
mod Cli
use degc.Prelude.{
  ℕ, ◌≡◌, ◌↔◌, ◌+◌, refl, true, false, none, some, List, [], ◌∷◌, ◌++◌, All, Any, In, inl, inr, map,
  ok, err, arith,
}
use degc.Text.{Text, str}
use degc.Net.{IpAddr, v6}
use degc.Api.{Gateway, GatewayList}
use degc.Api.Values.{parse_mark, mark_value}
use degc.Api.Validate.{validate}
use degc.Api.Validate.WellFormed.{IsWellFormed, validate_iff}
use degc.Api.Gateways.{check_unique_routing, validate_all}
use degc.Api.Gateways.Unique.{IsUnique, check_unique_routing_iff}
use degc.Api.Gateways.Document.{IsDocument, HasOwnNames, validate_all_iff}
use degc.Api.Values.Bounds.{parse_mark-mark_text}
use degc.Plan.{Plan, GatewayPlan, Egress, interface, unavailable, not_running}
use degc.Plan.Merge.{merge_gateways}
use degc.Plan.Merge.Names.{Declares, merge_gateways_sound}
use degc.Plan.Compile.{compile as compile_plan}
use degc.Plan.Compile.Routes.{IsRouted, merged_of, compile_routes}
use degc.Enforce.Host.{Programs, World, exited, nft_exited, nft_run}
use degc.Enforce.Route.{
  IpCmd, build, teardown, mark_text, blackhole_cmd, rule_cmd, egress_cmd, rule_del_cmd, flush_cmd,
}
use degc.Enforce.Route.Order.{table_of, build_floor_first}
use degc.Enforce.Route.FailClosed.{IsLive, IsUniquePlan, build_fail_closed}
use degc.Enforce.Route.Undo.{IsUndone, teardown-build}
use degc.Enforce.Route.Preflight.{preflight}
use degc.Enforce.Nft.{build_script}
use degc.Enforce.Nft.KillSwitch.{IsGuarded, build_script-IsGuarded}
use degc.Enforce.Compile.{Desired, compile}
use degc.Enforce.Compile.Total.{compile_iff}
use degc.Enforce.Backend.{apply, system}
use degc.Enforce.Backend.Trace.{IsRun, checks, run_of, apply_system-IsRun}
use degc.Docker.{Target}
use degc.Docker.Watch.{Input, event, stream_error, container, run}
use degc.Docker.Watch.Signals.{is_waiting, count_breaks, alive, run-alive}
use degc.Obs.{initial, startup}
use degc.Daemon.{Daemon}
use degc.Daemon.Reconcile.{Setup}
use degc.Daemon.Loop
use degc.Daemon.Loop.{Reading, tick, reconcile_at}
use degc.Daemon.Loop.Ready.{IsReady, run-IsReady}
use degc.Api.Values.{table_id}
use degc.Api.Values.Effective.{validate-mark_value}
use degc.Plan.Resolve.{resolve_egress}
use degc.Plan.Resolve.Source.{IsSource, resolve_egress-IsSource}
use degc.Enforce.Backend.{down}
use degc.Enforce.Backend.Trace.{undo_runs, down-IsRun}
use degc.Enforce.Nft.{teardown_script}
use degc.Api.Labels.{selector_matches}
use degc.Api.Labels.Matches.{Carries, selector_matches_iff}
use degc.Api.{Labels, Selector, docker_failed}
use degc.Prelude.{◌<◌, ◌^◌, ◌≢◌, true}
use degc.Tests.Data.{gateway, via_container}
use degc.Prelude.{◌≤◌, if◌then◌else◌, Option, none, some}
use degc.Text.{same}
use degc.Config.{Environment, from_env}
use degc.Config.Bounds.{from_env_bounds}
use degc.Daemon.Start.{contents, load_gateways}
use degc.Daemon.Start.Loaded.{load_gateways-IsDocument}
use degc.Tests.Open.{program}
use degc.Tests.Data.{libs, vpn, work, target, ip}

-- A host on which every command succeeds and prints nothing; it counts them.
abbrev pub calm : Programs ℕ
calm = record {
  ip = λ args h. (exited true [] [], h + 1);
  nft = λ script h. (nft_exited true [], h + 1);
}

abbrev pub idle : World ℕ
idle = record { host = 0; trace = [] }

abbrev planned : Gateway → Egress → List IpAddr → GatewayPlan
planned gw egress members = record {
  gateway = gw;
  egress = egress;
  members = members;
  member_names = [];
}

abbrev pub plan_of : List GatewayPlan → Plan
plan_of gps = record { gateways = gps; unresolved = []; conflicts = []; discovery_errors = [] }

abbrev pub up : GatewayPlan
up = planned vpn (interface (str "wg0")) (ip 7 ∷ v6 0xfd00 0 0 0 0 0 0 1 ∷ [])

abbrev pub other : Gateway
other = record work { mark = some (str "0x5"); table = some 201 }

abbrev pub lost : GatewayPlan
lost = planned other (unavailable (not_running (str "gluetun"))) []

abbrev pub two : Plan
two = plan_of (up ∷ lost ∷ [])

abbrev two_cmds : List IpCmd
two_cmds =
    blackhole_cmd (str "200")
    ∷ rule_cmd (str "0x4") (str "200")
    ∷ egress_cmd (str "200") (interface (str "wg0"))
    ∷ blackhole_cmd (str "201")
    ∷ rule_cmd (str "0x5") (str "201")
    ∷ egress_cmd (str "201") lost.egress
    ∷ []

abbrev pub two_undo : List IpCmd
two_undo =
    rule_del_cmd (str "0x4") (str "200")
    ∷ flush_cmd (str "200")
    ∷ rule_del_cmd (str "0x5") (str "201")
    ∷ flush_cmd (str "201")
    ∷ []

two-build : build two ≡ ok two_cmds
unfolding program
two-build = refl

pub two-teardown : teardown (vpn ∷ other ∷ []) ≡ ok two_undo
unfolding program
two-teardown = refl

two-IsUnique : IsUniquePlan two
unfolding program
two-IsUnique = (check_unique_routing_iff (vpn ∷ other ∷ [])).0 refl

abbrev pub both : GatewayList
both = vpn ∷ work ∷ []

abbrev pub app : List Target
app =
    target "gluetun" (ip 5) ((str "degc.gateway", str "home") ∷ [])
    ∷ target "a" (ip 7) ((str "degc.enable", str "true") ∷ (str "degc.via", str "home") ∷ [])
    ∷ target "b" (ip 8) ((str "degc.enable", str "true") ∷ (str "degc.via", str "vpn") ∷ [])
    ∷ []

compile_iff_example : ((d : Desired) × (compile libs two ≡ ok d)) ↔ IsUniquePlan two
compile_iff_example = compile_iff libs two

build_floor_first_example : In (blackhole_cmd (str "200")) (blackhole_cmd (str "200") ∷ [])
build_floor_first_example =
    build_floor_first two two_cmds (blackhole_cmd (str "200") ∷ []) _ (str "0x4") (str "200")
      two-build refl

build_fail_closed_example : ¬ Any (IsLive (table_of lost)) two_cmds
build_fail_closed_example =
    build_fail_closed two two_cmds lost (not_running (str "gluetun")) two-build two-IsUnique
      (inr (inl refl)) refl

teardown-build_example :
    All (IsUndone two_cmds two_undo) two.gateways
    × All (λ (c : IpCmd). c.ignore_fail ≡ true) two_undo
teardown-build_example = teardown-build two two_cmds two_undo two-build two-teardown

abbrev guards : List (Text × ℕ)
guards = (str "0x4", 200) ∷ (str "0x5", 201) ∷ []

calm-preflight : (preflight calm guards idle).0 ≡ ok tt
unfolding program
calm-preflight = refl

abbrev desired : Desired
desired = record {
  warnings = [];
  nft = str "add table inet degc\n";
  ip = two_cmds;
  guards = guards;
}

apply_system-IsRun_example :
    IsRun
      (checks guards ++ nft_run desired.nft ∷ map run_of two_cmds)
      idle
      (apply calm system desired idle)
apply_system-IsRun_example = apply_system-IsRun calm desired idle

abbrev pub two_script : Text
two_script = elim (build_script libs two) [ ok s ↦ s | err e ↦ [] ]

pub two-script : build_script libs two ≡ ok two_script
unfolding program
two-script = refl

abbrev start_event : Input
start_event = event (record { typ = some container; action = some (str "start") })

run-alive_example :
    run (start_event ∷ stream_error ∷ []) (alive false 0)
    ≡ alive
        (is_waiting (start_event ∷ stream_error ∷ []) false)
        (0 + count_breaks (start_event ∷ stream_error ∷ []))
run-alive_example = run-alive (start_event ∷ stream_error ∷ []) false 0 (tt, (tt, tt))

abbrev pub setup : Setup ℕ
setup = record {
  libs = libs;
  programs = calm;
  enforcer = system;
  label_prefix = str "degc";
  gateways = both;
}

abbrev pub fresh : Daemon ℕ
fresh = record { world = idle; metrics = initial; last_fp = none; log = [] }

abbrev pub reading : Reading
reading = record { elapsed = 3; now = 1700000000; snapshot = ok [] }

abbrev pub failing : Reading
failing = record {
  elapsed = 3;
  now = 1700000030;
  snapshot = err (docker_failed (str "listing containers"));
}

started : (reconcile_at setup startup reading fresh).0 ≡ ok tt
unfolding program
started = refl

run-IsReady_example :
    ((Loop.run setup reading (tick failing ∷ []) fresh).0 ≡ ok tt)
    × IsReady (Loop.run setup reading (tick failing ∷ []) fresh).1
run-IsReady_example = run-IsReady setup reading (tick failing ∷ []) fresh started

down-IsRun_example :
    IsRun (nft_run teardown_script ∷ undo_runs (teardown both)) idle (down calm both idle)
down-IsRun_example = down-IsRun calm both idle

-- A parser for which every text is the document of both gateways.
abbrev pub any_document : Text → Option GatewayList
any_document text = some both
