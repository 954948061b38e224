-- ===== src/Tests/Witnesses/Runs.antt =====
-- The theorems on what runs beside and around a reconcile, and on what it gives.
use degc.Prelude.{
  ℕ, ◌≡◌, ◌≤◌, ◌⊎◌, length, refl, true, false, none, some, List, [], ◌∷◌, All, Any, err, filter_map,
}
use degc.Text.{Text, str}
use degc.Api.{GatewayList, Error, foreign_occupant}
use degc.Config.{Environment}
use degc.Docker.Watch.{container}
use degc.Plan.Merge.{merge_gateways}
use degc.Plan.Merge.Complete.{IsSettled, IsBlamed, merge_gateways_complete}
use degc.Plan.Compile.{compile as compile_plan}
use degc.Plan.Compile.Routes.{merged_of}
use degc.Plan.Compile.Outcomes.{unresolved_of, conflict_of, HasMembers, compile_outcomes}
use degc.Enforce.Host.{Programs, exited, nft_exited}
use degc.Enforce.Route.Preflight.{preflight}
use degc.Obs.{ReconcileStats, initial, resync}
use degc.Obs.Record.{record_outcome}
use degc.Obs.Record.Counts.{IsCounted, record_outcome-IsCounted}
use degc.Daemon.Start.{FileRead, contents}
use degc.Daemon.System.{System, Move, docker, waiting, performs, begun}
use degc.Daemon.System.Answers.{IsAnswered, begun-IsAnswered}
use degc.Daemon.Commands.{status, run}
use degc.Daemon.Commands.Preview.{IsPreview, status-IsPreview}
use degc.Prelude.{Option}
use degc.Daemon.System.Settling.{IsReconciled, CanMove, IsAtRest, begun_settles}
use degc.Daemon.System.{signal, quiet, ended, stream_breaks, stream_ends, interval, take_snapshot}
use degc.Daemon.System.Moves.{advances}
use degc.Daemon.System.Restarts.{restarts, count_break, IsTallied, begun-IsTallied}
use degc.Enforce.Route.Preflight.Free.{AreFree, preflight_iff}
use degc.Prelude.{◌↔◌, ok}
use degc.Text.{lines}
use degc.Tests.Open.{program}
use degc.Tests.Data.{libs, vpn}
use degc.Tests.Witnesses.{calm, idle, app, setup, fresh, failing, reading, any_document}

abbrev dies : Move
dies = docker (record { typ = some container; action = some (str "die") })

abbrev signalled : System ℕ
signalled = record {
  watcher = record { queued = true; closed = false; stopped = false; restarts = 0 };
  phase = waiting;
  unasked = true;
  daemon = fresh;
}

dies-performs : performs setup (dies ∷ []) (begun fresh) ≡ some signalled
unfolding program
dies-performs = refl

begun-IsAnswered_example : IsAnswered setup reading signalled
begun-IsAnswered_example =
    begun-IsAnswered setup fresh (dies ∷ []) signalled reading dies-performs (λ e. cc) refl

abbrev app_merged : GatewayList
app_merged = merged_of libs (str "degc") app (vpn ∷ [])

compile_outcomes_example :
    ((compile_plan libs app (str "degc") (vpn ∷ [])).unresolved
      ≡ filter_map (unresolved_of (str "degc") app_merged) app)
    × ((compile_plan libs app (str "degc") (vpn ∷ [])).conflicts
        ≡ filter_map (conflict_of (str "degc") app_merged) app)
    × All
        (HasMembers (str "degc") app_merged app)
        (compile_plan libs app (str "degc") (vpn ∷ [])).gateways
compile_outcomes_example = compile_outcomes libs app (str "degc") (vpn ∷ []) (tt, tt)

merge_gateways_complete_example :
    All (IsSettled libs (str "degc") (merge_gateways libs (str "degc") app (vpn ∷ []))) app
    × All
        (λ x. Any (IsBlamed libs (str "degc") x) app)
        (merge_gateways libs (str "degc") app (vpn ∷ [])).errors
merge_gateways_complete_example = merge_gateways_complete libs (str "degc") app (vpn ∷ [])

-- A host that shows a route of another program, whatever it is asked.
abbrev taken_host : Programs ℕ
taken_host = record {
  ip = λ args h. (exited true (str "default via 10.0.0.1 dev eth0\n") [], h);
  nft = λ script h. (nft_exited true [], h);
}

abbrev foreign : Error
foreign = foreign_occupant 200 (str "default via 10.0.0.1 dev eth0")

taken_host-preflight : (preflight taken_host ((str "0x4", 200) ∷ []) idle).0 ≡ err foreign
unfolding program
taken_host-preflight = refl

preflight_iff_example :
    ((preflight taken_host ((str "0x4", 200) ∷ []) idle).0 ≡ ok tt)
    ↔ AreFree taken_host (lines (str "default via 10.0.0.1 dev eth0\n")) ((str "0x4", 200) ∷ []) 0
preflight_iff_example = preflight_iff taken_host ((str "0x4", 200) ∷ []) idle

abbrev one_up : ReconcileStats
one_up = record { members = 2; gateways = (str "vpn", true) ∷ [] }

record_outcome-IsCounted_example :
    IsCounted resync 12
      (some one_up)
      initial
      (record_outcome resync 12 1700000000 (some one_up) initial)
record_outcome-IsCounted_example =
    record_outcome-IsCounted resync 12 1700000000 (some one_up) initial

abbrev pub no_variables : Environment
no_variables key = none

abbrev pub any_file : Text → FileRead
any_file path = contents []

status-IsPreview_example :
    IsPreview calm false idle
      (status libs any_document no_variables any_file true reading.snapshot).1
      (run libs any_document no_variables any_file calm true false reading [] idle)
status-IsPreview_example =
    status-IsPreview libs any_document no_variables any_file true calm false reading idle

-- A break, a reconcile that fails, and the end of the new stream.
abbrev two_breaks : List Move
two_breaks = stream_breaks ∷ interval ∷ take_snapshot failing ∷ stream_ends ∷ []

abbrev broken : Option (System ℕ)
broken = performs setup two_breaks (begun fresh)

abbrev broken_state : System ℕ
broken_state = elim broken [ some s ↦ s | none ↦ begun fresh ]

broken-performs : performs setup two_breaks (begun fresh) ≡ some broken_state
unfolding program
broken-performs = refl

begun-IsTallied_example :
    IsTallied (restarts fresh) (advances count_break two_breaks 0) broken_state
begun-IsTallied_example = begun-IsTallied setup fresh two_breaks broken_state broken-performs

-- The signal, the end of the delay, and the snapshot.
abbrev answer : List Move
answer = signal ∷ quiet ∷ take_snapshot reading ∷ []

abbrev answered : System ℕ
answered = elim (performs setup answer signalled) [ some s ↦ s | none ↦ signalled ]

answer-performs : performs setup answer signalled ≡ some answered
unfolding program
answer-performs = refl

begun_settles_example :
    (length answer ≤ 6)
    × IsReconciled setup answer signalled.daemon answered.daemon
    × (CanMove setup answered ⊎ ((answered.phase ≡ ended) ⊎ IsAtRest setup answered))
begun_settles_example =
    begun_settles setup fresh (dies ∷ []) answer signalled answered reading dies-performs
      (tt, (tt, (tt, tt))) answer-performs
