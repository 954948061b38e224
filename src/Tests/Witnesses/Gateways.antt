-- ===== src/Tests/Witnesses/Gateways.antt =====
-- The theorems on gateways, labels, the plan and the configuration.
use degc.Prelude.{ℕ, ◌≡◌, ◌↔◌, refl, true, none, some, [], ◌∷◌, ◌++◌, All, Any, map, ok, arith}
use degc.Text.{str}
use degc.Api.{GatewayList}
use degc.Api.Values.{parse_mark, mark_value}
use degc.Api.Validate.{validate}
use degc.Api.Validate.WellFormed.{IsWellFormed, validate_iff}
use degc.Api.Gateways.{validate_all}
use degc.Api.Gateways.Document.{IsDocument, HasOwnNames, validate_all_iff}
use degc.Api.Values.Bounds.{parse_mark-mark_text}
use degc.Plan.{GatewayPlan}
use degc.Plan.Merge.{merge_gateways}
use degc.Plan.Merge.Names.{Declares, merge_gateways_sound}
use degc.Plan.Compile.{compile as compile_plan}
use degc.Plan.Compile.Routes.{IsRouted, merged_of, compile_routes}
use degc.Enforce.Route.{mark_text}
use degc.Api.Values.{table_id}
use degc.Api.Values.Effective.{validate-mark_value}
use degc.Plan.Resolve.{resolve_egress}
use degc.Plan.{next_hop}
use degc.Plan.Resolve.Exact.{IsResolved, resolve_egress_iff}
use degc.Api.{same_table}
use degc.Api.Gateways.Faults.{IsFault, validate_all-IsFault}
use degc.Api.Labels.{selector_matches}
use degc.Api.Labels.Matches.{Carries, selector_matches_iff}
use degc.Api.{Labels, Selector}
use degc.Prelude.{◌<◌, ◌^◌, ◌≢◌, true}
use degc.Tests.Data.{gateway, via_container}
use degc.Prelude.{◌≤◌, if◌then◌else◌, none, some}
use degc.Text.{same}
use degc.Config.{Environment, from_env}
use degc.Config.Bounds.{from_env_bounds}
use degc.Daemon.Start.{contents, load_gateways}
use degc.Daemon.Start.Loaded.{load_gateways-IsDocument}
use degc.Tests.Open.{program}
use degc.Tests.Data.{libs, vpn, work, ip}
use degc.Prelude.{err}
use degc.Tests.Witnesses.{both, app, any_document}

validate_iff_example : (validate libs vpn ≡ ok tt) ↔ IsWellFormed libs vpn
validate_iff_example = validate_iff libs vpn

validate_all_iff_example : (validate_all libs both ≡ ok tt) ↔ IsDocument libs both
validate_all_iff_example = validate_all_iff libs both

parse_mark-mark_text_example : parse_mark (mark_text 0x1234) ≡ some 0x1234
parse_mark-mark_text_example = parse_mark-mark_text 0x1234 (omega arith)

merge_gateways_sound_example :
    (added : GatewayList) × ((merge_gateways libs (str "degc") app (vpn ∷ [])).gateways
      ≡ vpn ∷ [] ++ added)
    × All (λ g. Any (Declares libs (str "degc") g) app × IsWellFormed libs g) added
    × HasOwnNames (vpn ∷ [] ++ added)
merge_gateways_sound_example = merge_gateways_sound libs (str "degc") app (vpn ∷ []) (tt, tt)

compile_routes_example :
    (map (λ (p : GatewayPlan). p.gateway) (compile_plan libs app (str "degc") (vpn ∷ [])).gateways
      ≡ merged_of libs (str "degc") app (vpn ∷ []))
    × All
        (IsRouted (str "degc") (merged_of libs (str "degc") app (vpn ∷ [])) app)
        (compile_plan libs app (str "degc") (vpn ∷ [])).gateways
compile_routes_example = compile_routes libs app (str "degc") (vpn ∷ []) (tt, tt)

vpn-validates : validate libs vpn ≡ ok tt
unfolding program
vpn-validates = refl

validate-mark_value_example :
    (mark : ℕ) × (mark_value vpn ≡ ok mark) × (0 < mark) × (mark < 2 ^ 32) × (0 < table_id vpn)
validate-mark_value_example = validate-mark_value libs vpn vpn-validates

abbrev web : Selector
web = (str "app", str "web") ∷ []

abbrev web_labels : Labels
web_labels = (str "app", str "web") ∷ (str "tier", str "front") ∷ []

selector_matches_iff_example :
    (selector_matches web web_labels ≡ true) ↔ ((web ≢ []) × All (Carries web_labels) web)
selector_matches_iff_example = selector_matches_iff web web_labels

-- An environment that sets the interval to 0.
abbrev eager : Environment
eager key = if same key (str "DEGC_RESYNC_INTERVAL") then some (str "0") else none

from_env_bounds_example :
    (1 ≤ (from_env eager).resync_interval)
    × ((from_env eager).resync_interval < 2 ^ 64)
    × ((from_env eager).debounce < 2 ^ 64)
from_env_bounds_example = from_env_bounds eager

both-loads : load_gateways libs any_document (str "gateways.yaml") (contents []) ≡ ok both
unfolding program
both-loads = refl

load_gateways-IsDocument_example : IsDocument libs both
load_gateways-IsDocument_example =
    load_gateways-IsDocument libs any_document (str "gateways.yaml") (contents []) both both-loads

-- The container runs, as the Compose service of the name or under it.
resolve_egress_iff_example :
    (resolve_egress (gateway (str "home") (via_container "gluetun")) app ≡ next_hop (ip 5))
    ↔ IsResolved (gateway (str "home") (via_container "gluetun")) app (next_hop (ip 5))
resolve_egress_iff_example =
    resolve_egress_iff (gateway (str "home") (via_container "gluetun")) app (next_hop (ip 5))

abbrev same_tables : GatewayList
same_tables = vpn ∷ record work { table = some 200 } ∷ []

same_tables-err : validate_all libs same_tables ≡ err (same_table (str "vpn") (str "work") 200)
unfolding program
same_tables-err = refl

validate_all-IsFault_example : IsFault libs same_tables (same_table (str "vpn") (str "work") 200)
validate_all-IsFault_example = validate_all-IsFault libs same_tables same_tables-err
