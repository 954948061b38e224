-- ===== src/Lib.antt =====
-- degc: routes the traffic of Docker containers through egress gateways, and drops it where the
-- gateway is down. The daemon takes a snapshot of the containers, compiles it with the gateways of
-- the configuration into a plan, compiles the plan into a desired host state, and applies that with
-- the programs `nft` and `ip`.
--
-- Prelude: the names of the library that all parts share, Boolean tests on numbers, lists
--   (Prelude.Lists, Prelude.Search), and fallible code (Prelude.Fallible, for anyhow::Result).
-- Text: texts as lists of code points, and of Rust's library what the code calls: trim, split, lines,
--   UTF-8 lengths (Text.Utf8), numbers in a radix (Text.Numbers), `{:?}` (Text.Debug).
-- Map: BTreeMap and BTreeSet as sorted lists. Net: IpAddr with its parser and its printer.
-- Api, for src/api/v1alpha1/mod.rs: Api.Values (mark_value, table_id, fnv1a, parse_mark),
--   Api.Validate (Gateway::validate), Api.Gateways (Gateways::validate as validate_all, resolve,
--   check_unique_routing, parse_gateways), Api.Labels (opt_in, gateway_name, selectors),
--   Api.Discover (discovered_gateway). Each `ensure!` or `?` is an error value of Api.Error.
-- Docker, for src/docker.rs: list_targets from the answer of the API; Docker.Watch, the task of watch
--   as steps over what the stream and the receiver do.
-- The compiler of src/plan.rs: Plan.Merge (the first loop of compile), Plan.Assign (the second loop and
--   add_member), Plan.Resolve (resolve_egress), Plan.Compile (compile).
-- Enforce, for src/enforce: Enforce.Host (the programs and a trace of what is run), Enforce.Route
--   (build and teardown), Enforce.Route.Preflight, Enforce.Route.Apply, Enforce.Nft (build_script),
--   Enforce.Nft.Apply, Enforce.Compile (compile and Display), Enforce.Backend (the two backends, down).
--   Enforce.Filter is the abstract filter that the script is about: named sets, the rules of the three
--   chains and what they do with a packet (Enforce.Filter.Verdicts, Members, Effects), the filter that a
--   plan means, its text written out (Enforce.Filter.Printed for the rules, Enforce.Filter.Written for
--   the sets and the chains), and that the script is that text (Enforce.Filter.Print).
--   Enforce.Kernel is the abstract host that policy routing is about: blackhole defaults, live default
--   routes and fwmark rules, with the effect of each of degc's commands.
-- Obs, for src/obs.rs: the metrics, Metrics::record, and the routes of serve (Obs.Server).
-- Config, for src/config.rs: from_env and metrics_addr over the variables of the environment.
-- Daemon, for src/main.rs: Daemon.Start (load_gateways, validate), Daemon.Summary (plan_summary),
--   Daemon.Reconcile (reconcile_apply, reconcile), Daemon.Loop (run, by what wakes it),
--   Daemon.System (the loop, debounce included, and the watcher beside it, move by move),
--   Daemon.Status (status), Daemon.Commands (run, status and down from the environment on), Daemon.Cli
--   (main behind its parser of arguments).
-- Tests: the source's own tests, and the theorems at their inputs.
--
-- The programs `ip` and `nft` are functions of the model (Enforce.Host.Programs) that answer a
-- command and change a state of their own. Where a theorem speaks of routes and rules, the record
-- Kernel of Enforce.Kernel is its hypothesis, for the IPv4 routes and rules and for commands given by
-- their words: what the documentation of iproute2 and nftables says of them. A command that succeeds
-- has its effect, and one that fails has none; what it says where it has nothing to do, as that there
-- is such a rule already, is true; showing changes nothing, and nft changes no route or rule. One
-- field is on the host and no documentation: a rule that is added, and a deletion or a flush, fail
-- for no other reason than that there is nothing to do, as where degc may change the routing. That
-- the code's commands have these words, and which failures it lets pass, is proved in
-- Enforce.Kernel.Commands. A default route by an IPv6 next hop is a route of the IPv6 tables, and
-- has no effect there. The theorems on packets say what the filter does whose print the
-- script is; that nft does the same with the text is nft's own documentation and no part of them.
-- In Enforce.Filter rules are tried in order, each that matches applies, and definitions of one set
-- name in one transaction are one set. Which addresses an element of a set covers is a function of
-- the model, for networks too; a theorem that needs it supposes IsExact of Enforce.Filter.Members,
-- that an address as an element covers itself alone. Elsewhere nothing is supposed of them. The
-- parser of IP networks and the table of printable characters are functions too (Api.Libs), and so
-- is the YAML parser of parse_gateways. Clocks and the answers of Docker are inputs.
--
-- Loops over lists are structural recursion. `digits` prints a number n with fuel n, which is
-- enough, since each step divides by a radix of two or more; the readers of addresses count down
-- the digits and groups that the grammar allows. The numbers of the code are u32: fnv1a wraps with
-- `% 2 ^ 32`, and parsers reject what does not fit.
--
-- Not modelled: the parser of the command line, the schema, signal handlers, logging of the
-- backends and the log subscriber, the registry and the encoder of metrics and their TCP listener,
-- and the client of Docker, which are calls of third-party code; the texts of errors, which stay
-- values; and durations: in Daemon.System the quiet delay of debounce ends at any time at which no
-- signal waits, and in Docker.Watch the watcher subscribes again at once.
mod Prelude
pub mod Text
pub mod Map
pub mod Net
pub mod Api
pub mod Docker
pub mod Plan
pub mod Enforce
pub mod Obs
pub mod Config
pub mod Daemon
pub mod Tests
