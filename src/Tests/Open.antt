-- ===== src/Tests/Open.antt =====
-- The definitions that a test computes through, behind two names.
unfoldable pub std : Unit {0}
unfolding degc.Map.get degc.Map.insert degc.Map.remove degc.Map.insert_all degc.Map.add
    degc.Map.add_all degc.Map.has degc.Net.is_ipv4 degc.Net.is_ipv6 degc.Net.Parse.parse
    degc.Net.Print.print degc.Prelude.all degc.Prelude.any degc.Prelude.find degc.Prelude.filter
    degc.Prelude.flat_map degc.Prelude.filter_map degc.Text.same degc.Text.before
    degc.Text.trim_start degc.Text.trim degc.Text.split_by degc.Text.split_once
    degc.Text.split_whitespace degc.Text.lines degc.Text.strip_prefix degc.Text.starts_with
    degc.Text.contains degc.Text.join degc.Text.concat degc.Text.Chars.is_whitespace
    degc.Text.Chars.is_ascii_alphanumeric degc.Text.Chars.to_digit degc.Text.Chars.digit_char
    degc.Text.Debug.escape_debug degc.Text.Debug.debug degc.Text.Numbers.scan
    degc.Text.Numbers.scan_all degc.Text.Numbers.from_str_radix degc.Text.Numbers.digits
    degc.Text.Numbers.show_radix degc.Text.Utf8.encode degc.Text.Utf8.bytes
    degc.Text.Utf8.byte_length
std = tt

unfoldable pub program : Unit {0}
unfolding std degc.Api.Discover.field degc.Api.Discover.snat_knob degc.Api.Discover.table_knob
    degc.Api.Discover.subnets_knob degc.Api.Discover.members_knob degc.Api.Discover.default_knob
    degc.Api.Discover.declared degc.Api.Discover.discovered_gateway degc.Api.Gateways.check_unique
    degc.Api.Gateways.check_unique_routing degc.Api.Gateways.validate_each
    degc.Api.Gateways.validate_all degc.Api.Gateways.parse_gateways degc.Api.Gateways.resolve
    degc.Api.Labels.has_label degc.Api.Labels.opt_in degc.Api.Labels.gateway_name
    degc.Api.Labels.selector_matches degc.Api.Labels.parse_selector_label
    degc.Api.Validate.ifname_char degc.Api.Validate.valid_ifname degc.Api.Validate.kinds
    degc.Api.Validate.check_mark degc.Api.Validate.check_table degc.Api.Validate.check_interface
    degc.Api.Validate.check_next_hop degc.Api.Validate.check_subnets
    degc.Api.Validate.check_selectors degc.Api.Validate.validate degc.Api.Values.fnv1a
    degc.Api.Values.auto_mark degc.Api.Values.auto_table degc.Api.Values.parse_trimmed
    degc.Api.Values.parse_mark degc.Api.Values.mark_value degc.Api.Values.table_id
    degc.Api.Values.snat_enabled degc.Api.Values.local_subnets_effective degc.Config.env
    degc.Config.env_u64 degc.Config.from_env degc.Config.metrics_addr degc.Daemon.Cli.main
    degc.Daemon.Commands.loaded degc.Daemon.Commands.status degc.Daemon.Commands.run
    degc.Daemon.Commands.down_command degc.Daemon.Loop.reconcile_at degc.Daemon.Loop.wake
    degc.Daemon.Loop.loop degc.Daemon.Loop.enter degc.Daemon.Loop.run degc.Daemon.Reconcile.warnings
    degc.Daemon.Reconcile.note_summary degc.Daemon.Reconcile.after_apply
    degc.Daemon.Reconcile.apply_desired degc.Daemon.Reconcile.reconcile_apply
    degc.Daemon.Reconcile.reconcile degc.Daemon.Start.load_gateways degc.Daemon.Start.validate_file
    degc.Daemon.Status.pad_right degc.Daemon.Status.debug_list degc.Daemon.Status.status_egress
    degc.Daemon.Status.gateway_lines degc.Daemon.Status.unresolved_line
    degc.Daemon.Status.conflict_line degc.Daemon.Status.status_lines degc.Daemon.Status.status_in
    degc.Daemon.Summary.egress_text degc.Daemon.Summary.gateway_part
    degc.Daemon.Summary.plan_summary degc.Daemon.Summary.member_count
    degc.Daemon.Summary.is_available degc.Daemon.Summary.stats_of degc.Daemon.System.on_restart
    degc.Daemon.System.perform degc.Daemon.System.performs degc.Docker.trim_slashes
    degc.Docker.endpoint_addresses degc.Docker.attached degc.Docker.to_target
    degc.Docker.list_targets degc.Docker.Watch.is_relevant degc.Docker.Watch.send
    degc.Docker.Watch.resubscribe degc.Docker.Watch.on_event degc.Docker.Watch.live_step
    degc.Docker.Watch.step degc.Docker.Watch.run degc.Enforce.Backend.select
    degc.Enforce.Backend.label degc.Enforce.Backend.apply degc.Enforce.Backend.down
    degc.Enforce.Compile.warning degc.Enforce.Compile.guards_from degc.Enforce.Compile.compile
    degc.Enforce.Compile.print_cmd degc.Enforce.Compile.print degc.Enforce.Filter.marks_of
    degc.Enforce.Filter.filter_for degc.Enforce.Filter.Verdicts.six_drops degc.Enforce.Host.◌>>=◌
    degc.Enforce.Host.run_ip degc.Enforce.Host.run_nft degc.Enforce.Nft.sanitize_char
    degc.Enforce.Nft.sanitize degc.Enforce.Nft.emit_set degc.Enforce.Nft.excl_clause
    degc.Enforce.Nft.snat_rule degc.Enforce.Nft.kill_rule degc.Enforce.Nft.locals
    degc.Enforce.Nft.kill6 degc.Enforce.Nft.marked_rules degc.Enforce.Nft.gateway_rules
    degc.Enforce.Nft.rules_from degc.Enforce.Nft.table_text degc.Enforce.Nft.build_script
    degc.Enforce.Nft.Apply.judge degc.Enforce.Nft.Apply.apply degc.Enforce.Route.mark_text
    degc.Enforce.Route.blackhole_cmd degc.Enforce.Route.rule_cmd degc.Enforce.Route.egress_cmd
    degc.Enforce.Route.build_from degc.Enforce.Route.build degc.Enforce.Route.rule_del_cmd
    degc.Enforce.Route.flush_cmd degc.Enforce.Route.teardown_from degc.Enforce.Route.teardown
    degc.Enforce.Route.Apply.judge degc.Enforce.Route.Apply.run_cmd degc.Enforce.Route.Apply.apply
    degc.Enforce.Route.Preflight.is_foreign degc.Enforce.Route.Preflight.foreign_route
    degc.Enforce.Route.Preflight.position degc.Enforce.Route.Preflight.token_after
    degc.Enforce.Route.Preflight.unmasked degc.Enforce.Route.Preflight.is_conflict
    degc.Enforce.Route.Preflight.conflict_in degc.Enforce.Route.Preflight.conflicting_fwmark_rule
    degc.Enforce.Route.Preflight.ip_show degc.Enforce.Route.Preflight.preflight_each
    degc.Enforce.Route.Preflight.preflight degc.Obs.as_str degc.Obs.Record.clamp degc.Obs.Record.inc
    degc.Obs.Record.set_gauge degc.Obs.Record.set_available degc.Obs.Record.record_stats
    degc.Obs.Record.record_outcome degc.Obs.Record.watch_restarted degc.Obs.Record.is_ready
    degc.Obs.Record.readyz degc.Obs.Record.Counts.count_of degc.Obs.Record.Counts.gauge_of
    degc.Obs.Record.Counts.last_up degc.Obs.Server.metrics_handler degc.Obs.Server.respond
    degc.Plan.Assign.add_member degc.Plan.Assign.selected degc.Plan.Assign.place_opted
    degc.Plan.Assign.place_selected degc.Plan.Assign.place_member degc.Plan.Assign.place
    degc.Plan.Assign.assign degc.Plan.Compile.gateway_plans degc.Plan.Compile.compile
    degc.Plan.Merge.is_known degc.Plan.Merge.egress_container degc.Plan.Merge.declare
    degc.Plan.Merge.merge degc.Plan.Merge.merge_gateways degc.Plan.Resolve.addresses
    degc.Plan.Resolve.is_match degc.Plan.Resolve.gateway_container_ip degc.Plan.Resolve.static_hop
    degc.Plan.Resolve.container_hop degc.Plan.Resolve.by_container degc.Plan.Resolve.by_next_hop
    degc.Plan.Resolve.by_interface degc.Plan.Resolve.resolve_egress degc.Plan.Resolve.why
program = tt
