-- ===== src/Tests/Witnesses/Policy.antt =====
-- The theorems on what becomes of the host, at a host that obeys.
use degc.Prelude.{none, [], ◌∷◌}
use degc.Text.{str}
use degc.Docker.{ContainerSummary}
use degc.Obs.{initial}
use degc.Enforce.Host.{World}
use degc.Enforce.Backend.{system}
use degc.Enforce.Kernel.{Host}
use degc.Daemon.{Daemon}
use degc.Daemon.Reconcile.{Setup}
use degc.Daemon.Loop
use degc.Plan.Assign.Membership.{destination}
use degc.Prelude.{some}
use degc.Net.{v4}
use degc.Enforce.Filter.{Packet}
use degc.Tests.Data.{libs, vpn, ip}
use degc.Tests.Kernel.{obedient, bare}
use degc.Tests.Witnesses.{both}

abbrev empty : World Host
empty = record { host = bare; trace = [] }

abbrev obeyed : Setup Host
obeyed = record {
  libs = libs;
  programs = obedient;
  enforcer = system;
  label_prefix = str "degc";
  gateways = both;
}

abbrev untouched : Daemon Host
untouched = record { world = empty; metrics = initial; last_fp = none; log = [] }

-- A container that opts into `vpn`.
abbrev member : ContainerSummary
member = record {
  names = some (str "/a" ∷ []);
  labels = some ((str "degc.enable", str "true") ∷ (str "degc.via", str "vpn") ∷ []);
  networks = some (
      (str "services", record { ip_address = some (str "172.18.0.7"); global_ipv6_address = none })
      ∷ []);
}

abbrev alone : Setup Host
alone = record obeyed { gateways = vpn ∷ [] }

-- A packet of the container to an address that is not of the private networks.
abbrev outbound : Packet
outbound = record { source = ip 7; destination = v4 1 1 1 1; mark = 0; leaves_by = [] }
