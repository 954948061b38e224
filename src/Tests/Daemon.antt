-- ===== src/Tests/Daemon.antt =====
-- Tests of status, of the routes of the server and of the system.
use degc.Prelude.{◌≡◌, refl, none, some, [], ◌∷◌}
use degc.Text.{str}
use degc.Docker.Watch.{container}
use degc.Plan.{Plan, unavailable, not_running}
use degc.Obs.{initial}
use degc.Obs.Server.{Body, respond}
use degc.Daemon.Status.{StatusLine, pad_right, status_lines}
use degc.Daemon.System.{Move, docker, signal, drain, performs, begun}
use degc.Tests.Open.{std, program}
use degc.Tests.Data.{libs, vpn, ip}
use degc.Tests.Witnesses.{setup, fresh}

padded : pad_right 5 (str "vpn") ≡ str "vpn  "
unfolding std program
padded = refl

long_names_stay : pad_right 3 (str "home-vpn") ≡ str "home-vpn"
unfolding std program
long_names_stay = refl

abbrev shown : Plan
shown = record {
  gateways =
      record {
        gateway = vpn;
        egress = unavailable (not_running (str "gluetun"));
        members = ip 7 ∷ [];
        member_names = str "a" ∷ [];
      }
      ∷ [];
  unresolved = (str "b", str "nope") ∷ [];
  conflicts = (str "c", str "vpn" ∷ str "work" ∷ []) ∷ [];
  discovery_errors = [];
}

lines_of_status :
    status_lines libs shown
    ≡ StatusLine.plain (
        str
          "# gateway vpn          egress=UNAVAILABLE (gateway container \"gluetun\" not running)  mark=0x4 table=200  members=1")
      ∷ StatusLine.plain (str "#   members: a")
      ∷ StatusLine.plain (str "# WARNING: container \"b\" wants gateway \"nope\" — no such gateway")
      ∷ StatusLine.plain (
          str
            "# WARNING: container \"c\" matches multiple gateway selectors [\"vpn\", \"work\"] — not routed (set degc.via)")
      ∷ []
unfolding std program
lines_of_status = refl

not_ready : respond (λ m. []) (str "/readyz") initial ≡ some (503, Body.plain (str "not ready\n"))
unfolding std program
not_ready = refl

no_route : respond (λ m. []) (str "/") initial ≡ none
unfolding std program
no_route = refl

abbrev starts : Move
starts = docker (record { typ = some container; action = some (str "start") })

-- A signal is not there before the event, nor a second time behind it.
none_yet : performs setup (signal ∷ []) (begun fresh) ≡ none
unfolding std program
none_yet = refl

one_signal : performs setup (starts ∷ starts ∷ signal ∷ drain ∷ []) (begun fresh) ≡ none
unfolding std program
one_signal = refl
