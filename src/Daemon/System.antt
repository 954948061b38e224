-- ===== src/Daemon/System.antt =====
-- `run` of main.rs with the watcher beside it: the moves of the two in any order. `select!`, the
-- drain of `debounce` and a reconcile are moves of the loop; `unasked` says that a relevant
-- event has reached the watcher since the loop last asked Docker for a snapshot, whether or not it
-- was given one.
pub mod Moves
pub mod Signals
pub mod Answers
pub mod Restarts
pub mod Settling
use degc.Prelude.{
  ℕ, Bool, true, false, ◌&&◌, ◌||◌, not, Option, none, some, List, [], ◌∷◌, ◌++◌, ltb,
  if◌then◌else◌,
}
use degc.Obs.{Trigger, event, resync}
use degc.Docker.Watch
use degc.Docker.Watch.{EventMessage, is_relevant, Watcher, started, Input, receive, drop_receiver}
use degc.Obs.Record.{watch_restarted}
use degc.Daemon.{Daemon, warn_resubscribed}
use degc.Daemon.Reconcile.{Setup}
use degc.Daemon.Loop
use degc.Daemon.Loop.{Reading, Wake, shutdown, tick, docker_event, watcher_stopped}

pub data Phase : Type 0 where
  waiting draining applying ended : Phase
  reconciling : Trigger → Phase

pub record System (S : Type 0) : Type 0 where
  pub watcher : Watcher
  pub phase : Phase
  pub unasked : Bool
  pub daemon : Daemon S

-- What Docker does; the branches of `select!`; one more signal within the delay, and the end of it;
-- the snapshot of a reconcile, and its end.
pub data Move : Type 0 where
  docker : EventMessage → Move
  stream_breaks stream_ends : Move
  interval signal terminate renew : Move
  drain quiet : Move
  take_snapshot : Reading → Move
  finish : Move

abbrev pub is_waiting : Phase → Bool
is_waiting waiting = true
is_waiting _ = false

abbrev pub is_draining : Phase → Bool
is_draining draining = true
is_draining _ = false

abbrev pub is_applying : Phase → Bool
is_applying applying = true
is_applying _ = false

-- The branch of `select!` that a reconcile belongs to.
abbrev pub wake_for : Trigger → Reading → Wake
wake_for event r = docker_event r
wake_for _ r = tick r

abbrev pub only_if : {A : Type 0} → Bool → A → Option A
only_if b a = if b then some a else none

module _ {S : Type 0} where
  -- `watch_logger`: each new subscription is counted and logged.
  unfoldable pub on_restart : Daemon S → Daemon S
  on_restart d = record d {
    metrics = watch_restarted d.metrics;
    log = d.log ++ warn_resubscribed ∷ [];
  }

  -- A step of the watcher in which it may call `on_restart`.
  abbrev pub watched : Input → System S → System S
  watched i s =
      let w = Watch.step i s.watcher in
      record s {
        watcher = w;
        daemon = if ltb s.watcher.restarts w.restarts then on_restart s.daemon else s.daemon;
      }

module _ {S : Type 0} (c : Setup S) where
  abbrev pub reconcile_in : Phase → Reading → System S → Option (System S)
  reconcile_in (reconciling trigger) r s = some (record s {
    phase = applying;
    unasked = false;
    daemon = (Loop.wake c (wake_for trigger r) s.daemon).0;
  })
  reconcile_in _ r s = none

  -- A move of the loop is there only where the loop has come to it.
  unfoldable pub perform : Move → System S → Option (System S)
  perform (docker msg) s = some (record s {
    watcher = Watch.step (Watch.event msg) s.watcher;
    unasked = is_relevant msg || s.unasked;
  })
  perform stream_breaks s = some (watched Watch.stream_error s)
  perform stream_ends s = some (watched Watch.stream_end s)
  perform interval s = only_if (is_waiting s.phase) (record s { phase = reconciling resync })
  perform signal s =
      only_if (is_waiting s.phase && s.watcher.queued)
        (record s { phase = draining; watcher = Watch.step receive s.watcher })
  perform terminate s = only_if (is_waiting s.phase) (record s {
    phase = ended;
    watcher = Watch.step drop_receiver s.watcher;
    daemon = (Loop.wake c shutdown s.daemon).0;
  })
  perform renew s =
      only_if (is_waiting s.phase && not s.watcher.queued && s.watcher.stopped)
        (record s { watcher = started; daemon = (Loop.wake c watcher_stopped s.daemon).0 })
  perform drain s =
      only_if (is_draining s.phase && s.watcher.queued)
        (record s { watcher = Watch.step receive s.watcher })
  perform quiet s =
      only_if (is_draining s.phase && not s.watcher.queued) (record s { phase = reconciling event })
  perform (take_snapshot r) s = reconcile_in s.phase r s
  perform finish s = only_if (is_applying s.phase) (record s { phase = waiting })

  unfoldable pub performs : List Move → System S → Option (System S)
  performs [] s = some s
  performs (m ∷ rest) s = elim (perform m s) [ none ↦ none | some t ↦ performs rest t ]

-- After the first reconcile.
abbrev pub begun : {S : Type 0} → Daemon S → System S
begun d = record { watcher = started; phase = waiting; unasked = false; daemon = d }
