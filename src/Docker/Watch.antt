-- ===== src/Docker/Watch.antt =====
-- `watch` and `is_relevant` of docker.rs: the task behind the channel of one place.
pub mod Signals
use degc.Prelude.{
  ℕ, zero, suc, ◌+◌, Bool, true, false, ◌&&◌, ◌||◌, not, Option, none, some, List, [], ◌∷◌,
  if◌then◌else◌,
}
use degc.Text.{Text, str, same}

pub data EventType : Type 0 where
  container other : EventType

pub record EventMessage : Type 0 where
  pub typ : Option EventType
  pub action : Option Text

abbrev is_container : Option EventType → Bool
is_container none = false
is_container (some container) = true
is_container (some other) = false

abbrev is_lifecycle : Option Text → Bool
is_lifecycle none = false
is_lifecycle (some a) = same a (str "start") || same a (str "die") || same a (str "destroy")

unfoldable pub is_relevant : EventMessage → Bool
is_relevant msg = is_container msg.typ && is_lifecycle msg.action

-- What the task meets: an event, an error of the stream, its end, and the receiver's own moves.
pub data Input : Type 0 where
  event : EventMessage → Input
  stream_error stream_end : Input
  receive drop_receiver : Input

-- A signal waits in the channel, the receiver is gone, the task has returned; `restarts` counts the
-- calls of `on_restart`.
pub record Watcher : Type 0 where
  pub queued : Bool
  pub closed : Bool
  pub stopped : Bool
  pub restarts : ℕ

abbrev pub started : Watcher
started = record { queued = false; closed = false; stopped = false; restarts = 0 }

-- `try_send` fails where a signal waits or the receiver is gone; only the latter ends the task.
unfoldable pub send : Watcher → Watcher
send w = if w.closed then record w { stopped = true } else record w { queued = true }

-- A stream that broke is opened again, unless nobody listens.
unfoldable pub resubscribe : Watcher → Watcher
resubscribe w =
    if w.closed then record w { stopped = true } else record w { restarts = w.restarts + 1 }

unfoldable pub on_event : EventMessage → Watcher → Watcher
on_event msg w = if is_relevant msg then send w else w

unfoldable pub live_step : Input → Watcher → Watcher
live_step (event msg) w = on_event msg w
live_step stream_error w = resubscribe w
live_step stream_end w = resubscribe w
live_step receive w = record w { queued = false }
live_step drop_receiver w = record w { closed = true }

-- After it has returned, the task does nothing.
unfoldable pub step : Input → Watcher → Watcher
step i w = if w.stopped then w else live_step i w

unfoldable pub run : List Input → Watcher → Watcher
run [] w = w
run (i ∷ rest) w = run rest (step i w)
