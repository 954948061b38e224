-- ===== src/Docker/Watch/Signals.antt =====
-- What the watcher keeps: a signal until it is received, and itself as long as someone listens.
use degc.Prelude.{
  ℕ, ◌+◌, ◌≡◌, refl, Bool, true, false, ◌||◌, List, [], ◌∷◌, All, if◌then◌else◌, arith, ap, ◌∙◌,
}
use degc.Docker.Watch.{
  EventMessage, is_relevant, Input, event, stream_error, stream_end, receive, drop_receiver,
  Watcher, send, resubscribe, on_event, live_step, step, run,
}

abbrev pub IsListening : Input → Type 0
IsListening drop_receiver = ⊥
IsListening _ = Unit {0}

-- Whether a signal waits: since the last `receive` a relevant event has come, or one waited before.
abbrev pub is_waiting : List Input → Bool → Bool
is_waiting [] queued = queued
is_waiting (event msg ∷ rest) queued = is_waiting rest (is_relevant msg || queued)
is_waiting (receive ∷ rest) queued = is_waiting rest false
is_waiting (_ ∷ rest) queued = is_waiting rest queued

-- How often the stream broke.
abbrev pub count_breaks : List Input → ℕ
count_breaks [] = 0
count_breaks (stream_error ∷ rest) = 1 + count_breaks rest
count_breaks (stream_end ∷ rest) = 1 + count_breaks rest
count_breaks (_ ∷ rest) = count_breaks rest

-- A task that still runs, for a receiver that still listens.
abbrev pub alive : Bool → ℕ → Watcher
alive queued restarts = record {
  queued = queued;
  closed = false;
  stopped = false;
  restarts = restarts;
}

event_alive : (b q : Bool) (n : ℕ) → (if b then send (alive q n) else alive q n) ≡ alive (b || q) n
unfolding send
event_alive true q n = refl
event_alive false q n = refl

pub on_event-alive :
    (msg : EventMessage) (q : Bool) (n : ℕ)
    → on_event msg (alive q n) ≡ alive (is_relevant msg || q) n
unfolding on_event
on_event-alive msg q n = event_alive (is_relevant msg) q n

-- As long as the receiver listens, the task runs on: it has called `on_restart` once for each break
-- of the stream, and a signal waits exactly where a relevant event has come since the last receive.
pub run-alive :
    (inputs : List Input) (q : Bool) (n : ℕ)
    → All IsListening inputs
    → run inputs (alive q n) ≡ alive (is_waiting inputs q) (n + count_breaks inputs)
unfolding run step live_step resubscribe
run-alive [] q n l = ap (alive q) (omega arith)
run-alive (event msg ∷ rest) q n l =
    ap (run rest) (on_event-alive msg q n) ∙ run-alive rest (is_relevant msg || q) n l.1
run-alive (stream_error ∷ rest) q n l =
    run-alive rest q (n + 1) l.1 ∙ ap (alive (is_waiting rest q)) (omega arith)
run-alive (stream_end ∷ rest) q n l =
    run-alive rest q (n + 1) l.1 ∙ ap (alive (is_waiting rest q)) (omega arith)
run-alive (receive ∷ rest) q n l = run-alive rest false n l.1
run-alive (drop_receiver ∷ rest) q n l = elim l.0 [ ]
