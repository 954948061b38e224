-- ===== src/Daemon/System/Restarts.antt =====
-- The metric of the watcher's new subscriptions.
use degc.Prelude.{
  ℕ, ◌+◌, ◌≡◌, ◌⊎◌, refl, Bool, true, false, ◌&&◌, ◌||◌, not, some, List, Result, ok, err, ap, ◌∙◌,
  arith, inl, inr, Bool-cases, ltb, if◌then◌else◌,
}
use degc.Api.{Error}
use degc.Docker.{ContainerSummary}
use degc.Docker.Watch
use degc.Docker.Watch.{is_relevant, Watcher, receive, Input, stream_error, stream_end}
use degc.Docker.Watch.Signals.{alive, on_event-alive}
use degc.Plan.{Plan}
use degc.Obs.{Trigger, startup, event, resync}
use degc.Obs.Record.{watch_restarted}
use degc.Obs.Record.Counts.{record_outcome-IsCounted}
use degc.Enforce.Compile.{Desired}
use degc.Daemon.{Daemon}
use degc.Daemon.Summary.{plan_summary}
use degc.Daemon.Reconcile.{
  Setup, is_last, to_option, note_summary, after_apply, apply_desired, reconcile_apply, reconcile,
}
use degc.Daemon.Loop
use degc.Daemon.Loop.{Reading, reconcile_at, warn_of, docker_event, tick}
use degc.Daemon.System.{
  Phase, waiting, draining, applying, ended, reconciling, System, Move, docker, stream_breaks,
  stream_ends, interval, signal, terminate, renew, drain, quiet, take_snapshot, finish, is_waiting,
  is_draining, is_applying, wake_for, reconcile_in, on_restart, watched, perform, performs, begun,
}
use degc.Daemon.System.Moves.{Holds, where_true, advances, performs-Inv}

-- What the metric shows.
abbrev pub restarts : {S : Type 0} → Daemon S → ℕ
restarts d = d.metrics.watch_restarts

-- A break of the stream counts, by an error or by its end.
abbrev pub count_break : Move → ℕ → ℕ
count_break stream_breaks n = n + 1
count_break stream_ends n = n + 1
count_break _ n = n

-- Until the loop ends, the watcher and the metric have counted the same breaks.
abbrev pub IsTallied : {S : Type 0} → ℕ → ℕ → System S → Type 0
IsTallied base n s =
    (s.phase ≡ ended) ⊎ ((q : Bool) × (s.watcher ≡ alive q n) × (restarts s.daemon ≡ base + n))

module _ {S : Type 0} (c : Setup S) where
  restarts-after_apply :
      (trigger : Trigger) (plan : Plan) (o : Result Error (Unit {0})) (d : Daemon S)
      → restarts (after_apply trigger plan o d).1 ≡ restarts d
  unfolding after_apply note_summary
  restarts-after_apply trigger plan (err e) d = refl
  restarts-after_apply trigger plan (ok u) d =
      elim (Bool-cases (is_last d.last_fp (plan_summary plan))) [
        | inl e ↦ rw e refl
        | inr e ↦ rw e refl
      ]

  restarts-apply_desired :
      (trigger : Trigger) (plan : Plan) (r : Result Error Desired) (d : Daemon S)
      → restarts (apply_desired c trigger plan r d).1 ≡ restarts d
  unfolding apply_desired
  restarts-apply_desired trigger plan (err e) d = refl
  restarts-apply_desired trigger plan (ok desired) d = restarts-after_apply trigger plan _ _

  restarts-reconcile_apply :
      (trigger : Trigger) (snapshot : Result Error (List ContainerSummary)) (d : Daemon S)
      → restarts (reconcile_apply c trigger snapshot d).1 ≡ restarts d
  unfolding reconcile_apply
  restarts-reconcile_apply trigger (err e) d = refl
  restarts-reconcile_apply trigger (ok containers) d = restarts-apply_desired trigger _ _ d

  restarts-reconcile :
      (trigger : Trigger) (elapsed now : ℕ) (snapshot : Result Error (List ContainerSummary))
      (d : Daemon S)
      → restarts (reconcile c trigger elapsed now snapshot d).1 ≡ restarts d
  unfolding reconcile
  restarts-reconcile trigger elapsed now snapshot d =
      let (outcome, d') = reconcile_apply c trigger snapshot d in
      (record_outcome-IsCounted trigger elapsed now (to_option outcome) d'.metrics).watch_restarts
      ∙ restarts-reconcile_apply trigger snapshot d

  restarts-warn_of :
      (o : Result Error (Unit {0}) × Daemon S) → restarts (warn_of c o) ≡ restarts o.1
  restarts-warn_of (ok u, d) = refl
  restarts-warn_of (err e, d) = refl

  restarts-wake :
      (trigger : Trigger) (r : Reading) (d : Daemon S)
      → restarts (Loop.wake c (wake_for trigger r) d).0 ≡ restarts d
  unfolding Loop.wake reconcile_at
  restarts-wake event r d =
      restarts-warn_of _ ∙ restarts-reconcile event r.elapsed r.now r.snapshot d
  restarts-wake startup r d =
      restarts-warn_of _ ∙ restarts-reconcile resync r.elapsed r.now r.snapshot d
  restarts-wake resync r d =
      restarts-warn_of _ ∙ restarts-reconcile resync r.elapsed r.now r.snapshot d

  running :
      (base n : ℕ) (s : System S) (test : Phase → Bool)
      → test ended ≡ false
      → test s.phase ≡ true
      → IsTallied base n s
      → (q : Bool) × (s.watcher ≡ alive q n) × (restarts s.daemon ≡ base + n)
  running base n s test f t (inl e) = absurd (let g : test s.phase ≡ test ended = ap test e in cc)
  running base n s test f t (inr h) = h

  -- The metric behind a break.
  restarts_behind : Watcher → Watcher → Daemon S → ℕ
  restarts_behind w v d = restarts (if ltb w.restarts v.restarts then on_restart d else d)

  restarts-break :
      (q : Bool) (base n : ℕ) (d : Daemon S)
      → restarts d ≡ base + n
      → restarts_behind (alive q n) (alive q (n + 1)) d ≡ base + (n + 1)
  unfolding on_restart watch_restarted restarts_behind
  restarts-break q base n d h =
      let less : ltb n (n + 1) ≡ true = ground arith in rw less (omega (arith, h))

  watched-IsTallied :
      (i : Input) (base n : ℕ) (s : System S)
      → ((q : Bool) → Watch.step i (alive q n) ≡ alive q (n + 1))
      → IsTallied base n s
      → IsTallied base (n + 1) (watched i s)
  unfolding restarts_behind
  watched-IsTallied i base n s breaks (inl e) = inl e
  watched-IsTallied i base n s breaks (inr (q, w, k)) = inr (
    q,
    ap (Watch.step i) w ∙ breaks q,
    ap (λ (x : Watcher). restarts_behind x (Watch.step i x) s.daemon) w
        ∙ ap (λ (x : Watcher). restarts_behind (alive q n) x s.daemon) (breaks q)
        ∙ restarts-break q base n s.daemon k,
  )

  reconcile_in-IsTallied :
      (base n : ℕ) (phase : Phase) (r : Reading) (s : System S)
      → s.phase ≡ phase
      → IsTallied base n s
      → Holds (IsTallied base n) (reconcile_in c phase r s)
  reconcile_in-IsTallied base n waiting r s e h = tt
  reconcile_in-IsTallied base n draining r s e h = tt
  reconcile_in-IsTallied base n applying r s e h = tt
  reconcile_in-IsTallied base n ended r s e h = tt
  reconcile_in-IsTallied base n (reconciling trigger) r s e (inl x) = absurd (cc)
  reconcile_in-IsTallied base n (reconciling trigger) r s e (inr (q, w, k)) =
      inr (q, w, restarts-wake trigger r s.daemon ∙ k)

  perform-IsTallied :
      (base : ℕ) (m : Move) (n : ℕ) (s : System S)
      → IsTallied base n s
      → Holds (IsTallied base (count_break m n)) (perform c m s)
  unfolding perform Watch.step Watch.live_step Watch.resubscribe
  perform-IsTallied base (docker msg) n s (inl e) = inl e
  perform-IsTallied base (docker msg) n s (inr (q, w, k)) =
      inr (is_relevant msg || q, ap (Watch.step (Watch.event msg)) w ∙ on_event-alive msg q n, k)
  perform-IsTallied base stream_breaks n s h = watched-IsTallied stream_error base n s (λ q. refl) h
  perform-IsTallied base stream_ends n s h = watched-IsTallied stream_end base n s (λ q. refl) h
  perform-IsTallied base interval n s h =
      where_true (IsTallied base n) (is_waiting s.phase) _
        (λ b. inr (running base n s is_waiting refl b h))
  perform-IsTallied base signal n s h =
      where_true (IsTallied base n) (is_waiting s.phase && s.watcher.queued) _ (λ b.
        let (q, w, k) = running base n s (λ x. is_waiting x && s.watcher.queued) refl b h in
        inr (false, ap (Watch.step receive) w, k))
  perform-IsTallied base terminate n s h =
      where_true (IsTallied base n) (is_waiting s.phase) _ (λ b. inl refl)
  perform-IsTallied base renew n s h =
      where_true (IsTallied base n)
        (is_waiting s.phase && not s.watcher.queued && s.watcher.stopped) _
        (λ b.
          let (q, w, k) =
            running base n s (λ x. is_waiting x && not s.watcher.queued && s.watcher.stopped) refl b
              h in
          absurd (ground (arith, b, ap (λ (x : Watcher). x.stopped) w)))
  perform-IsTallied base drain n s h =
      where_true (IsTallied base n) (is_draining s.phase && s.watcher.queued) _ (λ b.
        let (q, w, k) = running base n s (λ x. is_draining x && s.watcher.queued) refl b h in
        inr (false, ap (Watch.step receive) w, k))
  perform-IsTallied base quiet n s h =
      where_true (IsTallied base n) (is_draining s.phase && not s.watcher.queued) _
        (λ b. inr (running base n s (λ x. is_draining x && not s.watcher.queued) refl b h))
  perform-IsTallied base (take_snapshot r) n s h = reconcile_in-IsTallied base n s.phase r s refl h
  perform-IsTallied base finish n s h =
      where_true (IsTallied base n) (is_applying s.phase) _
        (λ b. inr (running base n s is_applying refl b h))

  -- However the watcher and the loop interleave from the start: until the loop ends, the metric of
  -- restarts is higher by the number of breaks of the event stream, whatever reconciles come between,
  -- and the watcher runs and has counted as many.
  pub begun-IsTallied :
      (d : Daemon S) (moves : List Move) (s : System S)
      → performs c moves (begun d) ≡ some s
      → IsTallied (restarts d) (advances count_break moves 0) s
  begun-IsTallied d moves s e =
      performs-Inv c (IsTallied (restarts d)) count_break (perform-IsTallied (restarts d)) moves 0
        (begun d) s (inr (false, refl, omega arith)) e
