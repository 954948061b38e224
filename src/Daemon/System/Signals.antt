-- ===== src/Daemon/System/Signals.antt =====
-- No relevant event is lost between the watcher and the loop.
use degc.Prelude.{
  or_true, ℕ, ◌+◌, ◌≡◌, ◌⊎◌, refl, Bool, true, false, ◌&&◌, ◌||◌, not, some, List, ap, ◌∙◌, arith,
  inl, inr,
}
use degc.Docker.Watch
use degc.Docker.Watch.{EventMessage, is_relevant, Watcher, started, receive}
use degc.Docker.Watch.Signals.{alive, on_event-alive}
use degc.Daemon.{Daemon}
use degc.Daemon.Reconcile.{Setup}
use degc.Daemon.System.Moves.{Holds, where_true, performs-Inv}
use degc.Daemon.Loop.{Reading}
use degc.Daemon.System.{
  Phase, waiting, draining, applying, ended, reconciling, System, Move, docker, stream_breaks,
  stream_ends, interval, signal, terminate, renew, drain, quiet, take_snapshot, finish, is_waiting,
  is_draining, is_applying, reconcile_in, perform, performs, begun,
}

-- The loop is on its way to a snapshot.
abbrev pub is_answering : Phase → Bool
is_answering draining = true
is_answering (reconciling trigger) = true
is_answering _ = false

-- Until the loop ends, the watcher runs, and an event that no snapshot has followed waits in the
-- channel, or the loop is on its way to a snapshot.
abbrev pub IsHeard : {S : Type 0} → System S → Type 0
IsHeard s =
    (s.phase ≡ ended)
    ⊎ ((q : Bool) × (n : ℕ) × (s.watcher ≡ alive q n)
        × (s.unasked ≡ true → (q || is_answering s.phase) ≡ true))

draining_answers : (phase : Phase) → is_draining phase ≡ true → is_answering phase ≡ true
draining_answers draining h = refl
draining_answers waiting h = absurd (cc)
draining_answers applying h = absurd (cc)
draining_answers ended h = absurd (cc)
draining_answers (reconciling trigger) h = absurd (cc)

applying_answers_not : (phase : Phase) → is_applying phase ≡ true → is_answering phase ≡ false
applying_answers_not applying h = refl
applying_answers_not waiting h = refl
applying_answers_not draining h = absurd (cc)
applying_answers_not ended h = refl
applying_answers_not (reconciling trigger) h = absurd (cc)

-- The second part of `IsHeard`, in a phase that is not the last.
not_ended :
    {S : Type 0} (s : System S) (test : Phase → Bool)
    → test ended ≡ false
    → test s.phase ≡ true
    → IsHeard s
    → (q : Bool) × (n : ℕ) × (s.watcher ≡ alive q n)
      × (s.unasked ≡ true → (q || is_answering s.phase) ≡ true)
not_ended s test f t (inl e) = absurd (let g : test s.phase ≡ test ended = ap test e in cc)
not_ended s test f t (inr h) = h

module _ {S : Type 0} (c : Setup S) where
  reconcile_in-IsHeard :
      (phase : Phase) (r : Reading) (s : System S)
      → s.phase ≡ phase
      → IsHeard s
      → Holds IsHeard (reconcile_in c phase r s)
  reconcile_in-IsHeard waiting r s e h = tt
  reconcile_in-IsHeard draining r s e h = tt
  reconcile_in-IsHeard applying r s e h = tt
  reconcile_in-IsHeard ended r s e h = tt
  reconcile_in-IsHeard (reconciling trigger) r s e (inl x) = absurd (cc)
  reconcile_in-IsHeard (reconciling trigger) r s e (inr (q, n, w, k)) =
      inr (q, n, w, λ f. absurd (cc))

  pub perform-IsHeard : (m : Move) (s : System S) → IsHeard s → Holds IsHeard (perform c m s)
  unfolding perform Watch.step Watch.live_step Watch.resubscribe
  perform-IsHeard (docker msg) s (inl e) = inl e
  perform-IsHeard (docker msg) s (inr (q, n, w, k)) = inr (
    is_relevant msg || q,
    n,
    ap (Watch.step (Watch.event msg)) w ∙ on_event-alive msg q n,
    λ f. ground (arith, k),
  )
  perform-IsHeard stream_breaks s (inl e) = inl e
  perform-IsHeard stream_breaks s (inr (q, n, w, k)) =
      inr (q, n + 1, ap (Watch.step Watch.stream_error) w, k)
  perform-IsHeard stream_ends s (inl e) = inl e
  perform-IsHeard stream_ends s (inr (q, n, w, k)) =
      inr (q, n + 1, ap (Watch.step Watch.stream_end) w, k)
  perform-IsHeard interval s h =
      where_true IsHeard (is_waiting s.phase) _
        (λ b. let (q, n, w, k) = not_ended s is_waiting refl b h in inr (q, n, w, λ f. or_true q))
  perform-IsHeard signal s h = where_true IsHeard (is_waiting s.phase && s.watcher.queued) _ (λ b.
      let (q, n, w, k) = not_ended s (λ x. is_waiting x && s.watcher.queued) refl b h in
      inr (false, n, ap (Watch.step receive) w, λ f. refl))
  perform-IsHeard terminate s h = where_true IsHeard (is_waiting s.phase) _ (λ b. inl refl)
  perform-IsHeard renew s h =
      where_true IsHeard (is_waiting s.phase && not s.watcher.queued && s.watcher.stopped) _ (λ b.
        let (q, n, w, k) =
          not_ended s (λ x. is_waiting x && not s.watcher.queued && s.watcher.stopped) refl b h in
        absurd (ground (arith, b, ap (λ (x : Watcher). x.stopped) w)))
  perform-IsHeard drain s h = where_true IsHeard (is_draining s.phase && s.watcher.queued) _ (λ b.
      let (q, n, w, k) = not_ended s (λ x. is_draining x && s.watcher.queued) refl b h in
      inr (false, n, ap (Watch.step receive) w, λ f. draining_answers s.phase (ground (arith, b))))
  perform-IsHeard quiet s h =
      where_true IsHeard (is_draining s.phase && not s.watcher.queued) _ (λ b.
        let (q, n, w, k) = not_ended s (λ x. is_draining x && not s.watcher.queued) refl b h in
        inr (q, n, w, λ f. or_true q))
  perform-IsHeard (take_snapshot r) s h = reconcile_in-IsHeard s.phase r s refl h
  perform-IsHeard finish s h = where_true IsHeard (is_applying s.phase) _ (λ b.
      let (q, n, w, k) = not_ended s is_applying refl b h in
      inr (q, n, w, λ f. ground (arith, k f, applying_answers_not s.phase b)))

  performs-IsHeard :
      (moves : List Move) (s t : System S) → IsHeard s → performs c moves s ≡ some t → IsHeard t
  performs-IsHeard moves s t h e =
      performs-Inv c (λ n. IsHeard) (λ m n. n) (λ m n u k. perform-IsHeard m u k) moves 0 s t h e

  -- However the watcher and the loop interleave from the start: until the loop ends, the watcher
  -- runs, and an event that no snapshot has followed waits in the channel, or the loop is on its
  -- way to a snapshot.
  pub begun-IsHeard :
      (d : Daemon S) (moves : List Move) (s : System S)
      → performs c moves (begun d) ≡ some s
      → IsHeard s
  begun-IsHeard d moves s e = performs-IsHeard moves (begun d) s (inr (false, 0, refl, λ f. f)) e
