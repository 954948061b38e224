-- ===== src/Daemon/System/Settling.antt =====
-- The loop comes to rest: its own moves run out.
use degc.Prelude.{
  ℕ, suc, Option, ◌+◌, ◌≤◌, ◌≡◌, ◌⊎◌, refl, Bool, true, false, ◌||◌, some, none, List, [], ◌∷◌, All,
  length, ap, ◌∙◌, sym, subst, arith, inl, inr, if◌then◌else◌,
}
use mathlib.Core.Option.{some-injective}
use degc.Docker.Watch
use degc.Docker.Watch.{Watcher, receive}
use degc.Docker.Watch.Signals.{alive}
use degc.Daemon.{Daemon}
use degc.Obs.{Trigger, startup, event, resync}
use degc.Daemon.Reconcile.{Setup, reconcile}
use degc.Daemon.System.Moves.{Holds}
use degc.Daemon.System.Signals.{IsHeard, is_answering, begun-IsHeard, perform-IsHeard}
use degc.Daemon.System.Answers.{IsOwn}
use degc.Daemon.Loop
use degc.Daemon.Loop.{Reading, reconcile_at, warn_of}
use degc.Daemon.System.{
  Phase, waiting, draining, applying, ended, reconciling, System, Move, only_if, reconcile_in,
  signal, drain, quiet, take_snapshot, finish, perform, performs, begun,
}

-- How many moves of its own the loop has left, where a signal waits in the channel or not.
abbrev pub left : Bool → Phase → ℕ
left q waiting = if q then 4 else 0
left q draining = if q then 4 else 3
left q (reconciling trigger) = if q then 6 else 2
left q applying = if q then 5 else 1
left q ended = 0

abbrev pub left_in : {S : Type 0} → System S → ℕ
left_in s = left s.watcher.queued s.phase

module _ {S : Type 0} (c : Setup S) where
  own_move :
      (m : Move) (q : Bool) (n : ℕ) (phase : Phase) (unasked : Bool) (d : Daemon S)
      → IsOwn m
      → Holds
          (λ t. suc (left_in t) ≡ left q phase)
          (perform c m
            (record { watcher = alive q n; phase = phase; unasked = unasked; daemon = d }))
  unfolding perform Watch.step Watch.live_step
  own_move signal true n waiting unasked d o = refl
  own_move signal false n waiting unasked d o = tt
  own_move signal q n _ unasked d o = tt
  own_move drain true n draining unasked d o = refl
  own_move drain false n draining unasked d o = tt
  own_move drain q n _ unasked d o = tt
  own_move quiet true n draining unasked d o = tt
  own_move quiet false n draining unasked d o = refl
  own_move quiet q n _ unasked d o = tt
  own_move (take_snapshot r) true n (reconciling trigger) unasked d o = refl
  own_move (take_snapshot r) false n (reconciling trigger) unasked d o = refl
  own_move (take_snapshot r) q n _ unasked d o = tt
  own_move finish true n applying unasked d o = refl
  own_move finish false n applying unasked d o = refl
  own_move finish q n _ unasked d o = tt
  own_move _ q n phase unasked d o = elim o [ ]

  own_ended :
      (m : Move) (s : System S)
      → s.phase ≡ ended
      → IsOwn m
      → Holds (λ t. suc (left_in t) ≡ left_in s) (perform c m s)
  unfolding perform
  own_ended m s e o =
      subst
        (λ x.
          Holds (λ t. suc (left_in t) ≡ left s.watcher.queued x)
            (perform c m (record s { phase = x })))
        (sym e) (nothing m o)
    where
      nothing :
          (k : Move)
          → IsOwn k
          → Holds (λ t. suc (left_in t) ≡ 0) (perform c k (record s { phase = ended }))
      nothing signal k = tt
      nothing drain k = tt
      nothing quiet k = tt
      nothing (take_snapshot r) k = tt
      nothing finish k = tt
      nothing _ k = elim k [ ]

  own_spends :
      (m : Move) (s : System S)
      → IsHeard s
      → IsOwn m
      → Holds (λ t. suc (left_in t) ≡ left_in s) (perform c m s)
  own_spends m s (inl e) o = own_ended m s e o
  own_spends m s (inr (q, n, w, k)) o =
      subst
        (λ x.
          Holds (λ t. suc (left_in t) ≡ left x.queued s.phase)
            (perform c m (record s { watcher = x })))
        (sym w) (own_move m q n s.phase s.unasked s.daemon o)

  own_run :
      (moves : List Move) (s t : System S)
      → IsHeard s
      → All IsOwn moves
      → performs c moves s ≡ some t
      → (length moves + left_in t ≡ left_in s) × IsHeard t
  unfolding performs
  own_run [] s t h o e =
      let same_state = some-injective s t e in
      (omega (arith, ap left_in same_state), subst IsHeard same_state h)
  own_run (m ∷ rest) s t h (o, os) e =
      next (perform c m s) (perform-IsHeard c m s h) (own_spends m s h o)
        (λ u k. own_run rest u t k os) e
    where
      next :
          (a : Option (System S))
          → Holds IsHeard a
          → Holds (λ u. suc (left_in u) ≡ left_in s) a
          → ((u : System S)
              → IsHeard u
              → performs c rest u ≡ some t
              → (length rest + left_in t ≡ left_in u) × IsHeard t)
          → elim a [ none ↦ none | some u ↦ performs c rest u ] ≡ some t
          → (suc (length rest) + left_in t ≡ left_in s) × IsHeard t
      next none k spent later e' = cc
      next (some u) k spent later e' =
          let (counted, heard) = later u k e' in (omega (arith, counted, spent), heard)

  left_few : (q : Bool) (phase : Phase) → left q phase ≤ 6
  left_few true waiting = omega arith
  left_few false waiting = omega arith
  left_few true draining = omega arith
  left_few false draining = omega arith
  left_few true (reconciling trigger) = omega arith
  left_few false (reconciling trigger) = omega arith
  left_few true applying = omega arith
  left_few false applying = omega arith
  left_few q ended = omega arith

  -- The loop can make a move of its own.
  abbrev pub CanMove : System S → Type 0
  CanMove s = (m : Move) × (u : System S) × IsOwn m × (perform c m s ≡ some u)

  -- What is left undone, a move of the loop's own can do.
  goes_on :
      (r : Reading) (q : Bool) (n : ℕ) (phase : Phase) (unasked : Bool) (d : Daemon S)
      → CanMove (record { watcher = alive q n; phase = phase; unasked = unasked; daemon = d })
        ⊎ ((phase ≡ ended) ⊎ ((phase ≡ waiting) × (q ≡ false)))
  unfolding perform
  goes_on r true n waiting unasked d = inl (signal, _, tt, refl)
  goes_on r false n waiting unasked d = inr (inr (refl, refl))
  goes_on r true n draining unasked d = inl (drain, _, tt, refl)
  goes_on r false n draining unasked d = inl (quiet, _, tt, refl)
  goes_on r q n (reconciling trigger) unasked d = inl (take_snapshot r, _, tt, refl)
  goes_on r q n applying unasked d = inl (finish, _, tt, refl)
  goes_on r q n ended unasked d = inr (inl refl)

  -- The loop waits, no signal is queued, and it has asked for a snapshot since every relevant event.
  abbrev pub IsAtRest : System S → Type 0
  IsAtRest s = (s.phase ≡ waiting) × (s.watcher.queued ≡ false) × (s.unasked ≡ false)

  heard_all :
      {q : Bool} (unasked : Bool) (phase : Phase)
      → (unasked ≡ true → (q || is_answering phase) ≡ true)
      → phase ≡ waiting
      → q ≡ false
      → unasked ≡ false
  heard_all false phase k p z = refl
  heard_all {q} true phase k p z =
      absurd (let answered = k refl in let asleep = ap is_answering p in ground arith)

  moves_or_rests :
      (r : Reading) (s : System S) → IsHeard s → CanMove s ⊎ ((s.phase ≡ ended) ⊎ IsAtRest s)
  moves_or_rests r s (inl x) = inr (inl x)
  moves_or_rests r s (inr (q, n, w, k)) = elim (goes_on r q n s.phase s.unasked s.daemon) [
    | inl m ↦ inl (subst (λ x. CanMove (record s { watcher = x })) (sym w) m)
    | inr (inl e) ↦ inr (inl e)
    | inr (inr (p, z)) ↦
        inr (inr (p, ap (λ (x : Watcher). x.queued) w ∙ z, heard_all s.unasked s.phase k p z))
  ]

  -- The reconcile for a signal or for an interval; an error is logged.
  abbrev pub reconciled : Trigger → Reading → Daemon S → Daemon S
  reconciled trigger r d = warn_of c (reconcile c trigger r.elapsed r.now r.snapshot d)

  -- The daemon behind the moves is the one before them after one reconcile for each snapshot that
  -- the loop asked for, in their order.
  abbrev pub IsReconciled : List Move → Daemon S → Daemon S → Type 0
  IsReconciled [] d d' = d' ≡ d
  IsReconciled (take_snapshot r ∷ rest) d d' =
      IsReconciled rest (reconciled event r d) d' ⊎ IsReconciled rest (reconciled resync r d) d'
  IsReconciled (_ ∷ rest) d d' = IsReconciled rest d d'

  held : (P : System S → Type 0) (b : Bool) (u : System S) → P u → Holds P (only_if b u)
  held P true u h = h
  held P false u h = tt

  -- What a move adds to those behind it.
  abbrev Adds : Move → System S → System S → Type 0
  Adds m s u =
      (rest : List Move) (d' : Daemon S)
      → IsReconciled rest u.daemon d'
      → IsReconciled (m ∷ rest) s.daemon d'

  reconcile_in-Adds :
      (r : Reading) (s : System S) (phase : Phase)
      → Holds (Adds (take_snapshot r) s) (reconcile_in c phase r s)
  unfolding Loop.wake reconcile_at
  reconcile_in-Adds r s waiting = tt
  reconcile_in-Adds r s draining = tt
  reconcile_in-Adds r s (reconciling event) = λ rest d' k. inl k
  reconcile_in-Adds r s (reconciling resync) = λ rest d' k. inr k
  reconcile_in-Adds r s (reconciling startup) = λ rest d' k. inr k
  reconcile_in-Adds r s applying = tt
  reconcile_in-Adds r s ended = tt

  own-Adds : (m : Move) (s : System S) → IsOwn m → Holds (Adds m s) (perform c m s)
  unfolding perform
  own-Adds signal s o = held (Adds signal s) _ _ (λ rest d' k. k)
  own-Adds drain s o = held (Adds drain s) _ _ (λ rest d' k. k)
  own-Adds quiet s o = held (Adds quiet s) _ _ (λ rest d' k. k)
  own-Adds (take_snapshot r) s o = reconcile_in-Adds r s s.phase
  own-Adds finish s o = held (Adds finish s) _ _ (λ rest d' k. k)
  own-Adds _ s o = elim o [ ]

  own-IsReconciled :
      (moves : List Move) (s t : System S)
      → All IsOwn moves
      → performs c moves s ≡ some t
      → IsReconciled moves s.daemon t.daemon
  unfolding performs
  own-IsReconciled [] s t o e = ap (λ (x : System S). x.daemon) (sym (some-injective s t e))
  own-IsReconciled (m ∷ rest) s t (o, os) e =
      next (perform c m s) (own-Adds m s o) (λ u. own-IsReconciled rest u t os) e
    where
      next :
          (a : Option (System S))
          → Holds (Adds m s) a
          → ((u : System S) → performs c rest u ≡ some t → IsReconciled rest u.daemon t.daemon)
          → elim a [ none ↦ none | some u ↦ performs c rest u ] ≡ some t
          → IsReconciled (m ∷ rest) s.daemon t.daemon
      next none adds later e' = cc
      next (some u) adds later e' = adds rest t.daemon (later u e')

  -- From every state that the watcher and the loop can reach from the start, the loop makes at most
  -- six moves of its own (those that no interval, event, failure of the stream or termination
  -- causes); the daemon behind such moves is the one before them after one reconcile for each
  -- snapshot that the loop asked for; and behind them either it can make one more, or it has ended,
  -- or it waits with no signal queued and has asked for a snapshot since the last relevant event.
  pub begun_settles :
      (d : Daemon S) (earlier moves : List Move) (s t : System S) (r : Reading)
      → performs c earlier (begun d) ≡ some s
      → All IsOwn moves
      → performs c moves s ≡ some t
      → (length moves ≤ 6)
        × IsReconciled moves s.daemon t.daemon
        × (CanMove t ⊎ ((t.phase ≡ ended) ⊎ IsAtRest t))
  begun_settles d earlier moves s t r e own e' =
      let (counted, heard) = own_run moves s t (begun-IsHeard c d earlier s e) own e' in
      (
        omega (arith, counted, left_few s.watcher.queued s.phase),
        own-IsReconciled moves s t own e',
        moves_or_rests r t heard,
      )
