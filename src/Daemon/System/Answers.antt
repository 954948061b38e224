-- ===== src/Daemon/System/Answers.antt =====
-- A relevant event that no snapshot has followed leads to a reconcile.
use degc.Prelude.{
  ℕ, ◌≤◌, ◌≡◌, ◌≢◌, refl, Bool, true, false, ◌||◌, some, List, [], ◌∷◌, All, length, sym, subst,
  arith, inl, inr,
}
use degc.Obs.{Trigger, event}
use degc.Docker.Watch
use degc.Docker.Watch.{EventMessage, is_relevant, Watcher, started, receive}
use degc.Docker.Watch.Signals.{alive}
use degc.Daemon.{Daemon}
use degc.Daemon.Reconcile.{Setup}
use degc.Daemon.System.Signals.{is_answering, begun-IsHeard}
use degc.Daemon.Loop
use degc.Daemon.Loop.{Reading}
use degc.Daemon.System.{
  Phase, waiting, draining, applying, ended, reconciling, System, Move, signal, drain, quiet,
  take_snapshot, finish, wake_for, perform, performs, begun,
}

-- The moves by which the loop gets to the snapshot, without an interval.
abbrev pub IsOwn : Move → Type 0
IsOwn signal = Unit
IsOwn drain = Unit
IsOwn quiet = Unit
IsOwn (take_snapshot r) = Unit
IsOwn finish = Unit
IsOwn _ = ⊥

module _ {S : Type 0} (c : Setup S) where
  -- A few moves of the loop's own lead to a snapshot, and to the reconcile of what it reads.
  pub record IsAnswered (r : Reading) (s : System S) : Type 0 where
    pub moves : List Move
    pub own : All IsOwn moves
    pub few : length moves ≤ 4
    pub trigger : Trigger
    pub last : System S
    pub performed : performs c moves s ≡ some last
    pub fresh : last.unasked ≡ false
    pub reconciled : last.daemon ≡ (Loop.wake c (wake_for trigger r) s.daemon).0

  in_phase :
      (r : Reading) (q : Bool) (n : ℕ) (phase : Phase) (unasked : Bool) (d : Daemon S)
      → phase ≢ ended
      → (q || is_answering phase) ≡ true
      → IsAnswered r (record { watcher = alive q n; phase = phase; unasked = unasked; daemon = d })
  unfolding performs perform Watch.step Watch.live_step
  in_phase r true n waiting unasked d e h = record {
    moves = signal ∷ quiet ∷ take_snapshot r ∷ [];
    own = (tt, (tt, (tt, tt)));
    few = omega arith;
    trigger = event;
    last = _;
    performed = refl;
    fresh = refl;
    reconciled = refl;
  }
  in_phase r false n waiting unasked d e h = absurd (cc)
  in_phase r true n draining unasked d e h = record {
    moves = drain ∷ quiet ∷ take_snapshot r ∷ [];
    own = (tt, (tt, (tt, tt)));
    few = omega arith;
    trigger = event;
    last = _;
    performed = refl;
    fresh = refl;
    reconciled = refl;
  }
  in_phase r false n draining unasked d e h = record {
    moves = quiet ∷ take_snapshot r ∷ [];
    own = (tt, (tt, tt));
    few = omega arith;
    trigger = event;
    last = _;
    performed = refl;
    fresh = refl;
    reconciled = refl;
  }
  in_phase r true n applying unasked d e h = record {
    moves = finish ∷ signal ∷ quiet ∷ take_snapshot r ∷ [];
    own = (tt, (tt, (tt, (tt, tt))));
    few = omega arith;
    trigger = event;
    last = _;
    performed = refl;
    fresh = refl;
    reconciled = refl;
  }
  in_phase r false n applying unasked d e h = absurd (cc)
  in_phase r q n (reconciling trigger) unasked d e h = record {
    moves = take_snapshot r ∷ [];
    own = (tt, tt);
    few = omega arith;
    trigger = trigger;
    last = _;
    performed = refl;
    fresh = refl;
    reconciled = refl;
  }
  in_phase r q n ended unasked d e h = absurd (e refl)

  -- In every state that the watcher and the loop can reach from the start, as long as the loop has
  -- not ended, a relevant event that no snapshot has followed is answered: at most four moves of
  -- the loop's own lead to a reconcile of a snapshot, whatever that reads.
  pub begun-IsAnswered :
      (d : Daemon S) (moves : List Move) (s : System S) (r : Reading)
      → performs c moves (begun d) ≡ some s
      → s.phase ≢ ended
      → s.unasked ≡ true
      → IsAnswered r s
  begun-IsAnswered d moves s r e live unasked = elim (begun-IsHeard c d moves s e) [
    | inl x ↦ absurd (live x)
    | inr (q, n, w, k) ↦
        subst (λ x. IsAnswered r (record s { watcher = x })) (sym w)
          (in_phase r q n s.phase s.unasked s.daemon live (k unasked))
  ]
