-- ===== src/Obs/Record/Counts.antt =====
-- What the counters and the gauges show behind a reconcile.
use degc.Prelude.{
  ℕ, ◌≡◌, ◌≢◌, ◌+◌, refl, Bool, false, ◌&&◌, Option, none, some, List, [], ◌∷◌, ◌++◌, ap, ◌∙◌,
  subst, if◌then◌else◌, Bool-cases, inl, inr, arith,
}
use degc.Text.{Text, str, same}
use degc.Text.Laws.{same_refl, eq_of_same}
use degc.Obs.{Trigger, startup, event, resync, as_str, ReconcileStats, Metrics}
use degc.Obs.Record.{inc, set_gauge, set_available, result_text, record_stats, record_outcome}

-- The value of the counter with these labels; a counter that is not there is 0.
unfoldable pub count_of : Text → Text → List (Text × Text × ℕ) → ℕ
count_of t r [] = 0
count_of t r ((t', r', n) ∷ l) =
    let rest = count_of t r l in if same t' t && same r' r then n else rest

unfoldable pub gauge_of : Text → List (Text × ℕ) → Option ℕ
gauge_of g [] = none
gauge_of g ((h, w) ∷ l) = let rest = gauge_of g l in if same h g then some w else rest

-- The last of the statistics for a name, as a gauge; else what is there already.
unfoldable pub last_up : Text → List (Text × Bool) → Option ℕ → Option ℕ
last_up g [] old = old
last_up g ((name, up) ∷ rest) old =
    last_up g rest (if same name g then some (if up then 1 else 0) else old)

count-inc :
    (t r : Text) (l : List (Text × Text × ℕ)) → count_of t r (inc t r l) ≡ count_of t r l + 1
unfolding count_of inc
count-inc t r [] = rw (same_refl t, same_refl r) refl
count-inc t r ((t', r', n) ∷ l) = elim (Bool-cases (same t' t && same r' r)) [
  | inl e ↦ rw (e, e) refl
  | inr e ↦ rw (e, e) (count-inc t r l)
]

count-inc-other :
    (t r u v : Text) (l : List (Text × Text × ℕ))
    → (same t u && same r v) ≡ false
    → count_of u v (inc t r l) ≡ count_of u v l
unfolding count_of inc
count-inc-other t r u v [] h = rw h refl
count-inc-other t r u v ((t', r', n) ∷ l) h = elim (Bool-cases (same t' t && same r' r)) [
  | inl e ↦ ground (arith, e, h, eq_of_same t' t, eq_of_same r' r)
  | inr e ↦ ground (arith, e, count-inc-other t r u v l h)
]

gauge_of-set_gauge :
    (g name : Text) (v : ℕ) (l : List (Text × ℕ))
    → gauge_of g (set_gauge name v l) ≡ (if same name g then some v else gauge_of g l)
unfolding gauge_of set_gauge
gauge_of-set_gauge g name v [] = refl
gauge_of-set_gauge g name v ((h, w) ∷ l) = elim (Bool-cases (same h name)) [
  | inl e ↦ ground (arith, e, eq_of_same h name)
  | inr e ↦
      ground
        (arith, e, gauge_of-set_gauge g name v l, eq_of_same h g, eq_of_same name g, same_refl name)
]

pub gauge_of-set_available :
    (g : Text) (stats : List (Text × Bool)) (l : List (Text × ℕ))
    → gauge_of g (set_available stats l) ≡ last_up g stats (gauge_of g l)
unfolding set_available last_up
gauge_of-set_available g [] l = refl
gauge_of-set_available g ((name, up) ∷ rest) l =
    gauge_of-set_available g rest _
    ∙ ap (last_up g rest) (gauge_of-set_gauge g name (if up then 1 else 0) l)

-- What a gauge shows behind a reconcile: after a success the statistics alone, after a failure what
-- it showed before.
abbrev pub shown : Text → Option ReconcileStats → Metrics → Option ℕ
shown g none m = gauge_of g m.gateway_available
shown g (some stats) m = last_up g stats.gateways none

-- The labels of the counter, as the metric is documented.
abbrev pub trigger_label : Trigger → Text
trigger_label startup = str "startup"
trigger_label event = str "event"
trigger_label resync = str "resync"

abbrev pub result_label : Option ReconcileStats → Text
result_label none = str "error"
result_label (some stats) = str "success"

trigger_label_lem : (t : Trigger) → as_str t ≡ trigger_label t
unfolding as_str
trigger_label_lem startup = refl
trigger_label_lem event = refl
trigger_label_lem resync = refl

result_label_lem : (o : Option ReconcileStats) → result_text o ≡ result_label o
result_label_lem none = refl
result_label_lem (some stats) = refl

-- With the trigger's and the result's labels.
pub record IsCountedAs (trigger result : Text) (elapsed : ℕ) (o : Option ReconcileStats)
    (m m' : Metrics) : Type 0 where
  pub own : count_of trigger result m'.reconciles ≡ count_of trigger result m.reconciles + 1
  pub others :
      (t r : Text)
      → (trigger ≡ t → result ≢ r)
      → count_of t r m'.reconciles ≡ count_of t r m.reconciles
  pub duration : m'.duration ≡ m.duration ++ elapsed ∷ []
  pub available : (g : Text) → gauge_of g m'.gateway_available ≡ shown g o m
  pub watch_restarts : m'.watch_restarts ≡ m.watch_restarts

not_both : (t u r v : Text) → (t ≡ u → r ≢ v) → (same t u && same r v) ≡ false
not_both t u r v h = elim (Bool-cases (same t u && same r v)) [
  | inl e ↦ absurd (h (eq_of_same t u (ground (arith, e))) (eq_of_same r v (ground (arith, e))))
  | inr e ↦ e
]

abbrev pub IsCounted : Trigger → ℕ → Option ReconcileStats → Metrics → Metrics → Type 0
IsCounted trigger elapsed o m m' =
    IsCountedAs (trigger_label trigger) (result_label o) elapsed o m m'

counted_as :
    (trigger : Trigger) (elapsed now : ℕ) (o : Option ReconcileStats) (m : Metrics)
    → IsCountedAs
        (as_str trigger)
        (result_text o)
        elapsed
        o
        m
        (record_outcome trigger elapsed now o m)
unfolding record_outcome record_stats gauge_of
counted_as trigger elapsed now none m = record {
  own = count-inc (as_str trigger) (result_text none) m.reconciles;
  others = λ t r h.
      count-inc-other (as_str trigger) (result_text none) t r m.reconciles (not_both _ _ _ _ h);
  duration = refl;
  available = λ g. refl;
  watch_restarts = refl;
}
counted_as trigger elapsed now (some stats) m = record {
  own = count-inc (as_str trigger) (result_text (some stats)) m.reconciles;
  others = λ t r h.
      count-inc-other (as_str trigger) (result_text (some stats)) t r m.reconciles
        (not_both _ _ _ _ h);
  duration = refl;
  available = λ g. gauge_of-set_available g stats.gateways [];
  watch_restarts = refl;
}

-- Behind every reconcile the counter of its trigger, `startup`, `event` or `resync`, and of its
-- result, `success` or `error`, is one higher and every other is as it was, its duration is noted
-- last, and the count of the watch's restarts is untouched. The gauge of a gateway shows, after a
-- success, what its statistics say last of the name, and nothing for a name they do not have; after
-- a failure, what it showed before.
pub record_outcome-IsCounted :
    (trigger : Trigger) (elapsed now : ℕ) (o : Option ReconcileStats) (m : Metrics)
    → IsCounted trigger elapsed o m (record_outcome trigger elapsed now o m)
record_outcome-IsCounted trigger elapsed now o m =
    subst (λ t. IsCountedAs t (result_label o) elapsed o m (record_outcome trigger elapsed now o m))
      (trigger_label_lem trigger)
      (subst
        (λ r. IsCountedAs (as_str trigger) r elapsed o m (record_outcome trigger elapsed now o m))
        (result_label_lem o) (counted_as trigger elapsed now o m))
