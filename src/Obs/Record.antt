-- ===== src/Obs/Record.antt =====
-- `Metrics::record` and the handlers that read what it wrote.
pub mod Counts
use degc.Prelude.{
  ℕ, ◌+◌, ◌-◌, ◌^◌, Bool, ◌&&◌, Option, none, some, List, [], ◌∷◌, ◌++◌, length, ltb, ◌==◌,
  if◌then◌else◌, is_some,
}
use degc.Text.{Text, str, same}
use degc.Obs.{Trigger, as_str, ReconcileStats, Metrics}

abbrev pub i64_max : ℕ
i64_max = 2 ^ 63 - 1

-- `clamp` and `clamp_u64`
unfoldable pub clamp : ℕ → ℕ
clamp v = if ltb i64_max v then i64_max else v

-- `get_or_create(labels).inc()`
unfoldable pub inc : Text → Text → List (Text × Text × ℕ) → List (Text × Text × ℕ)
inc t r [] = (t, r, 1) ∷ []
inc t r ((t', r', n) ∷ l) =
    let rest = inc t r l in
    if same t' t && same r' r then (t', r', n + 1) ∷ l else (t', r', n) ∷ rest

-- `get_or_create(labels).set(v)`
unfoldable pub set_gauge : Text → ℕ → List (Text × ℕ) → List (Text × ℕ)
set_gauge g v [] = (g, v) ∷ []
set_gauge g v ((h, w) ∷ l) =
    let rest = set_gauge g v l in if same h g then (g, v) ∷ l else (h, w) ∷ rest

unfoldable pub set_available : List (Text × Bool) → List (Text × ℕ) → List (Text × ℕ)
set_available [] l = l
set_available ((name, up) ∷ rest) l = set_available rest (set_gauge name (if up then 1 else 0) l)

abbrev result_text : Option ReconcileStats → Text
result_text o = if is_some o then str "success" else str "error"

-- The gauges of a success; `now` is the clock in seconds.
unfoldable pub record_stats : ℕ → Option ReconcileStats → Metrics → Metrics
record_stats now none m = m
record_stats now (some stats) m = record m {
  members = clamp stats.members;
  gateways = clamp (length stats.gateways);
  gateway_available = set_available stats.gateways [];
  last_success = clamp now;
  ready = 1;
}

-- `Metrics::record`
unfoldable pub record_outcome : Trigger → ℕ → ℕ → Option ReconcileStats → Metrics → Metrics
record_outcome trigger elapsed now outcome m = record_stats now outcome (record m {
  reconciles = inc (as_str trigger) (result_text outcome) m.reconciles;
  duration = m.duration ++ elapsed ∷ [];
})

unfoldable pub watch_restarted : Metrics → Metrics
watch_restarted m = record m { watch_restarts = m.watch_restarts + 1 }

unfoldable pub is_ready : Metrics → Bool
is_ready m = m.ready == 1

-- `/readyz`
unfoldable pub readyz : Metrics → ℕ × Text
readyz m = if is_ready m then (200, str "ok\n") else (503, str "not ready\n")
