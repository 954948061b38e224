-- ===== src/Config/Bounds.antt =====
-- The ranges of the settings.
use degc.Prelude.{ℕ, ◌<◌, ◌≤◌, ◌^◌, Option, none, some, arith}
use degc.Text.{Text, str}
use degc.Text.Numbers.Fits.{Fits, from_str_radix-Fits}
use degc.Config.{Environment, parsed, at_least_one, env_u64, from_env}

parsed-Fits : (o : Option Text) → Fits 64 (parsed o)
parsed-Fits none = tt
parsed-Fits (some v) = from_str_radix-Fits 64 10 v (omega arith)

or_fallback :
    (fallback : ℕ) (o : Option ℕ)
    → fallback < 2 ^ 64
    → Fits 64 o
    → elim o [ some n ↦ n | none ↦ fallback ] < 2 ^ 64
or_fallback fallback none f h = f
or_fallback fallback (some n) f h = h

env_u64_bounds :
    (var : Environment) (key : Text) (fallback : ℕ)
    → fallback < 2 ^ 64
    → env_u64 var key fallback < 2 ^ 64
unfolding env_u64
env_u64_bounds var key fallback f =
    or_fallback fallback (parsed (var key)) f (parsed-Fits (var key))

at_least_one_bounds : (n : ℕ) → n < 2 ^ 64 → (1 ≤ at_least_one n) × (at_least_one n < 2 ^ 64)
at_least_one_bounds n h = ground arith

-- In every environment the resync interval is at least a second, and it and the debounce fit in 64
-- bits.
pub from_env_bounds :
    (var : Environment)
    → (1 ≤ (from_env var).resync_interval)
      × ((from_env var).resync_interval < 2 ^ 64)
      × ((from_env var).debounce < 2 ^ 64)
unfolding from_env
from_env_bounds var =
    let (low, high) =
      at_least_one_bounds _ (env_u64_bounds var (str "DEGC_RESYNC_INTERVAL") 30 (omega arith)) in
    (low, high, env_u64_bounds var (str "DEGC_DEBOUNCE_MS") 500 (omega arith))
