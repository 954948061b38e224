-- ===== src/Config.antt =====
-- config.rs: the settings, from the environment.
pub mod Bounds
use degc.Prelude.{ℕ, Option, none, some, ltb, if◌then◌else◌}
use degc.Text.{Text, str}
use degc.Text.Numbers.{parse_u64}

-- `std::env::var`, `None` for its error.
abbrev pub Environment : Type 0
Environment = Text → Option Text

-- The interval in seconds, the debounce in milliseconds.
pub record Config : Type 0 where
  pub label_prefix : Text
  pub gateways_path : Text
  pub resync_interval : ℕ
  pub debounce : ℕ

-- `.ok().and_then(parse)`
abbrev pub parsed : Option Text → Option ℕ
parsed none = none
parsed (some v) = parse_u64 v

-- `.max(1)`
abbrev pub at_least_one : ℕ → ℕ
at_least_one n = if ltb n 1 then 1 else n

module _ (var : Environment) where
  unfoldable pub env : Text → Text → Text
  env key fallback = elim (var key) [ some v ↦ v | none ↦ fallback ]

  unfoldable pub env_u64 : Text → ℕ → ℕ
  env_u64 key fallback = elim (parsed (var key)) [ some n ↦ n | none ↦ fallback ]

  unfoldable pub from_env : Config
  from_env = record {
    label_prefix = env (str "DEGC_LABEL_PREFIX") (str "degc");
    gateways_path = env (str "DEGC_GATEWAYS_PATH") (str "/etc/degc/gateways.yaml");
    resync_interval = at_least_one (env_u64 (str "DEGC_RESYNC_INTERVAL") 30);
    debounce = env_u64 (str "DEGC_DEBOUNCE_MS") 500;
  }

  -- The address of the metrics server, by the parser of socket addresses; no server without one.
  unfoldable pub metrics_addr {ℓ} : {A : Type ℓ} → (Text → Option A) → Option A
  metrics_addr socket_addr = elim (var (str "DEGC_METRICS_ADDR")) [
    | none ↦ none
    | some s ↦ socket_addr s
  ]
