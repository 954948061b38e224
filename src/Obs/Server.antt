-- ===== src/Obs/Server.antt =====
-- The routes of `serve`: the scrape, and the two health checks.
use degc.Prelude.{ℕ, Option, none, some, if◌then◌else◌}
use degc.Text.{Text, str, same}
use degc.Obs.{Metrics}
use degc.Obs.Record.{readyz}

-- A body alone is plain text.
pub data Body : Type 0 where
  plain : Text → Body
  typed : Text → Text → Body

-- `render` is the encoder of the metrics' crate.
module _ (render : Metrics → Text) where
  unfoldable pub metrics_handler : Metrics → ℕ × Body
  metrics_handler m =
      (200, typed (str "application/openmetrics-text; version=1.0.0; charset=utf-8") (render m))

  abbrev readyz_handler : Metrics → ℕ × Body
  readyz_handler m = let (status, text) = readyz m in (status, plain text)

  -- A path that is no route is the router's.
  unfoldable pub respond : Text → Metrics → Option (ℕ × Body)
  respond path m =
      if same path (str "/metrics")
      then some (metrics_handler m)
      else if same path (str "/healthz")
      then some (200, plain (str "ok\n"))
      else if same path (str "/readyz")
      then some (readyz_handler m)
      else none
