-- ===== src/Daemon/Start.antt =====
-- `load_gateways` and the command `validate` of main.rs.
pub mod Loaded
use degc.Prelude.{ℕ, Option, List, [], Result, ok, err, ◌>>=◌, length}
use degc.Text.{Text}
use degc.Api.{Libs, GatewayList, Error, read_failed}
use degc.Api.Gateways.{parse_gateways}

-- What `read_to_string` gives.
pub data FileRead : Type 0 where
  contents : Text → FileRead
  not_found read_error : FileRead

module _ (libs : Libs) (yaml : Text → Option GatewayList) where
  -- No file is no gateways; they may come from labels.
  unfoldable pub load_gateways : Text → FileRead → Result Error GatewayList
  load_gateways path (contents text) = parse_gateways libs yaml text
  load_gateways path not_found = ok []
  load_gateways path read_error = err (read_failed path)

  -- The count that `degc validate` prints.
  unfoldable pub validate_file : Text → FileRead → Result Error ℕ
  validate_file path (contents text) = do gws ← parse_gateways libs yaml text; ok (length gws)
  validate_file path not_found = err (read_failed path)
  validate_file path read_error = err (read_failed path)
