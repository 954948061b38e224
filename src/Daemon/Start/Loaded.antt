-- ===== src/Daemon/Start/Loaded.antt =====
-- What the daemon starts with.
use degc.Prelude.{◌≡◌, Option, [], ok, ◌>>◌, ok_or, >>=-eq-ok, >>-eq-ok, subst, arith}
use degc.Text.{Text}
use degc.Api.{Libs, GatewayList, bad_document}
use degc.Api.Gateways.{validate_all, parse_gateways}
use degc.Api.Gateways.Document.{IsDocument, validate_all_iff}
use degc.Daemon.Start.{FileRead, contents, not_found, read_error, load_gateways}

parse_gateways-IsDocument :
    (libs : Libs) (yaml : Text → Option GatewayList) (text : Text) {gws : GatewayList}
    → parse_gateways libs yaml text ≡ ok gws
    → IsDocument libs gws
unfolding parse_gateways
parse_gateways-IsDocument libs yaml text {gws} h =
    let (read, _, after) =
      >>=-eq-ok (ok_or (yaml text) bad_document) (λ l. validate_all libs l >> ok l) h in
    let ((u, valid), same) = >>-eq-ok (validate_all libs read) (ok read) after in
    let e : read ≡ gws = cc in subst (IsDocument libs) e ((validate_all_iff libs read).0 valid)

-- The gateways that `load_gateways` gives are a document: well formed, with names, marks and tables
-- of their own, and with one default at most.
pub load_gateways-IsDocument :
    (libs : Libs) (yaml : Text → Option GatewayList) (path : Text) (file : FileRead)
    (gws : GatewayList)
    → load_gateways libs yaml path file ≡ ok gws
    → IsDocument libs gws
unfolding load_gateways
load_gateways-IsDocument libs yaml path (contents text) gws h =
    parse_gateways-IsDocument libs yaml text h
load_gateways-IsDocument libs yaml path not_found gws h =
    let e : [] ≡ gws = cc in
    subst (IsDocument libs) e
      (record { well_formed = tt; own_names = tt; one_default = omega arith; unique = tt })
load_gateways-IsDocument libs yaml path read_error gws h = cc
