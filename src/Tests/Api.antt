-- ===== src/Tests/Api.antt =====
-- The source's tests of api/v1alpha1.
use degc.Prelude.{◌≡◌, refl, true, false, none, some, [], ◌∷◌, ok, err}
use degc.Text.{str}
use degc.Map.{collect, text_key}
use degc.Api.{no_egress, egress_kinds, zero_mark, bad_interface, same_table, empty_selector}
use degc.Api.Values.{parse_mark}
use degc.Api.Validate.{validate}
use degc.Api.Gateways.{validate_all, resolve}
use degc.Api.Labels.{opt_in, selector_matches, parse_selector_label}
use degc.Tests.Open.{program}
use degc.Tests.Data.{libs, gateway, via_interface, via_container, vpn}

mark_parses_hex_and_dec :
    (parse_mark (str "0x4") ≡ some 4)
    × (parse_mark (str "16") ≡ some 16)
    × (parse_mark (str "zz") ≡ none)
unfolding program
mark_parses_hex_and_dec = (refl, refl, refl)

opt_in_semantics :
    (opt_in (str "degc") (collect ((str "degc.enable", str "false") ∷ [])) ≡ none)
    × (opt_in
          (str "degc")
          (collect ((str "degc.enable", str "true") ∷ (str "degc.via", str "vpn") ∷ []))
        ≡ some (some (str "vpn")))
unfolding program
opt_in_semantics = (refl, refl)

validation :
    (validate libs vpn ≡ ok tt)
    × (validate libs (gateway (str "x") no_egress) ≡ err (egress_kinds (str "x") 0))
    × (validate libs (record vpn { mark = some (str "0x0") }) ≡ err (zero_mark (str "vpn")))
    × (validate libs (gateway (str "x") (via_interface "a\"b"))
        ≡ err (bad_interface (str "x") (str "a\"b")))
    × (validate libs (record vpn { members = [] ∷ [] }) ≡ err (empty_selector (str "vpn")))
unfolding program
validation = (refl, refl, refl, refl, refl)

colliding_auto_routing :
    validate_all libs
      (gateway (str "ac") (via_container "x") ∷ gateway (str "bb") (via_container "y") ∷ [])
    ≡ err (same_table (str "ac") (str "bb") 5565)
unfolding program
colliding_auto_routing = refl

sole_gateway : resolve (vpn ∷ []) none ≡ some vpn
unfolding program
sole_gateway = refl

selector_keys :
    (selector_matches
        (parse_selector_label (str "vpn=true,tier=dl"))
        (collect ((str "vpn", str "true") ∷ (str "tier", str "dl") ∷ []))
      ≡ true)
    × (selector_matches [] (collect ((str "vpn", str "true") ∷ [])) ≡ false)
unfolding program
selector_keys = (refl, refl)
