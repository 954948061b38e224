-- ===== src/Enforce/Filter/Sets.antt =====
-- Which addresses the sets of the filter hold.
use degc.Prelude.{
  any-append, or_false, and_false, ℕ, ◌≡◌, refl, Bool, false, ◌&&◌, ◌||◌, not, List, [], ◌∷◌, ◌++◌,
  is_empty, any, ap, ◌∙◌, sym,
}
use degc.Text.{Text, str, same}
use degc.Net.{IpAddr, is_ipv4, is_ipv6}
use degc.Api.{Libs, Gateway}
use degc.Plan.{GatewayPlan}
use degc.Enforce.Nft.{sanitize}
use degc.Enforce.Filter.{
  SetDef, covered, in_set, local_name, members_of, except_set, six_sets, locals4, locals6,
  own_filter,
}

module _ (covers : Text → IpAddr → Bool) where
  six-via :
      (gw : Gateway) (x : Text) (ip : IpAddr) (members cidrs : List Text)
      → in_set covers (six_sets gw members cidrs) (str "degc_via_" ++ x) ip ≡ false
  unfolding any same
  six-via gw x ip [] cidrs = refl
  six-via gw x ip (m ∷ members) [] = refl
  six-via gw x ip (m ∷ members) (c ∷ cidrs) = refl

  six-local :
      (gw : Gateway) (x : Text) (ip : IpAddr) (members cidrs : List Text)
      → in_set covers (six_sets gw members cidrs) (str "degc_local_" ++ x) ip ≡ false
  unfolding any same
  six-local gw x ip [] cidrs = refl
  six-local gw x ip (m ∷ members) [] = refl
  six-local gw x ip (m ∷ members) (c ∷ cidrs) = refl

  six-via6 :
      (gw : Gateway) (x : Text) (ip : IpAddr) (members cidrs : List Text)
      → in_set covers (six_sets gw members cidrs) (str "degc_via6_" ++ x) ip
        ≡ (same (sanitize gw.name) x && covered covers members ip)
  unfolding any same
  six-via6 gw x ip [] cidrs = sym (and_false _)
  six-via6 gw x ip (m ∷ members) [] = or_false _
  six-via6 gw x ip (m ∷ members) (c ∷ cidrs) = or_false _

  six-local6 :
      (gw : Gateway) (x : Text) (ip : IpAddr) (members cidrs : List Text)
      → in_set covers (six_sets gw members cidrs) (str "degc_local6_" ++ x) ip
        ≡ (same (sanitize gw.name) x && (not (is_empty members) && covered covers cidrs ip))
  unfolding any same
  six-local6 gw x ip [] cidrs = sym (and_false _)
  six-local6 gw x ip (m ∷ members) [] = sym (and_false _)
  six-local6 gw x ip (m ∷ members) (c ∷ cidrs) = or_false _

  four-via :
      (gw : Gateway) (x typ : Text) (ip : IpAddr) (cidrs : List Text)
      → in_set covers (except_set (local_name gw) typ cidrs) (str "degc_via_" ++ x) ip ≡ false
  unfolding any same
  four-via gw x typ ip [] = refl
  four-via gw x typ ip (c ∷ cidrs) = refl

  four-via6 :
      (gw : Gateway) (x typ : Text) (ip : IpAddr) (cidrs : List Text)
      → in_set covers (except_set (local_name gw) typ cidrs) (str "degc_via6_" ++ x) ip ≡ false
  unfolding any same
  four-via6 gw x typ ip [] = refl
  four-via6 gw x typ ip (c ∷ cidrs) = refl

  four-local6 :
      (gw : Gateway) (x typ : Text) (ip : IpAddr) (cidrs : List Text)
      → in_set covers (except_set (local_name gw) typ cidrs) (str "degc_local6_" ++ x) ip ≡ false
  unfolding any same
  four-local6 gw x typ ip [] = refl
  four-local6 gw x typ ip (c ∷ cidrs) = refl

  four-local :
      (gw : Gateway) (x typ : Text) (ip : IpAddr) (cidrs : List Text)
      → in_set covers (except_set (local_name gw) typ cidrs) (str "degc_local_" ++ x) ip
        ≡ (same (sanitize gw.name) x && covered covers cidrs ip)
  unfolding any same
  four-local gw x typ ip [] = sym (and_false _)
  four-local gw x typ ip (c ∷ cidrs) = or_false _

  module _ (libs : Libs) (mg : ℕ × GatewayPlan) (x : Text) (ip : IpAddr) where
    abbrev excepted : List SetDef
    excepted = except_set (local_name mg.1.gateway) (str "ipv4_addr") (locals4 libs mg.1.gateway)

    abbrev six : List SetDef
    six = six_sets mg.1.gateway (members_of is_ipv6 mg.1) (locals6 libs mg.1.gateway)

    -- Behind the set of the members: the two parts.
    two_parts :
        (name : Text)
        → in_set covers (excepted ++ six) name ip
          ≡ (in_set covers excepted name ip || in_set covers six name ip)
    two_parts name =
        any-append (λ (s : SetDef). same s.name name && covered covers s.elements ip) excepted six

    pub own-via :
        in_set covers (own_filter libs mg).sets (str "degc_via_" ++ x) ip
        ≡ (same (sanitize mg.1.gateway.name) x && covered covers (members_of is_ipv4 mg.1) ip)
    unfolding any same
    own-via =
        ap
          (λ b.
            (same (sanitize mg.1.gateway.name) x && covered covers (members_of is_ipv4 mg.1) ip)
            || b)
          (two_parts (str "degc_via_" ++ x)
            ∙ (rw (four-via mg.1.gateway x (str "ipv4_addr") ip (locals4 libs mg.1.gateway))
                (six-via mg.1.gateway x ip (members_of is_ipv6 mg.1) (locals6 libs mg.1.gateway))))
        ∙ or_false _

    pub own-local :
        in_set covers (own_filter libs mg).sets (str "degc_local_" ++ x) ip
        ≡ (same (sanitize mg.1.gateway.name) x && covered covers (locals4 libs mg.1.gateway) ip)
    unfolding any same
    own-local =
        two_parts (str "degc_local_" ++ x)
        ∙ ap (λ b. in_set covers excepted (str "degc_local_" ++ x) ip || b)
            (six-local mg.1.gateway x ip (members_of is_ipv6 mg.1) (locals6 libs mg.1.gateway))
        ∙ or_false _
        ∙ four-local mg.1.gateway x (str "ipv4_addr") ip (locals4 libs mg.1.gateway)

    pub own-via6 :
        in_set covers (own_filter libs mg).sets (str "degc_via6_" ++ x) ip
        ≡ (same (sanitize mg.1.gateway.name) x && covered covers (members_of is_ipv6 mg.1) ip)
    unfolding any same
    own-via6 =
        two_parts (str "degc_via6_" ++ x)
        ∙ ap (λ b. b || in_set covers six (str "degc_via6_" ++ x) ip)
            (four-via6 mg.1.gateway x (str "ipv4_addr") ip (locals4 libs mg.1.gateway))
        ∙ six-via6 mg.1.gateway x ip (members_of is_ipv6 mg.1) (locals6 libs mg.1.gateway)

    pub own-local6 : in_set covers (own_filter libs mg).sets (str "degc_local6_" ++ x) ip ≡ (
        same (sanitize mg.1.gateway.name) x
        && (not (is_empty (members_of is_ipv6 mg.1))
            && covered covers (locals6 libs mg.1.gateway) ip))
    unfolding any same
    own-local6 =
        two_parts (str "degc_local6_" ++ x)
        ∙ ap (λ b. b || in_set covers six (str "degc_local6_" ++ x) ip)
            (four-local6 mg.1.gateway x (str "ipv4_addr") ip (locals4 libs mg.1.gateway))
        ∙ six-local6 mg.1.gateway x ip (members_of is_ipv6 mg.1) (locals6 libs mg.1.gateway)
