-- ===== src/Plan/Resolve/Exact.antt =====
-- What an egress resolves to, in every case, its reasons included.
use degc.Prelude.{
  or_true, ◌≡◌, ◌↔◌, inl, inr, refl, true, Option, none, some, List, All, ◌∙◌, sym, subst, find,
}
use degc.Text.{Text, same}
use degc.Text.Laws.{same_refl}
use degc.Map.{text_key}
use degc.Net.{IpAddr, is_ipv4}
use degc.Net.Parse.{parse}
use degc.Api.{Gateway}
use degc.Docker.{Target}
use degc.Plan.{Egress, interface, next_hop, unavailable, not_an_ip, not_running, not_configured}
use degc.Plan.Resolve.{
  addresses, is_match, static_hop, container_hop, by_container, by_next_hop, by_interface,
  resolve_egress,
}
use degc.Plan.Resolve.Source.{IsNamed, is_match-IsNamed}
use degc.Plan.Resolve.First.{IsFirst, find-IsFirst, IsFirst-find, find-none, none-find}
use degc.Plan.Resolve.Hops.{
  IsFour, static_hop_lem, container_hop-none, container_hop-some, is_ipv4-IsFour,
}

IsNamed-is_match : (sel : Text) (t : Target) → IsNamed sel t → is_match sel t ≡ true
unfolding is_match
IsNamed-is_match sel t (inl e) = rw (e, same_refl sel) refl
IsNamed-is_match sel t (inr e) = rw (e, same_refl sel) (or_true (same t.name sel))

is_match_iff : (sel : Text) (t : Target) → (is_match sel t ≡ true) ↔ IsNamed sel t
is_match_iff sel t = (is_match-IsNamed sel t, IsNamed-is_match sel t)

-- An interface; else a next hop, which is an address or not; else a container: the first of the name
-- or the Compose service, and its first IPv4 address, if there are these.
pub data IsResolved (gw : Gateway) (targets : List Target) : Egress → Type 0 where
  set_interface : {i : Text} → gw.egress.interface ≡ some i → IsResolved gw targets (interface i)
  set_next_hop :
      {nh : Text} {ip : IpAddr}
      → gw.egress.interface ≡ none
      → gw.egress.next_hop ≡ some nh
      → parse nh ≡ some ip
      → IsResolved gw targets (next_hop ip)
  bad_next_hop :
      {nh : Text}
      → gw.egress.interface ≡ none
      → gw.egress.next_hop ≡ some nh
      → parse nh ≡ none
      → IsResolved gw targets (unavailable (not_an_ip nh))
  of_container :
      {sel : Text} {ip : IpAddr} (t : Target)
      → gw.egress.interface ≡ none
      → gw.egress.next_hop ≡ none
      → gw.egress.container ≡ some sel
      → IsFirst (IsNamed sel) t targets
      → IsFirst IsFour ip (addresses t)
      → IsResolved gw targets (next_hop ip)
  no_container :
      {sel : Text}
      → gw.egress.interface ≡ none
      → gw.egress.next_hop ≡ none
      → gw.egress.container ≡ some sel
      → All (λ t. ¬ IsNamed sel t) targets
      → IsResolved gw targets (unavailable (not_running sel))
  no_address :
      {sel : Text} (t : Target)
      → gw.egress.interface ≡ none
      → gw.egress.next_hop ≡ none
      → gw.egress.container ≡ some sel
      → IsFirst (IsNamed sel) t targets
      → All (λ ip. ¬ IsFour ip) (addresses t)
      → IsResolved gw targets (unavailable (not_running sel))
  nothing_set :
      gw.egress.interface ≡ none
      → gw.egress.next_hop ≡ none
      → gw.egress.container ≡ none
      → IsResolved gw targets (unavailable not_configured)

module _ (gw : Gateway) (targets : List Target) where
  of_hop :
      (nh : Text)
      → gw.egress.interface ≡ none
      → gw.egress.next_hop ≡ some nh
      → (o : Option IpAddr) → parse nh ≡ o
      → IsResolved gw targets (static_hop nh)
  of_hop nh p q none e =
      subst (IsResolved gw targets) (sym (static_hop_lem nh none e)) (bad_next_hop p q e)
  of_hop nh p q (some ip) e =
      subst (IsResolved gw targets) (sym (static_hop_lem nh (some ip) e)) (set_next_hop p q e)

  of_name :
      (sel : Text)
      → gw.egress.interface ≡ none
      → gw.egress.next_hop ≡ none
      → gw.egress.container ≡ some sel
      → (o : Option Target) → find (is_match sel) targets ≡ o
      → IsResolved gw targets (container_hop sel targets)
  of_name sel p q r none e =
      subst (IsResolved gw targets) (sym (container_hop-none sel targets e))
        (no_container p q r (find-none (is_match sel) (IsNamed sel) (is_match_iff sel) targets e))
  of_name sel p q r (some t) e = address (find is_ipv4 (addresses t)) refl
    where
      first : IsFirst (IsNamed sel) t targets
      first = find-IsFirst (is_match sel) (IsNamed sel) (is_match_iff sel) targets t e

      address :
          (o : Option IpAddr)
          → find is_ipv4 (addresses t) ≡ o
          → IsResolved gw targets (container_hop sel targets)
      address none f =
          subst (IsResolved gw targets) (sym (container_hop-some sel targets t none e f))
            (no_address t p q r first (find-none is_ipv4 IsFour is_ipv4-IsFour (addresses t) f))
      address (some ip) f =
          subst (IsResolved gw targets) (sym (container_hop-some sel targets t (some ip) e f)) (
            of_container t p q r first
              (find-IsFirst is_ipv4 IsFour is_ipv4-IsFour (addresses t) ip f))

  resolved :
      (i h c : Option Text)
      → gw.egress.interface ≡ i
      → gw.egress.next_hop ≡ h
      → gw.egress.container ≡ c
      → IsResolved gw targets (by_interface i h c targets)
  unfolding by_interface by_next_hop by_container
  resolved (some i) h c p q r = set_interface p
  resolved none (some nh) c p q r = of_hop nh p q (parse nh) refl
  resolved none none (some sel) p q r = of_name sel p q r (find (is_match sel) targets) refl
  resolved none none none p q r = nothing_set p q r

  at_fields :
      {i h c : Option Text}
      → gw.egress.interface ≡ i
      → gw.egress.next_hop ≡ h
      → gw.egress.container ≡ c
      → resolve_egress gw targets ≡ by_interface i h c targets
  unfolding resolve_egress
  at_fields p q r i = by_interface (p i) (q i) (r i) targets

  only_resolved : (e : Egress) → IsResolved gw targets e → resolve_egress gw targets ≡ e
  unfolding by_interface by_next_hop by_container
  only_resolved _ (set_interface p) = at_fields p refl refl
  only_resolved _ (set_next_hop {nh} {ip} p q e) =
      at_fields p q refl ∙ static_hop_lem nh (some ip) e
  only_resolved _ (bad_next_hop {nh} p q e) = at_fields p q refl ∙ static_hop_lem nh none e
  only_resolved _ (of_container {sel} {ip} t p q r first four) =
      at_fields p q r
      ∙ container_hop-some sel targets t (some ip)
          (IsFirst-find (is_match sel) (IsNamed sel) (is_match_iff sel) targets t first)
          (IsFirst-find is_ipv4 IsFour is_ipv4-IsFour (addresses t) ip four)
  only_resolved _ (no_container {sel} p q r h) =
      at_fields p q r
      ∙ container_hop-none sel targets
          (none-find (is_match sel) (IsNamed sel) (is_match_iff sel) targets h)
  only_resolved _ (no_address {sel} t p q r first h) =
      at_fields p q r
      ∙ container_hop-some sel targets t none
          (IsFirst-find (is_match sel) (IsNamed sel) (is_match_iff sel) targets t first)
          (none-find is_ipv4 IsFour is_ipv4-IsFour (addresses t) h)
  only_resolved _ (nothing_set p q r) = at_fields p q r

  -- An egress is what the gateway resolves to exactly where it is this: the interface, if one is set;
  -- else the next hop, if one is set, or that it is no address; else, if a container is set, the first
  -- IPv4 address of the first container of the snapshot with the name or of the Compose service with
  -- it, or that it does not run where there is no such container or it has no IPv4 address; else that
  -- nothing is configured.
  pub resolve_egress_iff : (e : Egress) → (resolve_egress gw targets ≡ e) ↔ IsResolved gw targets e
  unfolding resolve_egress
  resolve_egress_iff e =
      (λ h. subst (IsResolved gw targets) h (resolved _ _ _ refl refl refl), only_resolved e)
