-- ===== src/Plan/Resolve/Source.antt =====
-- Where a resolved egress comes from.
use degc.Prelude.{
  find-In, Any-map, ◌≡◌, ◌⊎◌, inl, inr, refl, true, ◌||◌, Option, none, some, List, Any, In, ap,
  ◌∙◌, sym, subst, find, Bool-cases,
}
use degc.Text.{Text, same}
use degc.Text.Laws.{same_iff}
use degc.Map.{get, text_key}
use degc.Net.{IpAddr, is_ipv4}
use degc.Net.Parse.{parse}
use degc.Api.{Gateway}
use degc.Docker.{Target}
use degc.Plan.{Egress, Reason, interface, next_hop, unavailable, not_an_ip, not_running}
use degc.Plan.Resolve.{
  service_label, addresses, is_text, is_match, gateway_container_ip, static_hop, container_hop,
  by_container, by_next_hop, by_interface, resolve_egress,
}

-- The container has the name, or is of the Compose service with the name.
abbrev pub IsNamed : Text → Target → Type 0
IsNamed sel t = (t.name ≡ sel) ⊎ (get service_label t.labels ≡ some sel)

-- The container has the name and the IPv4 address.
abbrev pub Serves : Text → IpAddr → Target → Type 0
Serves sel ip t = IsNamed sel t × In ip (addresses t) × (is_ipv4 ip ≡ true)

-- An interface or a next hop that the gateway sets, or the IPv4 address of the container it sets; the
-- last only where neither of the others is set.
pub data IsSource (gw : Gateway) (targets : List Target) : Egress → Type 0 where
  from_interface : {i : Text} → gw.egress.interface ≡ some i → IsSource gw targets (interface i)
  from_next_hop :
      {nh : Text} {ip : IpAddr}
      → gw.egress.interface ≡ none
      → gw.egress.next_hop ≡ some nh
      → parse nh ≡ some ip
      → IsSource gw targets (next_hop ip)
  from_container :
      {sel : Text} {ip : IpAddr}
      → gw.egress.interface ≡ none
      → gw.egress.next_hop ≡ none
      → gw.egress.container ≡ some sel
      → Any (Serves sel ip) targets
      → IsSource gw targets (next_hop ip)
  from_nothing : {why : Reason} → IsSource gw targets (unavailable why)

text_of : (o : Option Text) (s : Text) → is_text o s ≡ true → o ≡ some s
text_of none s h = cc
text_of (some t) s h = ap some ((same_iff t s).0 h)

pub is_match-IsNamed : (sel : Text) (t : Target) → is_match sel t ≡ true → IsNamed sel t
unfolding is_match
is_match-IsNamed sel t h = elim (Bool-cases (same t.name sel)) [
  | inl e ↦ inl ((same_iff t.name sel).0 e)
  | inr n ↦
      inr (text_of _ sel (sym (ap (λ b. b || is_text (get service_label t.labels) sel) n) ∙ h))
]

gateway_container_ip-Serves :
    (sel : Text) (targets : List Target) (ip : IpAddr)
    → gateway_container_ip sel targets ≡ some ip
    → Any (Serves sel ip) targets
unfolding gateway_container_ip
gateway_container_ip-Serves sel targets ip h = found (find (is_match sel) targets) refl h
  where
    found :
        (o : Option Target)
        → find (is_match sel) targets ≡ o
        → elim o [ none ↦ none | some t ↦ find is_ipv4 (addresses t) ] ≡ some ip
        → Any (Serves sel ip) targets
    found none e h' = cc
    found (some t) e h' =
        let (here, named) = find-In (is_match sel) targets t e in
        let (address, four) = find-In is_ipv4 (addresses t) ip h' in
        Any-map
          (λ y same_t.
            subst (Serves sel ip) (sym same_t) (is_match-IsNamed sel t named, address, four))
          targets here

module _ (gw : Gateway) (targets : List Target) where
  static-IsSource :
      (nh : Text)
      → gw.egress.interface ≡ none
      → gw.egress.next_hop ≡ some nh
      → IsSource gw targets (static_hop nh)
  unfolding static_hop
  static-IsSource nh i h = parsed (parse nh) refl
    where
      parsed :
          (o : Option IpAddr)
          → parse nh ≡ o
          → IsSource gw targets
              (elim o [ some ip ↦ next_hop ip | none ↦ unavailable (not_an_ip nh) ])
      parsed none e = from_nothing
      parsed (some ip) e = from_next_hop i h e

  container-IsSource :
      (sel : Text)
      → gw.egress.interface ≡ none
      → gw.egress.next_hop ≡ none
      → gw.egress.container ≡ some sel
      → IsSource gw targets (container_hop sel targets)
  unfolding container_hop
  container-IsSource sel i h c = found (gateway_container_ip sel targets) refl
    where
      found :
          (o : Option IpAddr)
          → gateway_container_ip sel targets ≡ o
          → IsSource gw targets
              (elim o [ some ip ↦ next_hop ip | none ↦ unavailable (not_running sel) ])
      found none e = from_nothing
      found (some ip) e = from_container i h c (gateway_container_ip-Serves sel targets ip e)

  IsSource-of :
      (i h c : Option Text)
      → gw.egress.interface ≡ i
      → gw.egress.next_hop ≡ h
      → gw.egress.container ≡ c
      → IsSource gw targets (by_interface i h c targets)
  unfolding by_interface by_next_hop by_container
  IsSource-of (some i) h c p q r = from_interface p
  IsSource-of none (some nh) c p q r = static-IsSource nh p q
  IsSource-of none none (some sel) p q r = container-IsSource sel p q r
  IsSource-of none none none p q r = from_nothing

  -- An egress that is not unavailable comes from what the gateway sets: its interface; else its next
  -- hop, which parses to the address; else an IPv4 address of a container of the snapshot that has
  -- the name or is of the Compose service.
  pub resolve_egress-IsSource : IsSource gw targets (resolve_egress gw targets)
  unfolding resolve_egress
  resolve_egress-IsSource = IsSource-of _ _ _ refl refl refl
