-- ===== src/Plan/Resolve/Hops.antt =====
-- The hop that a text or the name of a container gives.
use degc.Prelude.{◌≡◌, ◌↔◌, refl, true, Option, none, some, List, ap, ◌∙◌, find}
use degc.Text.{Text}
use degc.Map.{text_key}
use degc.Net.{IpAddr, is_ipv4}
use degc.Net.Parse.{parse}
use degc.Docker.{Target}
use degc.Plan.{Egress, next_hop, unavailable, not_an_ip, not_running}
use degc.Plan.Resolve.{addresses, is_match, gateway_container_ip, static_hop, container_hop}

-- The address is an IPv4 one.
abbrev pub IsFour : IpAddr → Type 0
IsFour ip = is_ipv4 ip ≡ true

abbrev pub hop_or : Egress → Option IpAddr → Egress
hop_or other none = other
hop_or other (some ip) = next_hop ip

pub static_hop_lem :
    (nh : Text) (o : Option IpAddr)
    → parse nh ≡ o
    → static_hop nh ≡ hop_or (unavailable (not_an_ip nh)) o
unfolding static_hop
static_hop_lem nh o e = hop (parse nh) ∙ ap (hop_or (unavailable (not_an_ip nh))) e
  where
    hop :
        (x : Option IpAddr)
        → elim x [ some ip ↦ next_hop ip | none ↦ unavailable (not_an_ip nh) ]
          ≡ hop_or (unavailable (not_an_ip nh)) x
    hop none = refl
    hop (some ip) = refl

pub container_hop_lem :
    (sel : Text) (targets : List Target) (o : Option IpAddr)
    → gateway_container_ip sel targets ≡ o
    → container_hop sel targets ≡ hop_or (unavailable (not_running sel)) o
unfolding container_hop
container_hop_lem sel targets o e =
    hop (gateway_container_ip sel targets) ∙ ap (hop_or (unavailable (not_running sel))) e
  where
    hop :
        (x : Option IpAddr)
        → elim x [ some ip ↦ next_hop ip | none ↦ unavailable (not_running sel) ]
          ≡ hop_or (unavailable (not_running sel)) x
    hop none = refl
    hop (some ip) = refl

abbrev ip_in : Option Target → Option IpAddr
ip_in none = none
ip_in (some t) = find is_ipv4 (addresses t)

pub gateway_container_ip_lem :
    (sel : Text) (targets : List Target) (o : Option Target)
    → find (is_match sel) targets ≡ o
    → gateway_container_ip sel targets ≡ ip_in o
unfolding gateway_container_ip
gateway_container_ip_lem sel targets o e = found (find (is_match sel) targets) ∙ ap ip_in e
  where
    found :
        (x : Option Target) → elim x [ none ↦ none | some t ↦ find is_ipv4 (addresses t) ] ≡ ip_in x
    found none = refl
    found (some t) = refl

pub container_hop-none :
    (sel : Text) (targets : List Target)
    → find (is_match sel) targets ≡ none
    → container_hop sel targets ≡ unavailable (not_running sel)
container_hop-none sel targets e =
    container_hop_lem sel targets none (gateway_container_ip_lem sel targets none e)

pub container_hop-some :
    (sel : Text) (targets : List Target) (t : Target) (o : Option IpAddr)
    → find (is_match sel) targets ≡ some t
    → find is_ipv4 (addresses t) ≡ o
    → container_hop sel targets ≡ hop_or (unavailable (not_running sel)) o
container_hop-some sel targets t o e f =
    container_hop_lem sel targets o (gateway_container_ip_lem sel targets (some t) e ∙ f)

pub is_ipv4-IsFour : (ip : IpAddr) → (is_ipv4 ip ≡ true) ↔ IsFour ip
is_ipv4-IsFour ip = (λ h. h, λ h. h)
