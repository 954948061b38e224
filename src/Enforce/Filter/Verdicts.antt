-- ===== src/Enforce/Filter/Verdicts.antt =====
-- What the chains of the filter do, gateway by gateway.
use degc.Prelude.{
  any-append, or_false, and_false, ℕ, ◌≡◌, refl, Bool, true, false, ◌&&◌, ◌||◌, not, List, [], ◌∷◌,
  any, Any, All, inl, inr, ap, ◌∙◌, sym, Bool-cases, ◌==◌, if◌then◌else◌,
}
use degc.Text.{Text, same}
use degc.Net.{IpAddr, is_ipv4, is_ipv6}
use degc.Api.{Libs}
use degc.Api.Values.{snat_enabled}
use degc.Plan.{GatewayPlan, Egress, interface, next_hop, unavailable}
use degc.Enforce.Filter.{
  SetDef, Packet, matches, mark_chain, masquerades, masqueraded, drops, via_name, local_name,
  members_of, except_name, snats_for, kills_for, six_kills, locals4, locals6, own_filter, filter_of,
}

-- Whether traffic with the mark of a gateway is stopped at an interface.
abbrev pub stops : Egress → Text → Bool
stops (interface i) out = not (same i out)
stops (next_hop ip) out = false
stops (unavailable why) out = true

-- Whether it is masqueraded there.
abbrev pub hides : Egress → Text → Bool
hides (interface i) out = same i out
hides (next_hop ip) out = true
hides (unavailable why) out = false

module _ (covers : Text → IpAddr → Bool) (libs : Libs) where
  -- The rules that stop by a mark, among those of a gateway.
  kills_for-stops :
      (sets : List SetDef) (p : Packet) (mark : ℕ) (e : Egress)
      → any (drops covers sets p) (kills_for mark e) ≡ (mark == p.mark && stops e p.leaves_by)
  unfolding any
  kills_for-stops sets p mark (interface i) = or_false _
  kills_for-stops sets p mark (next_hop ip) = sym (and_false _)
  kills_for-stops sets p mark (unavailable why) = all_or (mark == p.mark)
    where
      all_or : (b : Bool) → (b || false) ≡ (b && true)
      all_or true = refl
      all_or false = refl

  snats_for-hides :
      (p : Packet) (on : Bool) (mark : ℕ) (e : Egress)
      → any (masquerades p) (if on then snats_for mark e else [])
        ≡ (mark == p.mark && (on && hides e p.leaves_by))
  unfolding any
  snats_for-hides p false mark e = sym (and_false _)
  snats_for-hides p true mark (interface i) = or_false _
  snats_for-hides p true mark (next_hop ip) = all_or (mark == p.mark)
    where
      all_or : (b : Bool) → (b || false) ≡ (b && true)
      all_or true = refl
      all_or false = refl
  snats_for-hides p true mark (unavailable why) = sym (and_false _)

  pub masqueraded-hides :
      (ms : List (ℕ × GatewayPlan)) (p : Packet)
      → masqueraded (filter_of libs ms) p
        ≡ any
            (λ mg. mg.0 == p.mark && (snat_enabled mg.1.gateway && hides mg.1.egress p.leaves_by))
            ms
  unfolding any
  masqueraded-hides [] p = refl
  masqueraded-hides (mg ∷ rest) p =
      any-append (masquerades p) (own_filter libs mg).snats (filter_of libs rest).snats
      ∙ ap (λ b. b || masqueraded (filter_of libs rest) p)
          (snats_for-hides p (snat_enabled mg.1.gateway) mg.0 mg.1.egress)
      ∙ ap
          (λ b.
            (mg.0 == p.mark && (snat_enabled mg.1.gateway && hides mg.1.egress p.leaves_by)) || b)
          (masqueraded-hides rest p)

  -- The rule for IPv6 of a gateway.
  unfoldable pub six_drops : List SetDef → Packet → ℕ × GatewayPlan → Bool
  six_drops sets p mg =
      any (drops covers sets p)
        (six_kills mg.1.gateway (members_of is_ipv6 mg.1) (locals6 libs mg.1.gateway))

  pub kills-stops :
      (sets : List SetDef) (ms : List (ℕ × GatewayPlan)) (p : Packet)
      → any (drops covers sets p) (filter_of libs ms).kills
        ≡ any (λ mg. six_drops sets p mg || (mg.0 == p.mark && stops mg.1.egress p.leaves_by)) ms
  unfolding any six_drops
  kills-stops sets [] p = refl
  kills-stops sets (mg ∷ rest) p =
      let six = six_kills mg.1.gateway (members_of is_ipv6 mg.1) (locals6 libs mg.1.gateway) in
      any-append (drops covers sets p) (own_filter libs mg).kills (filter_of libs rest).kills
      ∙ ap (λ b. b || any (drops covers sets p) (filter_of libs rest).kills)
          (any-append (drops covers sets p) six (kills_for mg.0 mg.1.egress)
            ∙ ap (λ b. any (drops covers sets p) six || b)
                (kills_for-stops sets p mg.0 mg.1.egress))
      ∙ ap (λ b. (six_drops sets p mg || (mg.0 == p.mark && stops mg.1.egress p.leaves_by)) || b)
          (kills-stops sets rest p)

  -- Whether the mark rule of a gateway matches.
  abbrev pub hits : List SetDef → Packet → ℕ × GatewayPlan → Bool
  hits sets p mg =
      is_ipv4 p.source
      && matches covers sets
          (record {
            sources = via_name mg.1.gateway;
            except = except_name (local_name mg.1.gateway) (locals4 libs mg.1.gateway);
          })
          p

  pub chain_keeps :
      (sets : List SetDef) (ms : List (ℕ × GatewayPlan)) (p : Packet) (m : ℕ)
      → All (λ mg. hits sets p mg ≡ false) ms
      → mark_chain covers sets (filter_of libs ms).marks p m ≡ m
  chain_keeps sets [] p m h = refl
  chain_keeps sets (mg ∷ rest) p m (h, more) =
      ap (λ b. mark_chain covers sets (filter_of libs rest).marks p (if b then mg.0 else m)) h
      ∙ chain_keeps sets rest p m more

  chain_stays :
      (sets : List SetDef) (ms : List (ℕ × GatewayPlan)) (p : Packet) (mark m : ℕ)
      → All (λ mg. hits sets p mg ≡ true → mg.0 ≡ mark) ms
      → m ≡ mark
      → mark_chain covers sets (filter_of libs ms).marks p m ≡ mark
  chain_stays sets [] p mark m h e = e
  chain_stays sets (mg ∷ rest) p mark m (h, more) e = elim (Bool-cases (hits sets p mg)) [
    | inl b ↦
        ap (λ x. mark_chain covers sets (filter_of libs rest).marks p (if x then mg.0 else m)) b
        ∙ chain_stays sets rest p mark mg.0 more (h b)
    | inr b ↦
        ap (λ x. mark_chain covers sets (filter_of libs rest).marks p (if x then mg.0 else m)) b
        ∙ chain_stays sets rest p mark m more e
  ]

  pub chain_sets :
      (sets : List SetDef) (ms : List (ℕ × GatewayPlan)) (p : Packet) (mark m : ℕ)
      → All (λ mg. hits sets p mg ≡ true → mg.0 ≡ mark) ms
      → Any (λ mg. hits sets p mg ≡ true) ms
      → mark_chain covers sets (filter_of libs ms).marks p m ≡ mark
  chain_sets sets [] p mark m h i = elim i [ ]
  chain_sets sets (mg ∷ rest) p mark m (h, more) (inl b) =
      ap (λ x. mark_chain covers sets (filter_of libs rest).marks p (if x then mg.0 else m)) b
      ∙ chain_stays sets rest p mark mg.0 more (h b)
  chain_sets sets (mg ∷ rest) p mark m (h, more) (inr i) =
      chain_sets sets rest p mark (if hits sets p mg then mg.0 else m) more i
