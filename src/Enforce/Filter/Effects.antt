-- ===== src/Enforce/Filter/Effects.antt =====
-- What the filter of gateways with their marks does with a packet.
use degc.Prelude.{
  All-of_In, or_false, and_false, ℕ, ◌≡◌, ◌≢◌, refl, Bool, true, false, ◌&&◌, ◌||◌, not, List, [],
  ◌∷◌, any, any_iff, Any-map, All, All-map, In, inl, inr, ap, ◌∙◌, sym, arith, Bool-cases, ◌==◌,
  if◌then◌else◌,
}
use degc.Text.{Text}
use degc.Net.{IpAddr, is_ipv4, is_ipv6}
use degc.Api.{Libs}
use degc.Api.Values.{snat_enabled}
use degc.Api.Gateways.Unique.{IsUnique}
use degc.Plan.{GatewayPlan}
use degc.Enforce.Nft.{sanitize}
use degc.Enforce.Filter.{
  SetDef, Packet, covered, marked, masqueraded, drops, dropped, members_of, six_kills, locals4,
  locals6, filter_of,
}
use degc.Enforce.Filter.Apart.{
  any-IsOnly, HasOwnSets, plans_of, gateways_of, mark-IsOnly, same_mark,
}
use degc.Enforce.Filter.Lookup.{
  any-path, any-missed, no_via, no_via6, via_holds, via6_holds, except_holds, except6_free,
}
use degc.Enforce.Filter.Verdicts.{
  stops, hides, six_drops, kills-stops, masqueraded-hides, hits, chain_keeps, chain_sets,
}
use degc.Enforce.Filter.Members.{HasMarks}

==-refl : (n : ℕ) → (n == n) ≡ true
==-refl n = ground arith

module _ (covers : Text → IpAddr → Bool) (libs : Libs) (ms : List (ℕ × GatewayPlan))
    (p : Packet) where
  six_drops_four :
      (mg : ℕ × GatewayPlan) (sets : List SetDef)
      → is_ipv4 p.source ≡ true
      → six_drops covers libs sets p mg ≡ false
  unfolding six_drops any is_ipv6
  six_drops_four mg sets four = by_members (members_of is_ipv6 mg.1)
    where
      by_members :
          (l : List Text)
          → any (drops covers sets p) (six_kills mg.1.gateway l (locals6 libs mg.1.gateway)) ≡ false
      by_members [] = refl
      by_members (m ∷ l) = rw four refl

  module _ (k : HasMarks ms) (unique : IsUnique (gateways_of (plans_of ms))) (mg : ℕ × GatewayPlan)
      (i : In mg ms) (e : p.mark ≡ mg.0) where
    -- What a test of the marks finds is what the gateway of the mark says.
    sole_mark : (f : ℕ × GatewayPlan → Bool) → any (λ y. y.0 == p.mark && f y) ms ≡ f mg
    sole_mark f =
        ap (λ m. any (λ y. y.0 == m && f y) ms) e
        ∙ any-IsOnly (λ y. same_mark y mg) f mg ms i (==-refl mg.0) (mark-IsOnly ms mg k unique i)

    pub dropped_lem :
        is_ipv4 p.source ≡ true
        → dropped covers (filter_of libs ms) p ≡ stops mg.1.egress p.leaves_by
    dropped_lem four =
        kills-stops covers libs (filter_of libs ms).sets ms p
        ∙ any-path _ _ ms (λ y.
          ap (λ b. b || (y.0 == p.mark && stops y.1.egress p.leaves_by))
            (six_drops_four y (filter_of libs ms).sets four))
        ∙ sole_mark (λ y. stops y.1.egress p.leaves_by)

    pub masqueraded_lem :
        masqueraded (filter_of libs ms) p
        ≡ (snat_enabled mg.1.gateway && hides mg.1.egress p.leaves_by)
    masqueraded_lem =
        masqueraded-hides covers libs ms p
        ∙ sole_mark (λ y. snat_enabled y.1.gateway && hides y.1.egress p.leaves_by)

  module _ (own : HasOwnSets (plans_of ms)) where
    hits_lem :
        (x : ℕ × GatewayPlan)
        → In x ms
        → is_ipv4 p.source ≡ true
        → hits covers libs (filter_of libs ms).sets p x ≡ (
            covered covers (members_of is_ipv4 x.1) p.source
            && not (covered covers (locals4 libs x.1.gateway) p.destination))
    hits_lem x i four =
        rw
          (
            four,
            via_holds covers libs ms own x i p.source,
            except_holds covers libs ms own x i p.destination,
          )
          refl

    module _ (mg : ℕ × GatewayPlan) (i : In mg ms) where
      pub marked_lem :
          is_ipv4 p.source ≡ true
          → covered covers (members_of is_ipv4 mg.1) p.source ≡ true
          → ((x : ℕ × GatewayPlan)
              → In x ms
              → covered covers (members_of is_ipv4 x.1) p.source ≡ true
              → x ≡ mg)
          → marked covers (filter_of libs ms) p
            ≡ (if covered covers (locals4 libs mg.1.gateway) p.destination then p.mark else mg.0)
      marked_lem four member alone =
          elim (Bool-cases (covered covers (locals4 libs mg.1.gateway) p.destination)) [
            | inl direct ↦
                chain_keeps covers libs (filter_of libs ms).sets ms p p.mark
                  (All-of_In ms (λ x j. hits_lem x j four ∙ missed x j direct))
                ∙ sym (ap (λ b. if b then p.mark else mg.0) direct)
            | inr away ↦
                chain_sets covers libs (filter_of libs ms).sets ms p mg.0 p.mark
                  (All-of_In ms (λ x j h.
                    ap (λ (y : ℕ × GatewayPlan). y.0)
                      (alone x j (first_of _ _ (sym (hits_lem x j four) ∙ h)))))
                  (Any-map
                    (λ x same_x.
                      ap (hits covers libs (filter_of libs ms).sets p) same_x
                      ∙ hits_lem mg i four
                      ∙ (rw (member, away) refl))
                    ms i)
                ∙ sym (ap (λ b. if b then p.mark else mg.0) away)
          ]
        where
          first_of : (a b : Bool) → (a && b) ≡ true → a ≡ true
          first_of a b h = ground arith

          missed :
              (x : ℕ × GatewayPlan)
              → In x ms
              → covered covers (locals4 libs mg.1.gateway) p.destination ≡ true
              → (covered covers (members_of is_ipv4 x.1) p.source
                  && not (covered covers (locals4 libs x.1.gateway) p.destination))
                ≡ false
          missed x j direct = elim (Bool-cases (covered covers (members_of is_ipv4 x.1) p.source)) [
            | inl h ↦
                let there =
                  ap
                    (λ (y : ℕ × GatewayPlan).
                      covered covers (locals4 libs y.1.gateway) p.destination)
                    (alone x j h)
                  ∙ direct in
                rw (h, there) refl
            | inr h ↦ rw h refl
          ]

      pub six_lem :
          is_ipv6 p.source ≡ true
          → covered covers (members_of is_ipv6 mg.1) p.source ≡ true
          → covered covers (locals6 libs mg.1.gateway) p.destination ≡ false
          → dropped covers (filter_of libs ms) p ≡ true
      unfolding six_drops any
      six_lem six member away =
          kills-stops covers libs (filter_of libs ms).sets ms p
          ∙ (any_iff _ ms).1 (
              Any-map
                (λ x same_x.
                  ap
                    (λ y.
                      six_drops covers libs (filter_of libs ms).sets p y
                      || (y.0 == p.mark && stops y.1.egress p.leaves_by))
                    same_x
                  ∙ ap (λ b. b || (mg.0 == p.mark && stops mg.1.egress p.leaves_by)) at_mg)
                ms i)
        where
          by_members :
              (l : List Text)
              → covered covers l p.source ≡ true
              → any
                  (drops covers (filter_of libs ms).sets p)
                  (six_kills mg.1.gateway l (locals6 libs mg.1.gateway))
                ≡ true
          by_members [] h = absurd (cc)
          by_members (m ∷ l) h =
              rw
                (
                  six,
                  via6_holds covers libs ms own mg i p.source,
                  member,
                  except6_free covers libs ms own mg i p.destination away,
                )
                refl

          at_mg : six_drops covers libs (filter_of libs ms).sets p mg ≡ true
          at_mg = by_members (members_of is_ipv6 mg.1) member

  module _ (foreign : All (λ (x : ℕ × GatewayPlan). x.0 ≢ p.mark) ms) where
    no_mark : (f : ℕ × GatewayPlan → Bool) → any (λ y. y.0 == p.mark && f y) ms ≡ false
    no_mark f =
        any-path _ _ ms (λ y. and_swap (y.0 == p.mark) (f y))
        ∙ any-missed f (λ y. y.0 == p.mark) ms (All-map (λ y n. ground (arith, n)) ms foreign)
      where
        and_swap : (a b : Bool) → (a && b) ≡ (b && a)
        and_swap a b = ground arith

    pub no_masquerade : masqueraded (filter_of libs ms) p ≡ false
    no_masquerade =
        masqueraded-hides covers libs ms p
        ∙ no_mark (λ y. snat_enabled y.1.gateway && hides y.1.egress p.leaves_by)

    pub no_drop :
        All (λ (x : ℕ × GatewayPlan). covered covers (members_of is_ipv6 x.1) p.source ≡ false) ms
        → dropped covers (filter_of libs ms) p ≡ false
    unfolding six_drops any
    no_drop h =
        kills-stops covers libs (filter_of libs ms).sets ms p
        ∙ any-path _ _ ms (λ y.
          ap (λ b. b || (y.0 == p.mark && stops y.1.egress p.leaves_by))
            (by_members y (members_of is_ipv6 y.1)))
        ∙ no_mark (λ y. stops y.1.egress p.leaves_by)
      where
        by_members :
            (y : ℕ × GatewayPlan) (l : List Text)
            → any
                (drops covers (filter_of libs ms).sets p)
                (six_kills y.1.gateway l (locals6 libs y.1.gateway))
              ≡ false
        by_members y [] = refl
        by_members y (m ∷ l) =
            rw (no_via6 covers libs ms (sanitize y.1.gateway.name) p.source h)
              (or_false _ ∙ and_false (is_ipv6 p.source))

  pub no_mark_set :
      All (λ (x : ℕ × GatewayPlan). covered covers (members_of is_ipv4 x.1) p.source ≡ false) ms
      → marked covers (filter_of libs ms) p ≡ p.mark
  no_mark_set h = chain_keeps covers libs (filter_of libs ms).sets ms p p.mark (
      All-of_In ms (λ x j.
        (rw (no_via covers libs ms (sanitize x.1.gateway.name) p.source h)
          (and_false (is_ipv4 p.source)))))
