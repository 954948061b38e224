-- ===== src/Api/Validate/Defects.antt =====
-- What a refusal of `Gateway::validate` says of the gateway.
use degc.Prelude.{
  ℕ, ◌≡◌, ◌⊎◌, refl, Bool, true, false, not, Option, none, some, List, [], ◌∷◌, In, inl, inr,
  Result, ok, err, ◌>>=◌, ◌>>◌, ensure, ok_or, ap, ◌∙◌, subst, arith, ltb, ◌==◌,
}
use degc.Text.{Text}
use degc.Net.Parse.{parse}
use degc.Api.{
  Libs, Gateway, Selector, Error, egress_kinds, bad_mark, zero_mark, zero_table, bad_interface,
  bad_next_hop, bad_local_subnet, empty_selector,
}
use degc.Api.Values.{parse_mark}
use degc.Api.Validate.{
  valid_ifname, kinds, check_mark, check_table, check_interface, check_next_hop, check_subnets,
  check_selectors, validate,
}
use degc.Api.Validate.WellFormed.{IsOneKind, IsInterface, kinds_cases, valid_ifname_iff}

-- The gateway has what the error says.
pub data IsDefect (libs : Libs) (g : Gateway) : Error → Type 0 where
  not_one_kind :
      ¬ IsOneKind g.egress.interface g.egress.container g.egress.next_hop
      → IsDefect libs g (egress_kinds g.name (kinds g.egress))
  mark_unread :
      {m : Text} → g.mark ≡ some m → parse_mark m ≡ none → IsDefect libs g (bad_mark g.name m)
  mark_is_zero :
      {m : Text} → g.mark ≡ some m → parse_mark m ≡ some 0 → IsDefect libs g (zero_mark g.name)
  table_is_zero : g.table ≡ some 0 → IsDefect libs g (zero_table g.name)
  interface_unfit :
      {i : Text}
      → g.egress.interface ≡ some i
      → ¬ IsInterface (some i)
      → IsDefect libs g (bad_interface g.name i)
  next_hop_unread :
      {nh : Text}
      → g.egress.next_hop ≡ some nh
      → parse nh ≡ none
      → IsDefect libs g (bad_next_hop g.name nh)
  subnet_unread :
      {s : Text}
      → In s g.local_subnets
      → libs.network s ≡ none
      → IsDefect libs g (bad_local_subnet g.name s)
  selector_empty : In [] g.members → IsDefect libs g (empty_selector g.name)

-- Where a check fails, or the next.
pub on_fail :
    {A : Type 0} (m : Result Error (Unit {0})) (k : Result Error A) {e : Error}
    → (m >> k) ≡ err e
    → (m ≡ err e) ⊎ (k ≡ err e)
on_fail (ok u) k h = inr h
on_fail (err e) k h = inl cc

pub ensure-fail : (b : Bool) (e : Error) {f : Error} → ensure b e ≡ err f → (b ≡ false) × (e ≡ f)
ensure-fail true e h = absurd (cc)
ensure-fail false e h = (refl, cc)

module _ (libs : Libs) (g : Gateway) {e : Error} where
  mark_fails : (o : Option Text) → g.mark ≡ o → check_mark g.name o ≡ err e → IsDefect libs g e
  unfolding check_mark
  mark_fails none p h = absurd (cc)
  mark_fails (some m) p h = by_value (parse_mark m) refl h
    where
      by_value :
          (o : Option ℕ)
          → parse_mark m ≡ o
          → (do v ← ok_or o (bad_mark g.name m); ensure (not (v == 0)) (zero_mark g.name)) ≡ err e
          → IsDefect libs g e
      by_value none q k =
          let same_error : bad_mark g.name m ≡ e = cc in
          subst (IsDefect libs g) same_error (mark_unread p q)
      by_value (some v) q k =
          let (b, same_error) = ensure-fail (not (v == 0)) (zero_mark g.name) k in
          let zero_value : v ≡ 0 = ground (arith, b) in
          subst (IsDefect libs g) same_error (mark_is_zero p (q ∙ ap some zero_value))

  table_fails : (o : Option ℕ) → g.table ≡ o → check_table g.name o ≡ err e → IsDefect libs g e
  unfolding check_table
  table_fails none p h = absurd (cc)
  table_fails (some t) p h =
      let (b, same_error) = ensure-fail (ltb 0 t) (zero_table g.name) h in
      let zero_value : t ≡ 0 = ground (arith, b) in
      subst (IsDefect libs g) same_error (table_is_zero (p ∙ ap some zero_value))

  interface_fails :
      (o : Option Text)
      → g.egress.interface ≡ o
      → check_interface g.name o ≡ err e
      → IsDefect libs g e
  unfolding check_interface
  interface_fails none p h = absurd (cc)
  interface_fails (some i) p h =
      let (b, same_error) = ensure-fail (valid_ifname i) (bad_interface g.name i) h in
      subst (IsDefect libs g) same_error
        (interface_unfit p (λ k. let holds = (valid_ifname_iff i).1 k in cc))

  -- The error of a value that is not there.
  absent :
      {A : Type 0} (o : Option A) (f : Error) (k : Result Error (Unit {0}))
      → (ok_or o f >> k) ≡ err e
      → ((o ≡ none) × (f ≡ e)) ⊎ (k ≡ err e)
  absent none f k h = inl (refl, cc)
  absent (some a) f k h = inr h

  next_hop_fails :
      (o : Option Text)
      → g.egress.next_hop ≡ o
      → check_next_hop g.name o ≡ err e
      → IsDefect libs g e
  unfolding check_next_hop
  next_hop_fails none p h = absurd (cc)
  next_hop_fails (some nh) p h = elim (absent (parse nh) (bad_next_hop g.name nh) (ok tt) h) [
    | inl (q, same_error) ↦ subst (IsDefect libs g) same_error (next_hop_unread p q)
    | inr k ↦ absurd (cc)
  ]

  subnets_fail :
      (l : List Text)
      → ((s : Text) → In s l → In s g.local_subnets)
      → check_subnets g.name libs l ≡ err e
      → IsDefect libs g e
  unfolding check_subnets
  subnets_fail [] i h = absurd (cc)
  subnets_fail (s ∷ rest) i h =
      elim (absent (libs.network s) (bad_local_subnet g.name s) (check_subnets g.name libs rest)
        h) [
          | inl (q, same_error) ↦
              subst (IsDefect libs g) same_error (subnet_unread (i s (inl refl)) q)
          | inr k ↦ subnets_fail rest (λ t j. i t (inr j)) k
        ]

  selectors_fail :
      (l : List Selector)
      → ((s : Selector) → In s l → In s g.members)
      → check_selectors g.name l ≡ err e
      → IsDefect libs g e
  unfolding check_selectors
  selectors_fail [] i h = absurd (cc)
  selectors_fail ([] ∷ rest) i h =
      let same_error : empty_selector g.name ≡ e = cc in
      subst (IsDefect libs g) same_error (selector_empty (i [] (inl refl)))
  selectors_fail ((p ∷ s) ∷ rest) i h = selectors_fail rest (λ t j. i t (inr j)) h

  kinds_fail :
      ensure (kinds g.egress == 1) (egress_kinds g.name (kinds g.egress)) ≡ err e
      → IsDefect libs g e
  kinds_fail h =
      let (b, same_error) =
        ensure-fail (kinds g.egress == 1) (egress_kinds g.name (kinds g.egress)) h in
      subst (IsDefect libs g) same_error (
        not_one_kind (λ k.
          let one = (kinds_cases g.egress.interface g.egress.container g.egress.next_hop).1 k in
          cc))

  -- Every refusal of `validate` is true of the gateway: the number of kinds of egress that it names,
  -- which is not one; the mark, interface, next hop or subnet that it names and that is none; a mark
  -- or a table of 0; or a selector without entries.
  pub validate-IsDefect : validate libs g ≡ err e → IsDefect libs g e
  unfolding validate
  validate-IsDefect h = elim (on_fail _ _ h) [
    | inl k ↦ kinds_fail k
    | inr h ↦ elim (on_fail _ _ h) [
      | inl k ↦ mark_fails g.mark refl k
      | inr h ↦ elim (on_fail _ _ h) [
        | inl k ↦ table_fails g.table refl k
        | inr h ↦ elim (on_fail _ _ h) [
          | inl k ↦ interface_fails g.egress.interface refl k
          | inr h ↦ elim (on_fail _ _ h) [
            | inl k ↦ next_hop_fails g.egress.next_hop refl k
            | inr h ↦ elim (on_fail _ _ h) [
              | inl k ↦ subnets_fail g.local_subnets (λ s j. j) k
              | inr k ↦ selectors_fail g.members (λ s j. j) k
            ]
          ]
        ]
      ]
    ]
  ]
