-- ===== src/Api/Gateways/Faults.antt =====
-- What a refusal of `Gateways::validate` says of the document.
use degc.Prelude.{
  ℕ, ◌+◌, ◌<◌, ◌≡◌, refl, false, not, Option, none, some, [], ◌∷◌, ◌++◌, append_assoc, err, ensure,
  is_some, In, Any, Any-left, Any-right, inl, inr, Bool-cases, leb, arith, ◌∙◌, sym, subst, ap,
  if◌then◌else◌,
}
use degc.Text.{Text}
use degc.Map.{BTreeMap, get, insert, eqk, text_key}
use degc.Map.Laws.{get-insert, eqk_iff}
use degc.Api.{Libs, Gateway, GatewayList, Error, duplicate_gateway, many_defaults}
use degc.Api.Validate.{validate}
use degc.Api.Validate.Defects.{IsDefect, on_fail, ensure-fail, validate-IsDefect}
use degc.Api.Gateways.{one_if, validate_each, validate_all}
use degc.Api.Gateways.Clash.{IsClash, unread, check_unique_routing-IsClash}
use degc.Api.Gateways.Document.{count_defaults, each_sound}

-- A gateway of the document has the defect; or two have the name; or more than one is a default; or
-- their marks or tables clash.
pub data IsFault (libs : Libs) (gws : GatewayList) : Error → Type 0 where
  defect : (g : Gateway) {e : Error} → In g gws → IsDefect libs g e → IsFault libs gws e
  names_clash :
      (before : GatewayList) (g : Gateway) (after : GatewayList)
      → gws ≡ before ++ g ∷ after
      → Any (λ (h : Gateway). h.name ≡ g.name) before
      → IsFault libs gws (duplicate_gateway g.name)
  defaults_clash : 1 < count_defaults gws → IsFault libs gws many_defaults
  routing_clash : {e : Error} → IsClash gws e → IsFault libs gws e

-- The keys of the map are names of gateways before.
abbrev IsTraced : GatewayList → BTreeMap Text Unit → Type 0
IsTraced before names =
    (k : Text) → get k names ≡ some (tt {0}) → Any (λ (h : Gateway). h.name ≡ k) before

insert-IsTraced :
    (before : GatewayList) (names : BTreeMap Text Unit) (g : Gateway)
    → IsTraced before names
    → IsTraced (before ++ g ∷ []) (insert g.name tt names)
insert-IsTraced before names g h k e = elim (Bool-cases (eqk g.name k)) [
  | inl same_key ↦ Any-right _ before (g ∷ []) (inl ((eqk_iff g.name k).0 same_key))
  | inr new ↦ Any-left _ before (g ∷ []) (
      h k
        (sym (get-insert g.name k tt names ∙ ap (λ b. if b then some tt else get k names) new) ∙ e))
]

taken : (o : Option (Unit {0})) → not (is_some o) ≡ false → o ≡ some tt
taken none h = absurd (cc)
taken (some u) h = refl

module _ (libs : Libs) (gws : GatewayList) where
  each-IsFault :
      (before rest : GatewayList) (names : BTreeMap Text Unit) (n : ℕ) {e : Error}
      → gws ≡ before ++ rest
      → IsTraced before names
      → validate_each libs rest names n ≡ err e
      → IsFault libs gws e
  unfolding validate_each
  each-IsFault before [] names n split traced h = absurd (cc)
  each-IsFault before (g ∷ rest) names n {e} split traced h = elim (on_fail (validate libs g) _ h) [
    | inl v ↦
        let here : In g gws = subst (In g) (sym split) (Any-right _ before (g ∷ rest) (inl refl)) in
        defect g here (validate-IsDefect libs g v)
    | inr h1 ↦
        elim (on_fail (ensure (not (is_some (get g.name names))) (duplicate_gateway g.name)) _ h1) [
          | inl d ↦
              let (b, same_error) =
                ensure-fail (not (is_some (get g.name names))) (duplicate_gateway g.name) d in
              subst (IsFault libs gws) same_error
                (names_clash before g rest split (traced g.name (taken (get g.name names) b)))
          | inr h2 ↦
              each-IsFault (before ++ g ∷ []) rest (insert g.name tt names)
                (n + one_if g.is_default) (split ∙ sym (append_assoc before (g ∷ []) rest))
                (insert-IsTraced before names g traced) h2
        ]
  ]

  -- Every refusal of `Gateways::validate` is true of the document: a gateway of it has the defect
  -- that the error says; or it names a gateway, and one before has its name; or more than one gateway
  -- is a default; or it is the error of a mark that is no number; or it names a gateway, one before
  -- it, and the mark or the table that both have.
  pub validate_all-IsFault : {e : Error} → validate_all libs gws ≡ err e → IsFault libs gws e
  unfolding validate_all get
  validate_all-IsFault {e} h = elim (unread (validate_each libs gws [] 0) _ e h) [
    | inl v ↦ each-IsFault [] gws [] 0 refl (λ k a. absurd (cc)) v
    | inr (n, counted, h1) ↦ elim (on_fail (ensure (leb n 1) many_defaults) _ h1) [
      | inl d ↦
          let (b, same_error) = ensure-fail (leb n 1) many_defaults d in
          let (_, _, _, count) = each_sound libs gws [] 0 counted in
          subst (IsFault libs gws) same_error (defaults_clash (more_than_one n b count))
      | inr c ↦ routing_clash (check_unique_routing-IsClash gws e c)
    ]
  ]
    where
      more_than_one :
          (n : ℕ) → leb n 1 ≡ false → n ≡ 0 + count_defaults gws → 1 < count_defaults gws
      more_than_one n b count = ground (arith, b, count)
