-- ===== src/Api/Gateways/Document.antt =====
-- What `Gateways::validate` accepts: well-formed gateways with names of their own, at most one
-- default, and routing identities of their own.
use degc.Prelude.{
  ℕ, ◌+◌, ◌≤◌, ◌≡◌, ◌≢◌, ◌↔◌, refl, true, not, Option, none, some, [], ◌∷◌, ok, ◌>>◌, >>=-eq-ok,
  >>-eq-ok, ensure, ensure_iff, is_some, All, All-map, All-map2, ◌∙◌, sym, arith, ap, leb, leb→le,
  le→leb,
}
use degc.Text.{Text}
use degc.Map.{BTreeMap, get, insert, text_key}
use degc.Map.Laws.{get-insert-none}
use degc.Api.{Libs, Gateway, GatewayList, duplicate_gateway, many_defaults}
use degc.Api.Validate.{validate}
use degc.Api.Validate.WellFormed.{IsWellFormed, validate_iff}
use degc.Api.Gateways.{one_if, validate_each, validate_all, check_unique_routing}
use degc.Api.Gateways.Unique.{IsUnique, check_unique_routing_iff}

-- No later gateway has the name of an earlier one.
abbrev pub HasOwnNames : GatewayList → Type 0
HasOwnNames [] = Unit
HasOwnNames (g ∷ rest) = All (λ (h : Gateway). h.name ≢ g.name) rest × HasOwnNames rest

abbrev pub count_defaults : GatewayList → ℕ
count_defaults [] = 0
count_defaults (g ∷ rest) = one_if g.is_default + count_defaults rest

pub record IsDocument (libs : Libs) (gws : GatewayList) : Type 0 where
  pub well_formed : All (IsWellFormed libs) gws
  pub own_names : HasOwnNames gws
  pub one_default : count_defaults gws ≤ 1
  pub unique : IsUnique gws

abbrev IsUnseen : BTreeMap Text Unit → Gateway → Type 0
IsUnseen seen g = get g.name seen ≡ none

unseen_iff : (o : Option (Unit {0})) → (not (is_some o) ≡ true) ↔ (o ≡ none)
unseen_iff none = (λ h. refl, λ h. refl)
unseen_iff (some u) = (λ h. cc, λ h. cc)

module _ (libs : Libs) where
  each_step :
      (g : Gateway) (rest : GatewayList) (seen : BTreeMap Text Unit) (n : ℕ)
      → validate libs g ≡ ok tt
      → get g.name seen ≡ none
      → validate_each libs (g ∷ rest) seen n
        ≡ validate_each libs rest (insert g.name tt seen) (n + one_if g.is_default)
  unfolding validate_each
  each_step g rest seen n v unseen = rw (v, unseen)

  each_inv :
      (g : Gateway) (rest : GatewayList) (seen : BTreeMap Text Unit) (n : ℕ) {k : ℕ}
      → validate_each libs (g ∷ rest) seen n ≡ ok k
      → (validate libs g ≡ ok tt)
        × (get g.name seen ≡ none)
        × (validate_each libs rest (insert g.name tt seen) (n + one_if g.is_default) ≡ ok k)
  unfolding validate_each
  each_inv g rest seen n h =
      let later = validate_each libs rest (insert g.name tt seen) (n + one_if g.is_default) in
      let check = ensure (not (is_some (get g.name seen))) (duplicate_gateway g.name) in
      let first = >>-eq-ok (validate libs g) (check >> later) h in
      let second = >>-eq-ok check later first.1 in
      (first.0.1, (unseen_iff _).0 ((ensure_iff _ _).0 second.0.1), second.1)

  pub each_sound :
      (gws : GatewayList) (seen : BTreeMap Text Unit) (n : ℕ) {k : ℕ}
      → validate_each libs gws seen n ≡ ok k
      → All (IsWellFormed libs) gws
        × HasOwnNames gws
        × All (IsUnseen seen) gws
        × (k ≡ n + count_defaults gws)
  unfolding validate_each
  each_sound [] seen n {k} h = (tt, tt, tt, let e : n ≡ k = cc in omega (arith, e))
  each_sound (g ∷ rest) seen n h =
      let (v, unseen, after) = each_inv g rest seen n h in
      let (wf, own, fresh, count) =
        each_sound rest (insert g.name tt seen) (n + one_if g.is_default) after in
      let split = λ (x : Gateway). (get-insert-none g.name x.name tt seen).0 in
      (
        ((validate_iff libs g).0 v, wf),
        (All-map (λ x f e. (split x f).0 (sym e)) rest fresh, own),
        (unseen, All-map (λ x f. (split x f).1) rest fresh),
        omega (arith, count),
      )

  each_complete :
      (gws : GatewayList) (seen : BTreeMap Text Unit) (n : ℕ)
      → All (IsWellFormed libs) gws
      → HasOwnNames gws
      → All (IsUnseen seen) gws
      → validate_each libs gws seen n ≡ ok (n + count_defaults gws)
  each_complete [] seen n wf own fresh = unfold validate_each in ap ok (omega arith)
  each_complete (g ∷ rest) seen n (w, wf) (apart, own) (unseen, fresh) =
      each_step g rest seen n ((validate_iff libs g).1 w) unseen
      ∙ each_complete rest (insert g.name tt seen) (n + one_if g.is_default) wf own (
          All-map2 (λ x f a. (get-insert-none g.name x.name tt seen).1 (λ e. a (sym e), f)) rest
            fresh apart)
      ∙ ap ok (omega arith)

  All-IsUnseen : (gws : GatewayList) → All (IsUnseen []) gws
  unfolding get
  All-IsUnseen [] = tt
  All-IsUnseen (g ∷ rest) = (refl, All-IsUnseen rest)

  -- A document is accepted exactly where its gateways are well formed, have names, marks and
  -- tables of their own, and at most one of them is a default.
  pub validate_all_iff : (gws : GatewayList) → (validate_all libs gws ≡ ok tt) ↔ IsDocument libs gws
  unfolding validate_all
  validate_all_iff gws = (
    λ h.
        let (k, counted, after) =
          >>=-eq-ok (validate_each libs gws [] 0)
            (λ k. ensure (leb k 1) many_defaults >> check_unique_routing gws) h in
        let (bounded, unique) =
          >>-eq-ok (ensure (leb k 1) many_defaults) (check_unique_routing gws) after in
        let (wf, own, _, count) = each_sound gws [] 0 counted in
        record {
          well_formed = wf;
          own_names = own;
          one_default = omega (arith, count, leb→le k 1 ((ensure_iff _ _).0 bounded.1));
          unique = (check_unique_routing_iff gws).0 unique;
        },
    λ d. rw (each_complete gws [] 0 d.well_formed d.own_names (All-IsUnseen gws)) (
        rw (le→leb (0 + count_defaults gws) 1 (omega (arith, d.one_default)))
          ((check_unique_routing_iff gws).1 d.unique)),
  )
