-- ===== src/Enforce/Filter/Lookup.antt =====
-- The sets of a gateway in the whole filter.
use degc.Prelude.{
  any-append, and_false, ℕ, ◌≡◌, refl, Bool, false, ◌&&◌, ◌||◌, not, List, [], ◌∷◌, ◌++◌, any,
  is_empty, All, In, ap, ◌∙◌,
}
use degc.Text.{Text, str, same}
use degc.Text.Laws.{same_refl}
use degc.Net.{IpAddr, is_ipv4, is_ipv6}
use degc.Api.{Libs}
use degc.Plan.{GatewayPlan}
use degc.Enforce.Nft.{sanitize}
use degc.Enforce.Filter.{
  SetDef, covered, in_set, in_except, via_name, local_name, via6_name, local6_name, members_of,
  except_name, locals4, locals6, own_filter, filter_of,
}
use degc.Enforce.Filter.Apart.{any-IsOnly, HasOwnSets, plans_of, same_set, set-IsOnly}
use degc.Enforce.Filter.Sets.{own-via, own-local, own-via6, own-local6}

pub any-path :
    {A : Type 0} (f g : A → Bool) (l : List A) → ((x : A) → f x ≡ g x) → any f l ≡ any g l
unfolding any
any-path f g [] h = refl
any-path f g (x ∷ l) h = rw (h x, any-path f g l h) refl

pub any-missed :
    {A : Type 0} (t f : A → Bool) (l : List A)
    → All (λ x. f x ≡ false) l
    → any (λ x. t x && f x) l ≡ false
unfolding any
any-missed t f [] h = refl
any-missed t f (x ∷ l) (h, rest) = rw (h, and_false, any-missed t f l rest) refl

module _ (covers : Text → IpAddr → Bool) (libs : Libs) where
  in_set-filter_of :
      (ms : List (ℕ × GatewayPlan)) (name : Text) (ip : IpAddr)
      → in_set covers (filter_of libs ms).sets name ip
        ≡ any (λ mg. in_set covers (own_filter libs mg).sets name ip) ms
  unfolding any
  in_set-filter_of [] name ip = refl
  in_set-filter_of (mg ∷ rest) name ip =
      any-append (λ (s : SetDef). same s.name name && covered covers s.elements ip)
        (own_filter libs mg).sets (filter_of libs rest).sets
      ∙ ap (λ b. in_set covers (own_filter libs mg).sets name ip || b)
          (in_set-filter_of rest name ip)

  -- An address that no gateway has as a member is in no set of members.
  module _ (ms : List (ℕ × GatewayPlan)) (x : Text) (ip : IpAddr) where
    pub no_via :
        All (λ (mg : ℕ × GatewayPlan). covered covers (members_of is_ipv4 mg.1) ip ≡ false) ms
        → in_set covers (filter_of libs ms).sets (str "degc_via_" ++ x) ip ≡ false
    no_via h =
        in_set-filter_of ms (str "degc_via_" ++ x) ip
        ∙ any-path _ _ ms (λ mg. own-via covers libs mg x ip)
        ∙ any-missed (λ mg. same (sanitize mg.1.gateway.name) x)
            (λ mg. covered covers (members_of is_ipv4 mg.1) ip) ms h

    pub no_via6 :
        All (λ (mg : ℕ × GatewayPlan). covered covers (members_of is_ipv6 mg.1) ip ≡ false) ms
        → in_set covers (filter_of libs ms).sets (str "degc_via6_" ++ x) ip ≡ false
    no_via6 h =
        in_set-filter_of ms (str "degc_via6_" ++ x) ip
        ∙ any-path _ _ ms (λ mg. own-via6 covers libs mg x ip)
        ∙ any-missed (λ mg. same (sanitize mg.1.gateway.name) x)
            (λ mg. covered covers (members_of is_ipv6 mg.1) ip) ms h

  module _ (ms : List (ℕ × GatewayPlan)) (own : HasOwnSets (plans_of ms)) (mg : ℕ × GatewayPlan)
      (i : In mg ms) (ip : IpAddr) where
    -- The part of a look-up that is the same for the four sets.
    sole :
        (f : ℕ × GatewayPlan → Bool)
        → any (λ y. same (sanitize y.1.gateway.name) (sanitize mg.1.gateway.name) && f y) ms ≡ f mg
    sole f = any-IsOnly (λ y. same_set y mg) f mg ms i (same_refl _) (set-IsOnly ms mg own i)

    pub via_holds :
        in_set covers (filter_of libs ms).sets (via_name mg.1.gateway) ip
        ≡ covered covers (members_of is_ipv4 mg.1) ip
    via_holds =
        in_set-filter_of ms (via_name mg.1.gateway) ip
        ∙ any-path _ _ ms (λ y. own-via covers libs y (sanitize mg.1.gateway.name) ip)
        ∙ sole (λ y. covered covers (members_of is_ipv4 y.1) ip)

    pub via6_holds :
        in_set covers (filter_of libs ms).sets (via6_name mg.1.gateway) ip
        ≡ covered covers (members_of is_ipv6 mg.1) ip
    via6_holds =
        in_set-filter_of ms (via6_name mg.1.gateway) ip
        ∙ any-path _ _ ms (λ y. own-via6 covers libs y (sanitize mg.1.gateway.name) ip)
        ∙ sole (λ y. covered covers (members_of is_ipv6 y.1) ip)

    local_holds :
        in_set covers (filter_of libs ms).sets (local_name mg.1.gateway) ip
        ≡ covered covers (locals4 libs mg.1.gateway) ip
    local_holds =
        in_set-filter_of ms (local_name mg.1.gateway) ip
        ∙ any-path _ _ ms (λ y. own-local covers libs y (sanitize mg.1.gateway.name) ip)
        ∙ sole (λ y. covered covers (locals4 libs y.1.gateway) ip)

    local6_holds : in_set covers (filter_of libs ms).sets (local6_name mg.1.gateway) ip ≡ (
        not (is_empty (members_of is_ipv6 mg.1)) && covered covers (locals6 libs mg.1.gateway) ip)
    local6_holds =
        in_set-filter_of ms (local6_name mg.1.gateway) ip
        ∙ any-path _ _ ms (λ y. own-local6 covers libs y (sanitize mg.1.gateway.name) ip)
        ∙ sole (λ y.
          not (is_empty (members_of is_ipv6 y.1)) && covered covers (locals6 libs y.1.gateway) ip)

    pub except_holds :
        in_except covers
          (filter_of libs ms).sets
          (except_name (local_name mg.1.gateway) (locals4 libs mg.1.gateway))
          ip
        ≡ covered covers (locals4 libs mg.1.gateway) ip
    unfolding any
    except_holds = by_cidrs (locals4 libs mg.1.gateway) local_holds
      where
        by_cidrs :
            (cidrs : List Text)
            → in_set covers (filter_of libs ms).sets (local_name mg.1.gateway) ip
              ≡ covered covers cidrs ip
            → in_except covers
                (filter_of libs ms).sets
                (except_name (local_name mg.1.gateway) cidrs)
                ip
              ≡ covered covers cidrs ip
        by_cidrs [] h = refl
        by_cidrs (c ∷ cidrs) h = h

    pub except6_free :
        covered covers (locals6 libs mg.1.gateway) ip ≡ false
        → in_except covers
            (filter_of libs ms).sets
            (except_name (local6_name mg.1.gateway) (locals6 libs mg.1.gateway))
            ip
          ≡ false
    except6_free free =
        by_cidrs (locals6 libs mg.1.gateway) (local6_holds ∙ (rw free (and_false _)))
      where
        by_cidrs :
            (cidrs : List Text)
            → in_set covers (filter_of libs ms).sets (local6_name mg.1.gateway) ip ≡ false
            → in_except covers
                (filter_of libs ms).sets
                (except_name (local6_name mg.1.gateway) cidrs)
                ip
              ≡ false
        by_cidrs [] h = refl
        by_cidrs (c ∷ cidrs) h = h
