-- ===== src/Api/Validate/WellFormed.antt =====
-- What `Gateway::validate` accepts, said without its code.
use mathlib.Core.List.{cons-ne-nil}
use degc.Prelude.{
  ℕ, ◌≤◌, ◌<◌, ◌≡◌, ◌≢◌, ◌↔◌, ◌⊎◌, refl, true, not, Option, none, some, List, [], ◌∷◌, Result, ok,
  err, ◌>>=◌, ◌>>◌, ensure, ensure_iff, ok_or, all, arith, ◌==◌, All, filter,
}
use degc.Text.{Text}
use degc.Text.Utf8.{byte_length}
use degc.Text.Chars.{is_ascii_alphanumeric}
use degc.Net.{IpAddr}
use degc.Net.Parse.{parse}
use degc.Api.{Libs, Network, Gateway, Selector, Error, egress_kinds, bad_local_subnet}
use degc.Api.Values.{parse_mark}
use degc.Api.Validate.{
  ifname_char, valid_ifname, kinds, check_mark, check_table, check_interface, check_next_hop,
  check_subnets, check_selectors, validate,
}

-- Exactly one kind of egress is set.
abbrev pub IsOneKind : Option Text → Option Text → Option Text → Type 0
IsOneKind (some _) none none = Unit
IsOneKind none (some _) none = Unit
IsOneKind none none (some _) = Unit
IsOneKind _ _ _ = ⊥

abbrev pub IsMark : Option Text → Type 0
IsMark none = Unit
IsMark (some m) = (v : ℕ) × (parse_mark m ≡ some v) × (v ≢ 0)

abbrev pub IsTable : Option ℕ → Type 0
IsTable none = Unit
IsTable (some t) = 0 < t

abbrev pub IsIfnameChar : ℕ → Type 0
IsIfnameChar c =
    ((b'0' ≤ c) × (c ≤ b'9'))
    ⊎ ((b'A' ≤ c) × (c ≤ b'Z'))
    ⊎ ((b'a' ≤ c) × (c ≤ b'z'))
    ⊎ (c ≡ b'.')
    ⊎ (c ≡ b'-')
    ⊎ (c ≡ b'_')

abbrev pub IsInterface : Option Text → Type 0
IsInterface none = Unit
IsInterface (some i) = (1 ≤ byte_length i) × (byte_length i ≤ 15) × All IsIfnameChar i

abbrev pub IsNextHop : Option Text → Type 0
IsNextHop none = Unit
IsNextHop (some nh) = (ip : IpAddr) × (parse nh ≡ some ip)

pub record IsWellFormed (libs : Libs) (g : Gateway) : Type 0 where
  pub one_kind : IsOneKind g.egress.interface g.egress.container g.egress.next_hop
  pub mark : IsMark g.mark
  pub table : IsTable g.table
  pub interface : IsInterface g.egress.interface
  pub next_hop : IsNextHop g.egress.next_hop
  pub subnets : All (λ s. (n : Network) × (libs.network s ≡ some n)) g.local_subnets
  pub selectors : All (λ (s : Selector). s ≢ []) g.members

pub kinds_cases :
    (i c n : Option Text)
    → ((kinds (record { interface = i; container = c; next_hop = n }) == 1) ≡ true)
      ↔ IsOneKind i c n
unfolding kinds filter
kinds_cases (some _) (some _) (some _) = (λ h. cc, λ h. elim h [ ])
kinds_cases (some _) (some _) none = (λ h. cc, λ h. elim h [ ])
kinds_cases (some _) none (some _) = (λ h. cc, λ h. elim h [ ])
kinds_cases (some _) none none = (λ h. tt, λ h. refl)
kinds_cases none (some _) (some _) = (λ h. cc, λ h. elim h [ ])
kinds_cases none (some _) none = (λ h. tt, λ h. refl)
kinds_cases none none (some _) = (λ h. tt, λ h. refl)
kinds_cases none none none = (λ h. cc, λ h. elim h [ ])

-- What the chain asks of an optional value.
present_iff :
    {A : Type 0} (o : Option A) (e : Error) (k : Result Error (Unit {0}))
    → ((ok_or o e >> k) ≡ ok tt) ↔ (((a : A) × (o ≡ some a)) × (k ≡ ok tt))
present_iff none e k = (λ h. cc, λ p. cc (p.0.1))
present_iff (some a) e k = (λ h. ((a, refl), h), λ p. p.1)

nonzero_iff :
    (o : Option ℕ) (e f : Error)
    → ((ok_or o e >>= λ v. ensure (not (v == 0)) f) ≡ ok tt) ↔ ((v : ℕ) × (o ≡ some v) × (v ≢ 0))
nonzero_iff none e f = (λ h. cc, λ p. cc (p.1))
nonzero_iff (some v) e f =
    (λ h. (v, refl, λ z. ground (arith, (ensure_iff _ f).0 h)), λ p. ground (arith, p.1, p.2))

ifname_char_iff : (c : ℕ) → (ifname_char c ≡ true) ↔ IsIfnameChar c
unfolding ifname_char is_ascii_alphanumeric
ifname_char_iff c = (λ h. grind arith, λ h. ground arith)

all-ifname_char : (s : Text) → (all ifname_char s ≡ true) ↔ All IsIfnameChar s
unfolding all
all-ifname_char [] = (λ h. tt, λ h. refl)
all-ifname_char (c ∷ s) = (
  λ h. ((ifname_char_iff c).0 (ground (arith, h)), (all-ifname_char s).0 (ground (arith, h))),
  λ h. ground (arith, (ifname_char_iff c).1 h.0, (all-ifname_char s).1 h.1),
)

pub valid_ifname_iff : (s : Text) → (valid_ifname s ≡ true) ↔ IsInterface (some s)
unfolding valid_ifname
valid_ifname_iff s = (
  λ h. (ground arith, ground arith, (all-ifname_char s).0 (ground arith)),
  λ h. ground (arith, h.0, h.1, (all-ifname_char s).1 h.2),
)

module _ (name : Text) where
  check_mark_iff : (o : Option Text) → (check_mark name o ≡ ok tt) ↔ IsMark o
  unfolding check_mark
  check_mark_iff none = (λ h. tt, λ h. refl)
  check_mark_iff (some m) = nonzero_iff (parse_mark m) _ _

  check_table_iff : (o : Option ℕ) → (check_table name o ≡ ok tt) ↔ IsTable o
  unfolding check_table
  check_table_iff none = (λ h. tt, λ h. refl)
  check_table_iff (some t) = (λ h. ground (arith, (ensure_iff _ _).0 h), λ h. ground arith)

  check_interface_iff : (o : Option Text) → (check_interface name o ≡ ok tt) ↔ IsInterface o
  unfolding check_interface
  check_interface_iff none = (λ h. tt, λ h. refl)
  check_interface_iff (some i) = (
    λ h. (valid_ifname_iff i).0 ((ensure_iff _ _).0 h),
    λ h. (ensure_iff _ _).1 ((valid_ifname_iff i).1 h),
  )

  check_next_hop_iff : (o : Option Text) → (check_next_hop name o ≡ ok tt) ↔ IsNextHop o
  unfolding check_next_hop
  check_next_hop_iff none = (λ h. tt, λ h. refl)
  check_next_hop_iff (some nh) = (
    λ h. ((present_iff (parse nh) _ (ok tt)).0 h).0,
    λ h. (present_iff (parse nh) _ (ok tt)).1 (h, refl),
  )

  check_subnets_iff :
      (libs : Libs) (l : List Text)
      → (check_subnets name libs l ≡ ok tt) ↔ All (λ s. (n : Network) × (libs.network s ≡ some n)) l
  unfolding check_subnets
  check_subnets_iff libs [] = (λ h. tt, λ h. refl)
  check_subnets_iff libs (s ∷ rest) =
      let parts =
        present_iff (libs.network s) (bad_local_subnet name s) (check_subnets name libs rest) in
      (
        λ h. ((parts.0 h).0, (check_subnets_iff libs rest).0 (parts.0 h).1),
        λ h. parts.1 (h.0, (check_subnets_iff libs rest).1 h.1),
      )

  check_selectors_iff :
      (l : List Selector) → (check_selectors name l ≡ ok tt) ↔ All (λ (s : Selector). s ≢ []) l
  unfolding check_selectors
  check_selectors_iff [] = (λ h. tt, λ h. refl)
  check_selectors_iff ([] ∷ rest) = (λ h. cc, λ h. absurd (h.0 refl))
  check_selectors_iff ((p ∷ s) ∷ rest) = (
    λ h. (cons-ne-nil _ _, (check_selectors_iff rest).0 h),
    λ h. (check_selectors_iff rest).1 h.1,
  )

-- A sequence of checks.
both_iff : (m k : Result Error (Unit {0})) → ((m >> k) ≡ ok tt) ↔ ((m ≡ ok tt) × (k ≡ ok tt))
both_iff (ok u) k = (λ h. (refl, h), λ h. h.1)
both_iff (err e) k = (λ h. cc, λ h. cc (h.0))

-- `validate` accepts a gateway exactly where each of its fields is well formed.
pub validate_iff : (libs : Libs) (g : Gateway) → (validate libs g ≡ ok tt) ↔ IsWellFormed libs g
unfolding validate
validate_iff libs g =
    let c1 = ensure (kinds g.egress == 1) (egress_kinds g.name (kinds g.egress)) in
    let c2 = check_mark g.name g.mark in
    let c3 = check_table g.name g.table in
    let c4 = check_interface g.name g.egress.interface in
    let c5 = check_next_hop g.name g.egress.next_hop in
    let c6 = check_subnets g.name libs g.local_subnets in
    let c7 = check_selectors g.name g.members in
    let b1 = both_iff c1 (c2 >> (c3 >> (c4 >> (c5 >> (c6 >> c7))))) in
    let b2 = both_iff c2 (c3 >> (c4 >> (c5 >> (c6 >> c7)))) in
    let b3 = both_iff c3 (c4 >> (c5 >> (c6 >> c7))) in
    let b4 = both_iff c4 (c5 >> (c6 >> c7)) in
    let b5 = both_iff c5 (c6 >> c7) in
    let b6 = both_iff c6 c7 in
    let kinds_ok = ensure_iff (kinds g.egress == 1) (egress_kinds g.name (kinds g.egress)) in
    let one = kinds_cases g.egress.interface g.egress.container g.egress.next_hop in
    (
      λ h.
          let p1 = b1.0 h in
          let p2 = b2.0 p1.1 in
          let p3 = b3.0 p2.1 in
          let p4 = b4.0 p3.1 in
          let p5 = b5.0 p4.1 in
          let p6 = b6.0 p5.1 in
          record {
            one_kind = one.0 (kinds_ok.0 p1.0);
            mark = (check_mark_iff g.name g.mark).0 p2.0;
            table = (check_table_iff g.name g.table).0 p3.0;
            interface = (check_interface_iff g.name g.egress.interface).0 p4.0;
            next_hop = (check_next_hop_iff g.name g.egress.next_hop).0 p5.0;
            subnets = (check_subnets_iff g.name libs g.local_subnets).0 p6.0;
            selectors = (check_selectors_iff g.name g.members).0 p6.1;
          },
      λ w.
          let s6 = b6.1 (
            (check_subnets_iff g.name libs g.local_subnets).1 w.subnets,
            (check_selectors_iff g.name g.members).1 w.selectors,
          ) in
          let s5 = b5.1 ((check_next_hop_iff g.name g.egress.next_hop).1 w.next_hop, s6) in
          let s4 = b4.1 ((check_interface_iff g.name g.egress.interface).1 w.interface, s5) in
          let s3 = b3.1 ((check_table_iff g.name g.table).1 w.table, s4) in
          let s2 = b2.1 ((check_mark_iff g.name g.mark).1 w.mark, s3) in
          b1.1 (kinds_ok.1 (one.1 w.one_kind), s2),
    )
