-- ===== src/Tests/Kernel.antt =====
-- A host that has no next hop in reach, and in which every other command of degc's succeeds, as an
-- instance of `Kernel`.
use degc.Prelude.{
  ◌≡◌, refl, sym, ◌∙◌, inl, inr, ◌⊎◌, Bool, true, false, Option, none, some, List, [], ◌∷◌,
  if◌then◌else◌, ap,
}
use degc.Text.{Text, str, same}
use degc.Plan.{interface, next_hop, unavailable}
use degc.Enforce.Host.{Programs, exited, nft_exited}
use degc.Enforce.Kernel.{
  Hop, dev, Host, Command, set_floor, add_rule, del_rule, set_egress, flush, words, complaint,
  effect, succeeded, Kernel,
}

abbrev set_live : Text → Option Hop → Host → Host
set_live t hop h = record h { live = λ u. if same t u then hop else h.live u }

abbrev remove : Bool → Text → Text → Host → Host
remove true m t h = effect (del_rule m t) h
remove false t u h = effect (flush t) h

-- The commands have different lengths, but for two.
abbrev obey : List Text → Host → Bool × Host
obey (w1 ∷ w2 ∷ w3 ∷ x ∷ w5 ∷ y ∷ []) h = (true, remove (same w1 (str "rule")) x y h)
obey (w1 ∷ w2 ∷ w3 ∷ m ∷ w5 ∷ t ∷ w7 ∷ w8 ∷ []) h = (true, effect (add_rule m t) h)
obey (w1 ∷ w2 ∷ w3 ∷ w4 ∷ t ∷ w6 ∷ w7 ∷ w8 ∷ w9 ∷ []) h = (true, set_live t none h)
obey (w1 ∷ w2 ∷ w3 ∷ w4 ∷ w5 ∷ t ∷ w7 ∷ w8 ∷ w9 ∷ w10 ∷ []) h = (true, effect (set_floor t) h)
obey (w1 ∷ w2 ∷ w3 ∷ kind ∷ x ∷ w6 ∷ t ∷ w8 ∷ w9 ∷ w10 ∷ w11 ∷ []) h =
    if same kind (str "dev") then (true, set_live t (some (dev x)) h) else (false, h)
obey args h = (false, h)

abbrev pub obedient : Programs Host
obedient = record {
  ip = λ args h. let (success, after) = obey args h in (exited success [] [], after);
  nft = λ script h. (nft_exited true [], h);
}

abbrev pub bare : Host
bare = record { floor = λ t. false; live = λ t. none; rule = λ m t. false }

-- A command has its effect, or it fails and has no such effect as leaves nothing to do.
pub obeys :
    (c : Command) (h : Host)
    → (obey (words c) h ≡ (true, effect c h))
      ⊎ ((obey (words c) h ≡ (false, h)) × (complaint c ≡ none))
unfolding same
obeys (set_floor t) h = inl refl
obeys (add_rule m t) h = inl refl
obeys (del_rule m t) h = inl refl
obeys (set_egress t (interface i)) h = inl refl
obeys (set_egress t (next_hop ip)) h = inr (refl, refl)
obeys (set_egress t (unavailable why)) h = inl refl
obeys (flush t) h = inl refl

abbrev answer : Command → Host → Bool × Host
answer c h = obey (words c) h

pub success_of : {x y : Bool × Host} → x ≡ y → x.0 ≡ y.0
success_of e = ap (λ (x : Bool × Host). x.0) e

pub host_of : {x y : Bool × Host} → x ≡ y → x.1 ≡ y.1
host_of e = ap (λ (x : Bool × Host). x.1) e

apart : (b : Bool) → b ≡ true → b ≡ false → ⊥
apart b e f = cc

-- A command that has a complaint never fails here.
pub no_complaint :
    (c : Command) (h : Host) (said : Text) → complaint c ≡ some said → (answer c h).0 ≡ false → ⊥
no_complaint c h said i e = elim (obeys c h) [
  | inl q ↦ apart (answer c h).0 (success_of q) e
  | inr (q, n) ↦ (let both = sym n ∙ i in cc)
]

pub succeeds : (c : Command) (h : Host) → (answer c h).0 ≡ true → (answer c h).1 ≡ effect c h
succeeds c h e = elim (obeys c h) [
  | inl q ↦ host_of q
  | inr (q, n) ↦ absurd (apart (answer c h).0 e (success_of q))
]

pub fails : (c : Command) (h : Host) → (answer c h).0 ≡ false → (answer c h).1 ≡ h
fails c h e = elim (obeys c h) [
  | inl q ↦ absurd (apart (answer c h).0 (success_of q) e)
  | inr (q, n) ↦ host_of q
]

abbrev pub obedient_kernel : Kernel obedient
obedient_kernel = record {
  view = λ h. h;
  has_effect = λ c h e. succeeds c h e;
  has_none = λ c h e. fails c h e;
  nothing_to_do = λ c h said i {out} {error} e m. absurd (no_complaint c h said i (ap succeeded e));
  no_other = λ c h said i {out} {error} e. absurd (no_complaint c h said i (ap succeeded e));
  show_rules_reads = λ h. refl;
  show_table_reads = λ t h. refl;
  nft_keeps = λ s h. refl;
}
