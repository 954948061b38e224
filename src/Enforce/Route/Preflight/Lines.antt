-- ===== src/Enforce/Route/Preflight/Lines.antt =====
-- What a line of `ip rule show` and of `ip route show` means to the preflight.
use mathlib.Core.Option.{some-injective}
use degc.Prelude.{
  ℕ, suc, ◌+◌, ◌≡◌, ◌≢◌, ◌↔◌, refl, Bool, true, false, ◌&&◌, not, Option, none, some, List, [], ◌∷◌,
  Bool-cases, inl, inr, head?, get_elem?, ap, ◌∙◌, sym, arith, if◌then◌else◌, ◌==◌,
}
use degc.Text.{Text, str, same, contains, split, split_by, push}
use degc.Text.Laws.{same_iff}
use degc.Enforce.Route.Preflight.{
  is_foreign, position, token_after, unmasked, unmask, is_token, is_conflict,
}

-- A line of a route that has not degc's protocol.
abbrev pub IsForeign : Text → Type 0
IsForeign l = (l ≢ []) × (contains (str "proto 194") l ≡ false)

-- The word behind the first that is this one.
abbrev pub next_word : Text → List Text → Option Text
next_word word [] = none
next_word word (t ∷ rest) =
    let later = next_word word rest in if same t word then head? rest else later

abbrev pub before_slash : Text → Text
before_slash [] = []
before_slash (c ∷ s) = let rest = before_slash s in if c == b'/' then [] else c ∷ rest

-- The words of a rule that selects the mark, with a mask or without, and looks up another table.
abbrev pub IsDiversion : Text → Text → List Text → Type 0
IsDiversion mark table words =
    (m : Text) × (next_word (str "fwmark") words ≡ some m)
    × (before_slash m ≡ mark)
    × (next_word (str "lookup") words ≢ some table)

pub is_foreign-IsForeign : (l : Text) → (is_foreign l ≡ false) ↔ (¬ IsForeign l)
unfolding is_foreign
is_foreign-IsForeign [] = (λ e f. f.0 refl, λ n. refl)
is_foreign-IsForeign (c ∷ l) = elim (Bool-cases (contains (str "proto 194") (c ∷ l))) [
  | inl e ↦ (λ h f. absurd (let g = f.1 in cc), λ n. rw e refl)
  | inr e ↦ (λ h f. absurd (ground (arith, h, e)), λ n. absurd (n (λ q. cc, e)))
]

token_after-next_word :
    (word : Text) (toks : List Text) → token_after word toks ≡ next_word word toks
unfolding token_after position
token_after-next_word word [] = refl
token_after-next_word word (t ∷ rest) =
    next (same t word) (position word rest) (next_word word rest) (token_after-next_word word rest)
  where
    first : (l : List Text) → get_elem? (t ∷ l) (0 + 1) ≡ head? l
    first [] = refl
    first (x ∷ l) = refl

    found : Bool → Option ℕ → Option ℕ
    found b o = if b then some 0 else elim o [ none ↦ none | some i ↦ some (suc i) ]

    next :
        (b : Bool) (o : Option ℕ) (n : Option Text)
        → elim o [ none ↦ none | some i ↦ get_elem? rest (i + 1) ] ≡ n
        → elim (found b o) [ none ↦ none | some i ↦ get_elem? (t ∷ rest) (i + 1) ]
          ≡ (if b then head? rest else n)
    next true o n h = first rest
    next false none n h = h
    next false (some i) n h =
        (let e : suc i + 1 ≡ suc (i + 1) = omega arith in ap (get_elem? (t ∷ rest)) e ∙ h)

head-before_slash : (s : Text) → head? (split b'/' s) ≡ some (before_slash s)
unfolding split_by
head-before_slash [] = refl
head-before_slash (c ∷ s) = elim (Bool-cases (c == b'/')) [
  | inl e ↦ rw e refl
  | inr e ↦ rw e (pushed (split b'/' s) (head-before_slash s))
]
  where
    pushed :
        (l : List Text)
        → head? l ≡ some (before_slash s)
        → head? (push c l) ≡ some (c ∷ before_slash s)
    pushed [] h = cc
    pushed (p ∷ l) h = ap (λ x. some (c ∷ x)) (some-injective p (before_slash s) h)

unmasked-before_slash : (t : Text) → unmasked t ≡ before_slash t
unfolding unmasked
unmasked-before_slash t = rw (head-before_slash t) refl

is_conflict-words :
    (mark table : Text) (toks : List Text)
    → is_conflict mark table toks ≡ (
        is_token (unmask (next_word (str "fwmark") toks)) mark
        && not (is_token (next_word (str "lookup") toks) table))
unfolding is_conflict token_after
is_conflict-words mark table toks =
    at_position (position (str "fwmark") toks)
    ∙ ap (λ x. is_token (unmask x) mark && not (is_token (token_after (str "lookup") toks) table))
        (token_after-next_word (str "fwmark") toks)
    ∙ ap (λ y. is_token (unmask (next_word (str "fwmark") toks)) mark && not (is_token y table))
        (token_after-next_word (str "lookup") toks)
  where
    at_position :
        (o : Option ℕ)
        → elim o [
          | none ↦ false
          | some i ↦
              is_token (unmask (get_elem? toks (i + 1))) mark
              && not (is_token (token_after (str "lookup") toks) table)
        ]
          ≡ (is_token (unmask (elim o [ none ↦ none | some i ↦ get_elem? toks (i + 1) ])) mark
              && not (is_token (token_after (str "lookup") toks) table))
    at_position none = refl
    at_position (some i) = refl

is_token_iff : (o : Option Text) (t : Text) → (is_token o t ≡ true) ↔ (o ≡ some t)
is_token_iff none t = (λ h. cc, λ h. cc)
is_token_iff (some s) t =
    (λ h. ap some ((same_iff s t).0 h), λ h. (same_iff s t).1 (some-injective s t h))

-- The tests of the words that stand behind `fwmark` and behind `lookup`.
diverts :
    (mark table : Text) (f l : Option Text)
    → ((is_token (unmask f) mark && not (is_token l table)) ≡ false)
      ↔ (¬ ((m : Text) × (f ≡ some m) × (before_slash m ≡ mark) × (l ≢ some table)))
diverts mark table none l = (λ h d. (let e = d.1 in cc), λ n. refl)
diverts mark table (some m) l = elim (Bool-cases (same (unmasked m) mark)) [
  | inr e ↦ (
    λ h d.
        (let one = some-injective m d.0 d.1 in
          let is_same =
            (same_iff (unmasked m) mark).1 (ap unmasked one ∙ unmasked-before_slash d.0 ∙ d.2) in
          cc),
    λ n. rw e refl,
  )
  | inl e ↦ elim (Bool-cases (is_token l table)) [
    | inl k ↦ (λ h d. d.3 ((is_token_iff l table).0 k), λ n. rw (e, k) refl)
    | inr k ↦ (
      λ h d. absurd (ground (arith, h, e, k)),
      λ n. absurd (
          n (
            m,
            refl,
            sym (unmasked-before_slash m) ∙ (same_iff (unmasked m) mark).0 e,
            λ q. (let found = (is_token_iff l table).1 q in cc),
          )),
    )
  ]
]

pub is_conflict-IsDiversion :
    (mark table : Text) (toks : List Text)
    → (is_conflict mark table toks ≡ false) ↔ (¬ IsDiversion mark table toks)
is_conflict-IsDiversion mark table toks =
    let d = diverts mark table (next_word (str "fwmark") toks) (next_word (str "lookup") toks) in
    let e = is_conflict-words mark table toks in (λ h. d.0 (sym e ∙ h), λ n. e ∙ d.1 n)
