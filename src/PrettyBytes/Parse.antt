-- ===== src/PrettyBytes/Parse.antt =====
-- What `prettyTo` accepts, and the number that it returns.
use native.Mathlib.Nat.{mod-lt}
use spack_playground.Prelude.{
  ◌==◌, ==_iff, ℕ, ◌*◌, ◌%◌, ◌^◌, ◌<◌, ◌≡◌, refl, ap, ◌∙◌, ◌⊎◌, inl, inr, true, none, some, [], ◌∷◌,
  ◌++◌, arith, All, Bool-cases, sym,
}
use spack_playground.PrettyBytes.{
  Text, word, base, is_digit, is_suffix, Groups, match_suffix, match_rest, regex_match, decimal,
  extract, ok, invalid_argument, scale, pretty_to,
}

-- The six ways to end a text, with the power of 1024 that each stands for.
pub data Scale : Type 0 where
  plain kilo mega giga tera peta : Scale

abbrev pub written : Scale → Text
written plain = []
written kilo = b'K' ∷ []
written mega = b'M' ∷ []
written giga = b'G' ∷ []
written tera = b'T' ∷ []
written peta = b'P' ∷ []

abbrev pub exponent : Scale → ℕ
exponent plain = 0
exponent kilo = 1
exponent mega = 2
exponent giga = 3
exponent tera = 4
exponent peta = 5

abbrev pub AreDigits : Text → Type 0
AreDigits = All (λ c. is_digit c ≡ true)

abbrev groups : Text → Text → Groups
groups ds s = record { digits = ds; suffix = s }

match_rest-written : (u : Scale) → match_rest (written u) ≡ some (groups [] (written u))
unfolding match_rest
match_rest-written plain = refl
match_rest-written kilo = refl
match_rest-written mega = refl
match_rest-written giga = refl
match_rest-written tera = refl
match_rest-written peta = refl

match_rest-digits :
    (ds : Text) (u : Scale)
    → AreDigits ds
    → match_rest (ds ++ written u) ≡ some (groups ds (written u))
unfolding match_rest
match_rest-digits [] u h = match_rest-written u
match_rest-digits (c ∷ ds) u h = rw (h.0, match_rest-digits ds u h.1) refl

scale-written :
    (n : ℕ) (u : Scale) → n < word → scale n (written u) ≡ ok (n * base ^ exponent u % word)
unfolding scale
scale-written n plain h = ap ok (omega arith)
scale-written n kilo h = refl
scale-written n mega h = refl
scale-written n giga h = refl
scale-written n tera h = refl
scale-written n peta h = refl

extract-lt : (s : Text) → extract s < word
extract-lt s = omega arith

regex_match-digits :
    (d : ℕ) (ds : Text) (u : Scale)
    → AreDigits (d ∷ ds)
    → regex_match ((d ∷ ds) ++ written u) ≡ some (groups (d ∷ ds) (written u))
unfolding regex_match
regex_match-digits d ds u h = rw (h.0, match_rest-digits ds u h.1) refl

-- Every non-empty run of digits behind which one of the five suffixes or nothing stands is accepted.
-- The result is its number, cut to the greatest 64-bit number, times the power of 1024 that the
-- suffix names, modulo 2 ^ 64.
pub pretty_to-digits :
    (d : ℕ) (ds : Text) (u : Scale)
    → AreDigits (d ∷ ds)
    → pretty_to ((d ∷ ds) ++ written u) ≡ ok (extract (d ∷ ds) * base ^ exponent u % word)
unfolding pretty_to
pretty_to-digits d ds u h =
    rw (regex_match-digits d ds u h, pretty_to)
      (scale-written (extract (d ∷ ds)) u (extract-lt (d ∷ ds)))

-- Where the product fits into 64 bits, nothing is cut and nothing wraps: the result is the number
-- that is written.
pub pretty_to_exact :
    (d : ℕ) (ds : Text) (u : Scale)
    → AreDigits (d ∷ ds)
    → decimal (d ∷ ds) * base ^ exponent u < word
    → pretty_to ((d ∷ ds) ++ written u) ≡ ok (decimal (d ∷ ds) * base ^ exponent u)
pretty_to_exact d ds u h fits = pretty_to-digits d ds u h ∙ ap ok (exact u fits)
  where
    exact :
        (v : Scale)
        → decimal (d ∷ ds) * base ^ exponent v < word
        → extract (d ∷ ds) * base ^ exponent v % word ≡ decimal (d ∷ ds) * base ^ exponent v
    exact plain small = omega arith
    exact kilo small = omega arith
    exact mega small = omega arith
    exact giga small = omega arith
    exact tera small = omega arith
    exact peta small = omega arith

-- A text of the form that the pattern describes.
pub record IsPretty (s : Text) : Type 0 where
  pub first : ℕ
  pub others : Text
  pub unit : Scale
  pub digits : AreDigits (first ∷ others)
  pub split : s ≡ (first ∷ others) ++ written unit

abbrev Suffixed : Text → Type 0
Suffixed s = (ds : Text) × (u : Scale) × AreDigits ds × (s ≡ ds ++ written u)

-- By the value of the byte: a suffix letter is one of five.
suffix-cases : (c : ℕ) → is_suffix c ≡ true → (u : Scale) × (c ∷ [] ≡ written u)
suffix-cases c h = elim (Bool-cases (c == b'K')) [
  | inl e ↦ (kilo, ap (λ x. x ∷ []) ((==_iff c b'K').0 e))
  | inr e₁ ↦ elim (Bool-cases (c == b'M')) [
    | inl e ↦ (mega, ap (λ x. x ∷ []) ((==_iff c b'M').0 e))
    | inr e₂ ↦ elim (Bool-cases (c == b'G')) [
      | inl e ↦ (giga, ap (λ x. x ∷ []) ((==_iff c b'G').0 e))
      | inr e₃ ↦ elim (Bool-cases (c == b'T')) [
        | inl e ↦ (tera, ap (λ x. x ∷ []) ((==_iff c b'T').0 e))
        | inr e₄ ↦ (peta, ap (λ x. x ∷ []) (ground arith))
      ]
    ]
  ]
]

match_suffix_sound :
    (c : ℕ) (s : Text) → ((u : Scale) × (c ∷ s ≡ written u)) ⊎ (match_suffix c s ≡ none)
unfolding match_suffix
match_suffix_sound c [] = elim (Bool-cases (is_suffix c)) [
  | inl e ↦ inl (suffix-cases c e)
  | inr e ↦ inr (rw e refl)
]
match_suffix_sound c (d ∷ s) = inr refl

match_rest_sound : (s : Text) → Suffixed s ⊎ (match_rest s ≡ none)
unfolding match_rest
match_rest_sound [] = inl ([], plain, tt, refl)
match_rest_sound (c ∷ s) = elim (Bool-cases (is_digit c)) [
  | inl digit ↦ elim (match_rest_sound s) [
    | inl (ds, u, all, e) ↦ inl (c ∷ ds, u, (digit, all), ap (λ t. c ∷ t) e)
    | inr e ↦ inr (rw (digit, e) refl)
  ]
  | inr other ↦ elim (match_suffix_sound c s) [
    | inl (u, e) ↦ inl ([], u, tt, e)
    | inr e ↦ inr (rw (other, e) refl)
  ]
]

regex_match_sound : (s : Text) → IsPretty s ⊎ (regex_match s ≡ none)
unfolding regex_match
regex_match_sound [] = inr refl
regex_match_sound (c ∷ s) = elim (Bool-cases (is_digit c)) [
  | inl digit ↦ elim (match_rest_sound s) [
    | inl (ds, u, all, e) ↦ inl (record {
      first = c;
      others = ds;
      unit = u;
      digits = (digit, all);
      split = ap (λ t. c ∷ t) e;
    })
    | inr e ↦ inr (rw (digit, e) refl)
  ]
  | inr other ↦ inr (rw other refl)
]

refused_text : (s : Text) → regex_match s ≡ none → pretty_to s ≡ invalid_argument s
unfolding pretty_to
refused_text s e = rw (e, pretty_to) refl

-- The number that a text of the form stands for.
abbrev pub pretty_value : (s : Text) → IsPretty s → ℕ
pretty_value s p = extract (p.first ∷ p.others) * base ^ exponent p.unit % word

-- Every text is of the form, and the function returns its number; or it is not, and the function throws
-- `invalid_argument` with the text. So the end of the function that "must not reach here" is never reached.
pub pretty_to-decides :
    (s : Text)
    → ((p : IsPretty s) × (pretty_to s ≡ ok (pretty_value s p)))
      ⊎ ((¬ IsPretty s) × (pretty_to s ≡ invalid_argument s))
pretty_to-decides s = elim (regex_match_sound s) [
  | inl p ↦ inl (p, value_of p)
  | inr e ↦ inr (λ p. absurd (cc (sym (value_of p) ∙ refused_text s e)), refused_text s e)
]
  where
    value_of : (p : IsPretty s) → pretty_to s ≡ ok (pretty_value s p)
    value_of p = ap pretty_to p.split ∙ pretty_to-digits p.first p.others p.unit p.digits

-- Whatever the text, the function returns a number below 2 ^ 64 or throws `invalid_argument`.
pub pretty_to_total :
    (s : Text) → ((n : ℕ) × (pretty_to s ≡ ok n) × (n < word)) ⊎ (pretty_to s ≡ invalid_argument s)
pretty_to_total s = elim (pretty_to-decides s) [
  | inl (p, e) ↦ inl (
    pretty_value s p,
    e,
    mod-lt (extract (p.first ∷ p.others) * base ^ exponent p.unit) (omega arith),
  )
  | inr (_, e) ↦ inr e
]
