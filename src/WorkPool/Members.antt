-- ===== src/WorkPool/Members.antt =====
-- The flags of the units agree with the deque.
use spack_playground.Prelude.{
  ℕ, ◌+◌, ◌≡◌, ◌⊎◌, refl, sym, ap, ◌∙◌, inl, inr, Bool, true, false, none, some, List, [], ◌∷◌,
  ◌++◌, arith, ◌==◌, ==_iff, if◌then◌else◌, Bool-cases,
}
use spack_playground.Prelude.Family.{one_if, update}
use spack_playground.Prelude.Occurrences.{occurrences, occurrences-append}
use spack_playground.WorkPool.{
  Pool, push, pop_from, pop, erase_found, remove, pushes, pops, removes, Reach, start, next,
}

some_injective : {x y : List ℕ} → some x ≡ some y → x ≡ y
some_injective e = cc

-- A unit whose flag is set stands once in the deque, any other not at all.
abbrev pub IsValid : Pool → Type 0
IsValid p = (u : ℕ) → occurrences u p.units ≡ one_if (p.in_pool u)

erase_found-none : (u : ℕ) (us : List ℕ) → erase_found u us ≡ none → occurrences u us ≡ 0
unfolding erase_found occurrences
erase_found-none u [] e = refl
erase_found-none u (x ∷ xs) e = ground (arith, erase_found-none u xs)

erase_found_lem :
    (u v : ℕ) (us : List ℕ)
    → (erase_found u us ≡ none)
      ⊎ ((rest : List ℕ) × (erase_found u us ≡ some rest)
          × (occurrences v us ≡ one_if (u == v) + occurrences v rest))
unfolding erase_found occurrences
erase_found_lem u v [] = inl refl
erase_found_lem u v (x ∷ xs) = elim (Bool-cases (x == u)) [
  | inl e ↦ inr (xs, rw (e, erase_found) refl, same_unit x u ((==_iff x u).0 e))
  | inr e ↦ elim (erase_found_lem u v xs) [
    | inl missing ↦ inl (rw (e, erase_found, missing) refl)
    | inr (rest, run, counts) ↦ inr (x ∷ rest, rw (e, erase_found, run) refl, omega (arith, counts))
  ]
]
  where
    same_unit :
        (x u : ℕ) → x ≡ u → one_if (x == v) + occurrences v xs ≡ one_if (u == v) + occurrences v xs
    same_unit x u e = ap (λ t. one_if (t == v) + occurrences v xs) e

push-IsValid : (p : Pool) (u : ℕ) → IsValid p → p.in_pool u ≡ false → IsValid (push u p)
unfolding push occurrences
push-IsValid p u valid out v =
    by_flag (occurrences-append v p.units (u ∷ [])) (valid v) (ap one_if out) (valid u)
  where
    by_flag :
        occurrences v (p.units ++ u ∷ []) ≡ occurrences v p.units + (one_if (u == v) + 0)
        → occurrences v p.units ≡ one_if (p.in_pool v)
        → one_if (p.in_pool u) ≡ 0
        → occurrences u p.units ≡ one_if (p.in_pool u)
        → occurrences v (p.units ++ u ∷ []) ≡ one_if (if u == v then true else p.in_pool v)
    by_flag e f g h = ground arith

taken-counts :
    (p : Pool) (u : ℕ) (us : List ℕ)
    → IsValid p
    → ((v : ℕ) → occurrences v p.units ≡ one_if (u == v) + occurrences v us)
    → IsValid (record { units = us; in_pool = update p.in_pool u false })
taken-counts p u us valid counts v =
    by_flag (p.in_pool v) (occurrences v p.units) (occurrences v us) (valid v) (counts v)
  where
    by_flag :
        (flag : Bool) (m n : ℕ)
        → m ≡ one_if flag
        → m ≡ one_if (u == v) + n
        → n ≡ one_if (if u == v then false else flag)
    by_flag flag m n e f = ground arith

pop-IsValid : (p : Pool) → IsValid p → IsValid (pop p).1
unfolding pop pop_from
pop-IsValid p valid = by_units p.units refl
  where
    by_units : (us : List ℕ) → us ≡ p.units → IsValid (pop_from us p).1
    by_units [] e = valid
    by_units (u ∷ us) e = taken-counts p u us valid (λ v. ap (occurrences v) (sym e) ∙ first v)
      where
        first : (v : ℕ) → occurrences v (u ∷ us) ≡ one_if (u == v) + occurrences v us
        first v = unfold occurrences in refl

remove-IsValid : (p : Pool) (u : ℕ) → IsValid p → IsValid (remove u p)
unfolding remove
remove-IsValid p u valid = elim (erase_found_lem u 0 p.units) [
  | inl missing ↦ rw (missing, remove) valid
  | inr (us, run, _) ↦ rw (run, remove) (taken-counts p u us valid (λ v. counts v us run))
]
  where
    counts :
        (v : ℕ) (us : List ℕ)
        → erase_found u p.units ≡ some us
        → occurrences v p.units ≡ one_if (u == v) + occurrences v us
    counts v us run = elim (erase_found_lem u v p.units) [
      | inl missing ↦ absurd (cc (sym missing ∙ run))
      | inr (rest, run', e) ↦
          e ∙ ap (λ t. one_if (u == v) + occurrences v t) (some_injective (sym run' ∙ run))
    ]

-- Whatever sequence of `push`, `pop` and `remove` has run on a new pool, where no unit is pushed that is
-- already in it: a unit whose `inPool_` is set stands exactly once in the deque, any other not at all.
pub Reach-IsValid : (p : Pool) → Reach p → (u : ℕ) → occurrences u p.units ≡ one_if (p.in_pool u)
Reach-IsValid _ start = λ u. unfold occurrences in refl
Reach-IsValid _ (next p _ reach (pushes _ u out)) = push-IsValid p u (Reach-IsValid p reach) out
Reach-IsValid _ (next p _ reach (pops _)) = pop-IsValid p (Reach-IsValid p reach)
Reach-IsValid _ (next p _ reach (removes _ u)) = remove-IsValid p u (Reach-IsValid p reach)
