-- ===== src/Synchronized/Values.antt =====
-- What the methods on two objects do to their values.
use spack_playground.Prelude.{
  ℕ, ◌≡◌, refl, sym, ap, ◌∙◌, ◌⊎◌, inl, inr, Bool, true, false, none, some, [], ◌∷◌, arith, ◌==◌,
  ==_iff, if◌then◌else◌, Bool-cases,
}
use spack_playground.Synchronized.{
  Cell, Store, ran, value_of, put_value, put_holder, lock, lock_all, unlock_all, under, assign,
  swap,
}
use spack_playground.Synchronized.Locks.{
  among, lock_all-Locked, unlock_all_others, unlock_all_value, unlock_all_free,
}
use spack_playground.Synchronized.Writes.{
  two, put_value_apart, put_two, put_value_holder, value_put,
}

module _ {T : Type 0} (i : ℕ) (s : Store T) where
  locked_one : ℕ → Store T
  locked_one a = put_holder s a (some i)

  lock_free :
      (t : Store T) (a : ℕ) → (t a).holder ≡ none → lock i a t ≡ ran tt (put_holder t a (some i))
  unfolding lock
  lock_free t a e = rw (e, lock) refl

  module _ (a b : ℕ) (a_free : (s a).holder ≡ none) (b_free : (s b).holder ≡ none) where
    abbrev both_locked : Store T
    both_locked = put_holder (put_holder s a (some i)) b (some i)

    lock_two : (a == b) ≡ false → lock_all i (a ∷ b ∷ []) s ≡ ran tt both_locked
    unfolding lock_all
    lock_two apart =
        let still : (put_holder s a (some i) b).holder ≡ none =
          ap (λ t. (if t then record (s b) { holder = some i } else s b).holder) apart ∙ b_free in
        rw (lock_free s a a_free, lock_all, lock_free (put_holder s a (some i)) b still) refl

    -- A body that keeps the holders, run under both locks.
    under_two :
        (body : Store T → Unit {0} × Store T)
        → (a == b) ≡ false
        → ((t : Store T) (c : ℕ) → ((body t).1 c).holder ≡ (t c).holder)
        → ((t : Store T) (c : ℕ) → among c (a ∷ b ∷ []) ≡ false → (body t).1 c ≡ t c)
        → (s' : Store T) × (under i (a ∷ b ∷ []) body s ≡ ran tt s')
          × ((c : ℕ) → value_of s' c ≡ value_of (body both_locked).1 c)
          × ((c : ℕ) → (s' c).holder ≡ (s c).holder)
    unfolding under
    under_two body apart keeps touches =
        let locked = lock_all-Locked i (a ∷ b ∷ []) s both_locked tt (lock_two apart) in
        let s' : Store T = unlock_all (a ∷ b ∷ []) (body both_locked).1 in
        (
          s',
          rw (lock_two apart, under) refl,
          λ c. unlock_all_value (a ∷ b ∷ []) (body both_locked).1 c,
          λ c. elim (Bool-cases (among c (a ∷ b ∷ []))) [
            | inl m ↦
                unlock_all_free (a ∷ b ∷ []) (body both_locked).1 c m ∙ sym (locked.were_free c m)
            | inr m ↦
                ap (λ x. x.holder)
                  (unlock_all_others (a ∷ b ∷ []) (body both_locked).1 c m
                    ∙ touches both_locked c m
                    ∙ locked.others c m)
          ],
        )

module _ {T : Type 0} where
  value_locked :
      (i : ℕ) (s : Store T) (a b c : ℕ)
      → value_of (put_holder (put_holder s a (some i)) b (some i)) c ≡ value_of s c
  value_locked i s a b c = by_tests (a == c) (b == c)
    where
      by_tests :
          (x y : Bool)
          → let t : Cell T = if x then record (s c) { holder = some i } else s c in
            (if y then record t { holder = some i } else t).value ≡ (s c).value
      by_tests true true = refl
      by_tests true false = refl
      by_tests false true = refl
      by_tests false false = refl

module _ {T : Type 0} (moved : T → T) (i : ℕ) (s : Store T) where
  abbrev locked : (a b : ℕ) → (s a).holder ≡ none → (s b).holder ≡ none → Store T
  locked = both_locked i s

  -- `swap` of two objects that no thread has locked, the same object included, exchanges their values,
  -- changes no other one and leaves every mutex as it was.
  pub swap-exchanges :
      (a b : ℕ)
      → (s a).holder ≡ none
      → (s b).holder ≡ none
      → (s' : Store T) × (swap moved i a b s ≡ ran tt s')
        × ((c : ℕ)
            → value_of s' c
              ≡ (if a == c then value_of s b else if b == c then value_of s a else value_of s c))
        × ((c : ℕ) → (s' c).holder ≡ (s c).holder)
  unfolding swap
  swap-exchanges a b a_free b_free = elim (Bool-cases (a == b)) [
    | inl e ↦ (s, rw e refl, λ c. same_value c ((==_iff a b).0 e), λ c. refl)
    | inr apart ↦
        let body : Store T → Unit {0} × Store T =
          λ t. (tt, put_value (put_value t a (value_of t b)) b (value_of t a)) in
        let (s', run, values, holders) =
          under_two i s a b a_free b_free body apart
            (λ t c.
              put_value_holder (put_value t a (value_of t b)) b (value_of t a) c
              ∙ put_value_holder t a (value_of t b) c)
            (λ t c m. put_two t a b (value_of t b) (value_of t a) c m) in
        (
          s',
          rw (apart, swap) run,
          λ c.
              values c
              ∙ value_put
                  (put_value (locked a b a_free b_free) a (value_of (locked a b a_free b_free) b)) b
                  (value_of (locked a b a_free b_free) a) c
              ∙ ap (λ v. if b == c then value_of (locked a b a_free b_free) a else v)
                  (value_put (locked a b a_free b_free) a (value_of (locked a b a_free b_free) b) c)
              ∙ chosen (a == c) (b == c) (value_locked i s a b a) (value_locked i s a b b)
                  (value_locked i s a b c) (λ x y. both_equal c x y apart),
          holders,
        )
  ]
    where
      same_value :
          (c : ℕ)
          → a ≡ b
          → value_of s c
            ≡ (if a == c then value_of s b else if b == c then value_of s a else value_of s c)
      same_value c e = by_tests (Bool-cases (a == c)) (Bool-cases (b == c))
        where
          by_tests :
              ((a == c) ≡ true) ⊎ ((a == c) ≡ false)
              → ((b == c) ≡ true) ⊎ ((b == c) ≡ false)
              → value_of s c
                ≡ (if a == c then value_of s b else if b == c then value_of s a else value_of s c)
          by_tests (inl p) q = rw p (ap (value_of s) (sym ((==_iff a c).0 p) ∙ e))
          by_tests (inr p) (inl q) = rw (p, q) (ap (value_of s) (sym ((==_iff b c).0 q) ∙ sym e))
          by_tests (inr p) (inr q) = rw (p, q) refl

      both_equal : (c : ℕ) → (a == c) ≡ true → (b == c) ≡ true → (a == b) ≡ false → ⊥
      both_equal c x y apart = ground arith

      chosen :
          (x y : Bool) {va vb vc wa wb wc : T}
          → va ≡ wa
          → vb ≡ wb
          → vc ≡ wc
          → (x ≡ true → y ≡ true → ⊥)
          → (if y then va else (if x then vb else vc)) ≡ (if x then wb else (if y then wa else wc))
      chosen true true p q r apart = absurd (apart refl refl)
      chosen true false p q r apart = q
      chosen false true p q r apart = p
      chosen false false p q r apart = r

  -- `assign` copies the value of the second object, that of the object itself included.
  pub assign-copies :
      (a b : ℕ)
      → (s a).holder ≡ none
      → (s b).holder ≡ none
      → (s' : Store T) × (assign moved i a b s ≡ ran tt s')
        × ((c : ℕ) → value_of s' c ≡ (if a == c then value_of s b else value_of s c))
        × ((c : ℕ) → (s' c).holder ≡ (s c).holder)
  unfolding assign
  assign-copies a b a_free b_free = elim (Bool-cases (b == a)) [
    | inl e ↦ (s, rw e refl, λ c. same_value c ((==_iff b a).0 e), λ c. refl)
    | inr apart ↦
        let body : Store T → Unit {0} × Store T = λ t. (tt, put_value t a (value_of t b)) in
        let (s', run, values, holders) =
          under_two i s a b a_free b_free body (not_equal apart)
            (λ t c. put_value_holder t a (value_of t b) c)
            (λ t c m. put_value_apart t a (value_of t b) c (two (a == c) (among c (b ∷ [])) m).0) in
        (
          s',
          rw (apart, assign) run,
          λ c.
              values c
              ∙ value_put (locked a b a_free b_free) a (value_of (locked a b a_free b_free) b) c
              ∙ ap (λ v. if a == c then v else value_of (locked a b a_free b_free) c)
                  (value_locked i s a b b)
              ∙ ap (λ v. if a == c then value_of s b else v) (value_locked i s a b c),
          holders,
        )
  ]
    where
      not_equal : (b == a) ≡ false → (a == b) ≡ false
      not_equal e = ground arith

      same_value : (c : ℕ) → b ≡ a → value_of s c ≡ (if a == c then value_of s b else value_of s c)
      same_value c e = elim (Bool-cases (a == c)) [
        | inl p ↦ rw p (ap (value_of s) (sym ((==_iff a c).0 p) ∙ sym e))
        | inr p ↦ rw p refl
      ]
