-- ===== src/Barrier/Once.antt =====
-- A barrier that each of its `n` threads enters once.
use spack_playground.Prelude.{
  ℕ, ◌+◌, ◌^◌, ◌<◌, ◌≡◌, ◌≢◌, refl, sym, ap, ◌∙◌, ◌⊎◌, inl, inr, Bool, true, false, arith, ◌==◌,
  ==_iff, ==_refl, Bool-cases,
}
use spack_playground.Prelude.Family.{
  update, one_if, count_first, count_first-update, count_first_congr, count_first_zero,
  count_first_all, count_first_none,
}
use spack_playground.Barrier.{
  Place, before, asleep, runnable, passed, Barrier, new_barrier, notified, tested, decremented,
  enter, test_again, stir, Step, enters, tests, stirs, Reach, start, next,
}

-- whether a thread has not yet called `enter`
abbrev pub is_before : Place → Bool
is_before before = true
is_before asleep = false
is_before runnable = false
is_before passed = false

-- The member counts the threads that are still to come; nobody has passed before it is 0, and
-- nobody is blocked when it is.
pub record IsValid (n : ℕ) (b : Barrier) : Type 0 where
  pub counts : b.nthreads ≡ count_first is_before n b.place
  pub closed : (i : ℕ) → i < n → b.place i ≡ passed → b.nthreads ≡ 0
  pub opened : (i : ℕ) → i < n → b.place i ≡ asleep → b.nthreads ≢ 0
  pub small : b.nthreads < 2 ^ 64

decremented_lem : (m : ℕ) → 0 < m → m < 2 ^ 64 → decremented m + 1 ≡ m
decremented_lem m positive small = omega arith

tested_before : (m : ℕ) → is_before (tested m) ≡ false
tested_before m = ground arith

tested_passed : (m : ℕ) → tested m ≡ passed → m ≡ 0
tested_passed m e = ground arith

tested_asleep : (m : ℕ) → tested m ≡ asleep → m ≢ 0
tested_asleep m e = ground arith

update_cases :
    (f : ℕ → Place) (i j : ℕ) (p : Place)
    → ((i ≡ j) × (update f i p j ≡ p)) ⊎ (update f i p j ≡ f j)
update_cases f i j p = elim (Bool-cases (i == j)) [
  | inl e ↦ inl ((==_iff i j).0 e, rw e refl)
  | inr e ↦ inr (rw e refl)
]

notified_before : (p : Place) → is_before (notified p) ≡ is_before p
notified_before before = refl
notified_before asleep = refl
notified_before runnable = refl
notified_before passed = refl

notified_passed : (p : Place) → notified p ≡ passed → p ≡ passed
notified_passed p e = ground arith

notified_asleep : (p : Place) → notified p ≢ asleep
notified_asleep p e = ground arith

new_barrier-IsValid : (n : ℕ) → n < 2 ^ 64 → IsValid n (new_barrier n)
new_barrier-IsValid n small = record {
  counts = sym (count_first_all is_before n (λ i. before) (λ i. refl));
  closed = λ i lt e. absurd (cc e);
  opened = λ i lt e. absurd (cc e);
  small = small;
}

module _ (n : ℕ) (b : Barrier) (valid : IsValid n b) (i : ℕ) (lt : i < n) where
  open valid use {counts, closed, opened, small}

  still_positive : b.place i ≡ before → 0 < b.nthreads
  still_positive at = elim (count_cases b.nthreads) [
    | inl zero_count ↦
        absurd (
          cc (ap is_before at, count_first_zero is_before n b.place i (sym counts ∙ zero_count) lt))
    | inr positive ↦ positive
  ]
    where
      count_cases : (m : ℕ) → (m ≡ 0) ⊎ (0 < m)
      count_cases m = ground arith

  enter-counts :
      b.place i ≡ before → (enter i b).nthreads ≡ count_first is_before n (enter i b).place
  unfolding enter
  enter-counts at =
      let rest : ℕ → Place = λ j. notified (b.place j) in
      let m : ℕ = decremented b.nthreads in
      omega (
        arith,
        decremented_lem b.nthreads (still_positive at) small,
        counts,
        count_first_congr is_before n rest b.place (λ j. notified_before (b.place j)),
        count_first-update is_before n rest i (tested m) lt,
        ap one_if (tested_before m),
        ap one_if (notified_before (b.place i) ∙ ap is_before at),
      )

  enter-IsValid : b.place i ≡ before → IsValid n (enter i b)
  unfolding enter
  enter-IsValid at =
      let rest : ℕ → Place = λ j. notified (b.place j) in
      let m : ℕ = decremented b.nthreads in
      let positive : 0 < b.nthreads = still_positive at in
      let one_less : m + 1 ≡ b.nthreads = decremented_lem b.nthreads positive small in
      record {
        counts = enter-counts at;
        closed = λ j j_lt e. elim (update_cases rest i j (tested m)) [
          | inl (_, here) ↦ tested_passed m (sym here ∙ e)
          | inr there ↦
              let none_left : b.nthreads ≡ 0 =
                closed j j_lt (notified_passed (b.place j) (sym there ∙ e)) in
              omega (arith, positive, none_left)
        ];
        opened = λ j j_lt e. elim (update_cases rest i j (tested m)) [
          | inl (_, here) ↦ tested_asleep m (sym here ∙ e)
          | inr there ↦ absurd (notified_asleep (b.place j) (sym there ∙ e))
        ];
        small = omega (arith, one_less, small);
      }

  moved-counts :
      (p : Place)
      → is_before (b.place i) ≡ false
      → is_before p ≡ false
      → b.nthreads ≡ count_first is_before n (update b.place i p)
  moved-counts p at e =
      omega
        (arith, counts, count_first-update is_before n b.place i p lt, ap one_if at, ap one_if e)

  test_again-IsValid : b.place i ≡ runnable → IsValid n (test_again i b)
  unfolding test_again
  test_again-IsValid at = record {
    counts = moved-counts (tested b.nthreads) (ap is_before at) (tested_before b.nthreads);
    closed = λ j j_lt e. elim (update_cases b.place i j (tested b.nthreads)) [
      | inl (_, here) ↦ tested_passed b.nthreads (sym here ∙ e)
      | inr there ↦ closed j j_lt (sym there ∙ e)
    ];
    opened = λ j j_lt e. elim (update_cases b.place i j (tested b.nthreads)) [
      | inl (_, here) ↦ tested_asleep b.nthreads (sym here ∙ e)
      | inr there ↦ opened j j_lt (sym there ∙ e)
    ];
    small = small;
  }

  stir-IsValid : b.place i ≡ asleep → IsValid n (stir i b)
  unfolding stir
  stir-IsValid at = record {
    counts = moved-counts runnable (ap is_before at) refl;
    closed = λ j j_lt e. elim (update_cases b.place i j runnable) [
      | inl (_, here) ↦ absurd (cc (sym here ∙ e))
      | inr there ↦ closed j j_lt (sym there ∙ e)
    ];
    opened = λ j j_lt e. elim (update_cases b.place i j runnable) [
      | inl (_, here) ↦ absurd (cc (sym here ∙ e))
      | inr there ↦ opened j j_lt (sym there ∙ e)
    ];
    small = small;
  }

Step-IsValid : (n : ℕ) (b b' : Barrier) → Step n b b' → IsValid n b → IsValid n b'
Step-IsValid n _ _ (enters b i lt at) valid = enter-IsValid n b valid i lt at
Step-IsValid n _ _ (tests b i lt at) valid = test_again-IsValid n b valid i lt at
Step-IsValid n _ _ (stirs b i lt at) valid = stir-IsValid n b valid i lt at

Reach-IsValid : (n : ℕ) → n < 2 ^ 64 → (b : Barrier) → Reach n b → IsValid n b
Reach-IsValid n small _ start = new_barrier-IsValid n small
Reach-IsValid n small _ (next b b' reach step) =
    Step-IsValid n b b' step (Reach-IsValid n small b reach)

waiting_cases : (p : Place) → is_before p ≡ false → p ≢ asleep → (p ≡ passed) ⊎ (p ≡ runnable)
waiting_cases p entered awake = ground arith

module _ (n : ℕ) (small : n < 2 ^ 64) (b : Barrier) (reach : Reach n b) where
  -- However the threads and the wake-ups are scheduled, where one of the `n` threads has passed the
  -- barrier all of them have entered it.
  pub nobody_early : (i j : ℕ) → i < n → j < n → b.place i ≡ passed → is_before (b.place j) ≡ false
  nobody_early i j i_lt j_lt e =
      let valid = Reach-IsValid n small b reach in
      count_first_zero is_before n b.place j (sym valid.counts ∙ valid.closed i i_lt e) j_lt

  -- No wake-up is lost: where all `n` threads have entered, each of them has passed, or is runnable and
  -- passes at its next test.
  pub nobody_stuck :
      ((j : ℕ) → j < n → is_before (b.place j) ≡ false)
      → (i : ℕ) → i < n
      → (b.place i ≡ passed) ⊎ ((b.place i ≡ runnable) × ((test_again i b).place i ≡ passed))
  unfolding test_again
  nobody_stuck entered i lt =
      let valid = Reach-IsValid n small b reach in
      let open_now : b.nthreads ≡ 0 = valid.counts ∙ count_first_none is_before n b.place entered in
      elim (waiting_cases (b.place i) (entered i lt) (λ e. valid.opened i lt e open_now)) [
        | inl e ↦ inl e
        | inr e ↦ inr (e, rw (==_refl i, open_now) refl)
      ]
