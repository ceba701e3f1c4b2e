-- ===== src/AtomicBench/Total.antt =====
-- No addition is lost: the counter that `main` tests is the total that was asked for.
use native.Mathlib.Nat.{mod-eq_of_lt, mod-add-div'}
use spack_playground.Prelude.{
  ℕ, zero, suc, ◌+◌, ◌*◌, ◌/◌, ◌%◌, ◌^◌, ◌<◌, ◌≡◌, ◌≢◌, refl, sym, ap, ◌∙◌, ◌⊎◌, inl, inr, Bool,
  true, false, not, arith, if◌then◌else◌, ◌==◌, ==_refl, Bool-cases,
}
use spack_playground.Prelude.Family.{sum_first, sum_first_const, sum_first-update}
use spack_playground.Exits.{Run, goes, exits, faults, goes_injective}
use spack_playground.Barrier.{Place, before, asleep, runnable, passed, Barrier, new_barrier}
use spack_playground.Barrier
use spack_playground.Barrier.Once.{is_before, nobody_early}
use spack_playground.AtomicBench.{
  plan, Bench, increment, Step, in_ready, in_timer, adds, in_finish, Reach, start, next, verdict,
}

-- The counter is the sum of the rounds, and a worker that has entered the last barrier made them all.
pub record IsCounted (n c : ℕ) (s : Bench) : Type 0 where
  pub counter : s.counter ≡ sum_first n s.rounds % 2 ^ 64
  pub rounds : (i : ℕ) → i < n → s.finish.place i ≢ before → s.rounds i ≡ c
  pub barrier : Barrier.Reach (n + 1) s.finish

before_or_not : (p : Place) → (p ≡ before) ⊎ (p ≢ before)
before_or_not before = inl refl
before_or_not asleep = inr (λ e. cc e)
before_or_not runnable = inr (λ e. cc e)
before_or_not passed = inr (λ e. cc e)

module _ (n c : ℕ) where
  sum_new : (m : ℕ) → sum_first m (λ i. 0) ≡ 0
  unfolding sum_first
  sum_new zero = refl
  sum_new (suc m) = omega (arith, sum_new m)

  Step-IsCounted : (s s' : Bench) → IsCounted n c s → Step n c s s' → IsCounted n c s'
  unfolding increment
  Step-IsCounted s _ is (in_ready b step) = record {
    counter = is.counter;
    rounds = is.rounds;
    barrier = is.barrier;
  }
  Step-IsCounted s _ is (in_timer b step ready) = record {
    counter = is.counter;
    rounds = is.rounds;
    barrier = is.barrier;
  }
  Step-IsCounted s _ is (adds i lt at less) = record {
    counter = grind (arith, is.counter, sum_first-update n s.rounds i lt);
    rounds = λ j j_lt entered. ground (arith, is.rounds j j_lt entered);
    barrier = is.barrier;
  }
  Step-IsCounted s _ is (in_finish b step timed ended) = record {
    counter = is.counter;
    rounds = λ i lt entered. elim (before_or_not (s.finish.place i)) [
      | inl e ↦ ended i lt (e, entered)
      | inr e ↦ is.rounds i lt e
    ];
    barrier = Barrier.next s.finish b is.barrier step;
  }

  Reach-IsCounted : (s : Bench) → Reach n c s → IsCounted n c s
  Reach-IsCounted _ start = record {
    counter = ap (λ x. x % 2 ^ 64) (sym (sum_new n));
    rounds = λ i lt entered. absurd (entered refl);
    barrier = Barrier.start;
  }
  Reach-IsCounted _ (next s s' reach step) = Step-IsCounted s s' (Reach-IsCounted s reach) step

  -- where the thread of `main` has passed the last barrier, every worker made all its rounds
  Reach-total :
      (s : Bench)
      → n + 1 < 2 ^ 64
      → Reach n c s
      → s.finish.place n ≡ passed
      → s.counter ≡ n * c % 2 ^ 64
  Reach-total s small reach at_end =
      let is = Reach-IsCounted s reach in
      is.counter
      ∙ ap (λ t. t % 2 ^ 64)
          (sum_first_const n c s.rounds (λ i lt. is.rounds i lt (
            has_entered (s.finish.place i) (
              nobody_early (n + 1) small s.finish is.barrier n i (omega arith) (omega (arith, lt))
                at_end))))
    where
      has_entered : (p : Place) → is_before p ≡ false → p ≢ before
      has_entered before e f = cc e
      has_entered asleep e f = cc f
      has_entered runnable e f = cc f
      has_entered passed e f = cc f

-- arguments that the test lets through divide evenly
plan_whole :
    (nthreads total_count c : ℕ) → plan nthreads total_count ≡ goes c → nthreads * c ≡ total_count
plan_whole n t c planned = by_tests (n == 0) (Bool-cases (t % n == 0)) planned
  where
    by_tests :
        (zero_threads : Bool)
        → ((t % n == 0) ≡ true) ⊎ ((t % n == 0) ≡ false)
        → ◌≡◌ {A = Run ℕ}
            (if zero_threads then faults else if not (t % n == 0) then exits 1 else goes (t / n))
            (goes c)
        → n * c ≡ t
    by_tests true even e = absurd (cc e)
    by_tests false (inr odd) e =
        absurd (cc (sym (ap (λ b. if not b then exits 1 else goes (t / n)) odd) ∙ e))
    by_tests false (inl even) e =
        let whole : t / n ≡ c =
          goes_injective (sym (ap (λ b. if not b then exits 1 else goes (t / n)) even) ∙ e) in
        ap (λ q. n * q) (sym whole) ∙ grind (arith, mod-add-div' t n)

-- With arguments that the test lets through, in every interleaving of the additions and of the steps in the
-- three barriers: once the thread of `main` is behind the last barrier, the counter is the total that was
-- asked for, and the program does not throw.
pub Reach-verdict :
    (nthreads total_count c : ℕ) (s : Bench)
    → plan nthreads total_count ≡ goes c
    → nthreads + 1 < 2 ^ 64
    → total_count < 2 ^ 64
    → Reach nthreads c s
    → s.finish.place nthreads ≡ passed
    → (s.counter ≡ total_count) × (verdict total_count s ≡ goes tt)
Reach-verdict nthreads total_count c s planned small fits reach at_end =
    let total : s.counter ≡ total_count =
      Reach-total nthreads c s small reach at_end
      ∙ ap (λ t. t % 2 ^ 64) (plan_whole nthreads total_count c planned)
      ∙ mod-eq_of_lt fits in
    (total, rw (total, ==_refl total_count) refl)
