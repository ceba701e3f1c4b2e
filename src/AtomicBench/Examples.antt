-- ===== src/AtomicBench/Examples.antt =====
-- One worker that makes one addition, up to the point where the thread of `main` is behind the last barrier.
use spack_playground.Prelude.{
  ℕ, zero, suc, ◌<◌, ◌≡◌, refl, ap, ◌∙◌, false, arith, ◌==◌, if◌then◌else◌,
}
use spack_playground.Exits.{goes, exits, faults}
use spack_playground.Barrier
use spack_playground.Barrier.{
  Place, before, passed, Barrier, new_barrier, enter, test_again, enters, tests, notified, tested,
  decremented,
}
use spack_playground.AtomicBench.{
  plan, Bench, new_bench, increment, Enters, in_ready, in_timer, adds, in_finish, Reach, start,
  next, verdict,
}
use spack_playground.AtomicBench.Total.{Reach-verdict}

no_threads : plan 0 8 ≡ faults
no_threads = refl

uneven : plan 3 8 ≡ exits 1
uneven = refl

abbrev first_in : Barrier
first_in = enter 0 (new_barrier 2)

abbrev both_in : Barrier
both_in = enter 1 first_in

abbrev all_out : Barrier
all_out = test_again 0 both_in

abbrev new_one : Barrier
new_one = new_barrier 2

first_enters : Barrier.Step 2 new_one first_in
first_enters = enters new_one 0 (omega arith) refl

main_enters : Barrier.Step 2 first_in both_in
unfolding enter
main_enters = enters first_in 1 (omega arith) refl

first_leaves : Barrier.Step 2 both_in all_out
unfolding enter
first_leaves = tests both_in 0 (omega arith) refl

-- a thread below 2 has passed the barrier that all have left; no other one enters
all_passed :
    (b b' : Barrier)
    → ((i : ℕ) → b.place (suc (suc i)) ≡ before → b'.place (suc (suc i)) ≡ before)
    → (i : ℕ) → Enters i b b'
    → all_out.place i ≡ passed
unfolding enter test_again
all_passed b b' still zero e = refl
all_passed b b' still (suc zero) e = refl
all_passed b b' still (suc (suc i)) e = absurd (e.1 (still i e.0))

-- the steps of one thread put no other one into the barrier
stays_out :
    (b : Barrier) (i j : ℕ) → (i == j) ≡ false → b.place j ≡ before → (enter i b).place j ≡ before
unfolding enter
stays_out b i j apart e =
    ap (λ t. if t then tested (decremented b.nthreads) else notified (b.place j)) apart
    ∙ ap notified e

stays_before :
    (b : Barrier) (i j : ℕ)
    → (i == j) ≡ false
    → b.place j ≡ before
    → (test_again i b).place j ≡ before
unfolding test_again
stays_before b i j apart e = ap (λ t. if t then tested b.nthreads else b.place j) apart ∙ e

abbrev at_ready : Bench
at_ready = record (new_bench 1) { ready = all_out }

at_ready-Reach : Reach 1 1 at_ready
at_ready-Reach =
    next (record (new_bench 1) { ready = both_in }) at_ready
      (next (record (new_bench 1) { ready = first_in }) (record (new_bench 1) { ready = both_in })
        (next (new_bench 1) (record (new_bench 1) { ready = first_in }) start
          (in_ready first_in first_enters))
        (in_ready both_in main_enters))
      (in_ready all_out first_leaves)

abbrev at_timer : Bench
at_timer = record at_ready { timer = all_out }

at_timer-Reach : Reach 1 1 at_timer
unfolding enter test_again
at_timer-Reach =
    next (record at_ready { timer = both_in }) at_timer
      (next (record at_ready { timer = first_in }) (record at_ready { timer = both_in })
        (next at_ready (record at_ready { timer = first_in }) at_ready-Reach
          (in_timer first_in first_enters (
            all_passed new_one first_in
              (λ i e. stays_out new_one 0 (suc (suc i)) (ground arith) e))))
        (in_timer both_in main_enters (
          all_passed first_in both_in
            (λ i e. stays_out first_in 1 (suc (suc i)) (ground arith) e))))
      (in_timer all_out first_leaves
        (all_passed both_in all_out (λ i e. stays_before both_in 0 (suc (suc i)) (ground arith) e)))

abbrev counted : Bench
counted = increment 0 at_timer

counted-Reach : Reach 1 1 counted
unfolding enter test_again increment
counted-Reach = next at_timer counted at_timer-Reach (adds 0 (omega arith) refl (omega arith))

-- the worker has made its one round
all_counted : (b b' : Barrier) (i : ℕ) → i < 1 → Enters i b b' → counted.rounds i ≡ 1
unfolding increment
all_counted b b' zero lt e = refl
all_counted b b' (suc i) lt e = absurd (omega arith)

abbrev main_out : Bench
main_out = record counted { finish = both_in }

main_out-Reach : Reach 1 1 main_out
unfolding enter test_again increment
main_out-Reach =
    next (record counted { finish = first_in }) main_out
      (next counted (record counted { finish = first_in }) counted-Reach
        (in_finish first_in first_enters
          (all_passed new_one first_in (λ i e. stays_out new_one 0 (suc (suc i)) (ground arith) e))
          (all_counted new_one first_in)))
      (in_finish both_in main_enters
        (all_passed first_in both_in (λ i e. stays_out first_in 1 (suc (suc i)) (ground arith) e))
        (all_counted first_in both_in))

Reach-verdict_example : (main_out.counter ≡ 1) × (verdict 1 main_out ≡ goes tt)
unfolding enter
Reach-verdict_example =
    Reach-verdict 1 1 1 main_out refl (omega arith) (omega arith) main_out-Reach refl
