-- ===== src/DistCounter/Examples.antt =====
-- One worker that has made one transaction, and the theorem at it.
use spack_playground.Prelude.{ℕ, zero, suc, ◌*◌, ◌≤◌, ◌≡◌, refl, arith}
use spack_playground.DistCounter.{
  running, Run, num_rounds, cleared, local, count, finish, starts, counts, ends, Reach, start, next,
  Joined, printed_sum,
}
use spack_playground.DistCounter.Sums.{Reach-full_sum}

abbrev begun : Run
begun = local 0 3 cleared

abbrev counted : Run
counted = count 0 3 begun

one_counted : counted.counters 3 ≡ 1
one_counted = refl

counted-Reach : Reach 1 4 counted
counted-Reach =
    next begun counted
      (next cleared begun start (starts cleared 0 3 (omega arith) refl (omega arith) (λ j e. cc e)))
      (counts begun 0 3 (omega arith) (omega arith) refl (omega arith))

-- so many transactions of the worker
unfoldable repeated : ℕ → Run
repeated zero = begun
repeated (suc k) = count 0 3 (repeated k)

repeated_run : (k : ℕ) → ((repeated k).worker 0 ≡ running 3) × ((repeated k).rounds 0 ≡ k)
unfolding repeated
repeated_run zero = (refl, refl)
repeated_run (suc k) = ((repeated_run k).0, omega (arith, (repeated_run k).1))

repeated-Reach : (k : ℕ) → k ≤ num_rounds → Reach 1 4 (repeated k)
unfolding repeated
repeated-Reach zero le =
    next cleared begun start (starts cleared 0 3 (omega arith) refl (omega arith) (λ j e. cc e))
repeated-Reach (suc k) le =
    next (repeated k) (count 0 3 (repeated k)) (repeated-Reach k (omega arith)) (
      counts (repeated k) 0 3 (omega arith) (omega arith) (repeated_run k).0
        (omega (arith, (repeated_run k).1)))

abbrev joined_run : Run
joined_run = finish 0 (repeated num_rounds)

joined_run-Joined : Joined 1 joined_run
joined_run-Joined zero lt = refl
joined_run-Joined (suc i) lt = absurd (omega arith)

Reach-full_sum_example : printed_sum 4 joined_run.counters ≡ 1 * num_rounds
Reach-full_sum_example =
    Reach-full_sum 1 4 (omega arith) joined_run
      (next (repeated num_rounds) joined_run (repeated-Reach num_rounds (omega arith)) (
        ends (repeated num_rounds) 0 3 (omega arith) (repeated_run num_rounds).0
          (repeated_run num_rounds).1))
      joined_run-Joined
