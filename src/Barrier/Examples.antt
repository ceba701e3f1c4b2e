-- ===== src/Barrier/Examples.antt =====
-- Two threads at a barrier: thread 0 has entered and passed, thread 1 entered first and is runnable.
use spack_playground.Prelude.{ℕ, zero, suc, ◌≡◌, refl, ◌⊎◌, false, arith, ◌<◌}
use spack_playground.Barrier.{
  Barrier, runnable, passed, new_barrier, enter, test_again, enters, Reach, start, next,
}
use spack_playground.Barrier.Once.{is_before, nobody_early, nobody_stuck}

abbrev both_in : Barrier
both_in = enter 0 (enter 1 (new_barrier 2))

both_in-Reach : Reach 2 both_in
unfolding enter
both_in-Reach =
    next (enter 1 (new_barrier 2)) both_in
      (next (new_barrier 2) (enter 1 (new_barrier 2)) start
        (enters (new_barrier 2) 1 (omega arith) refl))
      (enters (enter 1 (new_barrier 2)) 0 (omega arith) refl)

nobody_early_example : is_before (both_in.place 1) ≡ false
unfolding enter
nobody_early_example =
    nobody_early 2 (omega arith) both_in both_in-Reach 0 1 (omega arith) (omega arith) refl

both_entered : (j : ℕ) → j < 2 → is_before (both_in.place j) ≡ false
unfolding enter
both_entered zero lt = refl
both_entered (suc zero) lt = refl
both_entered (suc (suc j)) lt = absurd (omega arith)

nobody_stuck_example :
    (both_in.place 1 ≡ passed)
    ⊎ ((both_in.place 1 ≡ runnable) × ((test_again 1 both_in).place 1 ≡ passed))
nobody_stuck_example =
    nobody_stuck 2 (omega arith) both_in both_in-Reach both_entered 1 (omega arith)
