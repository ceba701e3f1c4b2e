-- ===== src/Counters/Examples.antt =====
-- One thread without the lock, one with it, and the theorems at them.
use spack_playground.Prelude.{zero, suc, ◌+◌, ◌≤◌, ◌<◌, ◌≡◌, refl, arith, [], ◌∷◌}
use spack_playground.Prelude.Occurrences.{occurrences}
use spack_playground.Counters.{
  committed, Threads, new_threads, log_counter, read_counter, write_counter, commit, PlainStep,
  LockStep, Reach, start, next, Joined, recovered, num_workers,
}
use spack_playground.Counters.Locked.{Reach-counted}
use spack_playground.Counters.Plain.{Reach-bounded}
use spack_playground.Counters.Lost.{body, body-Reach, overtaken, overtaken_lost}

abbrev logged_one : Threads
logged_one = log_counter 0 (new_threads 5)

abbrev read_one : Threads
read_one = read_counter 0 5 logged_one

abbrev wrote_one : Threads
wrote_one = write_counter 0 5 5 read_one

abbrev plain_end : Threads
plain_end = commit 0 wrote_one

plain-Reach : Reach (PlainStep 1) 5 plain_end
plain-Reach =
    next wrote_one plain_end
      (next read_one wrote_one
        (next logged_one read_one
          (next (new_threads 5) logged_one start
            (PlainStep.logs (new_threads 5) 0 (omega arith) refl))
          (PlainStep.reads logged_one 0 5 (omega arith) refl))
        (PlainStep.writes read_one 0 5 5 (omega arith) refl (omega arith)))
      (PlainStep.commits wrote_one 0 5 (omega arith) refl)

plain-Joined : Joined 1 plain_end
plain-Joined zero lt = refl
plain-Joined (suc i) lt = absurd (omega arith)

Reach-bounded_example : (5 < plain_end.counter) × (plain_end.counter ≤ 5 + 1)
Reach-bounded_example = Reach-bounded 1 5 plain_end (omega arith) plain-Reach plain-Joined

abbrev lock_end : Threads
lock_end = commit 0 (body 0 (new_threads 5))

lock-Joined : Joined 1 lock_end
lock-Joined zero lt = refl
lock-Joined (suc i) lt = absurd (omega arith)

Reach-counted_example : lock_end.counter ≡ 5 + 1
Reach-counted_example =
    Reach-counted 1 5 lock_end
      (next (body 0 (new_threads 5)) lock_end
        (body-Reach 1 5 0 (new_threads 5) (omega arith) refl refl (omega arith) start)
        (LockStep.commits (body 0 (new_threads 5)) 0 5 (omega arith) refl))
      lock-Joined

overtaken_lost_example :
    Reach (LockStep num_workers) 5 (overtaken num_workers 5)
    × ((overtaken num_workers 5).counter ≡ 7)
    × ((overtaken num_workers 5).phase 1 ≡ committed)
    × (recovered (1 ∷ 0 ∷ []) (overtaken num_workers 5).phase (overtaken num_workers 5).counter ≡ 5)
overtaken_lost_example =
    overtaken_lost num_workers 5 (1 ∷ 0 ∷ []) (omega arith) (omega arith)
      (unfold occurrences in omega arith)
