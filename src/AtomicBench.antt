-- ===== src/AtomicBench.antt =====
-- targets/apps/atomic_bench/main.cpp: threads that add to an atomic counter between barriers. The worker with
-- number i below `n` is thread i of the barriers, and the thread of `main` is thread `n`.
pub mod Total
mod Examples
use spack_playground.Prelude.{
  ℕ, zero, suc, ◌+◌, ◌*◌, ◌/◌, ◌%◌, ◌^◌, ◌<◌, ◌≡◌, ◌≢◌, Bool, true, false, not, List, [], ◌∷◌,
  if◌then◌else◌, ◌==◌,
}
use spack_playground.Prelude.Family.{update}
use spack_playground.Exits.{Run, goes, exits, throws, faults, ◌>>=◌}
use spack_playground.Barrier.{Place, before, passed, Barrier, new_barrier}
use spack_playground.Barrier

-- The test of the arguments; the result is `count_per_thread`. `%` of zero is undefined.
abbrev pub plan : ℕ → ℕ → Run ℕ
plan nthreads total_count =
    if nthreads == 0
    then faults
    else if not (total_count % nthreads == 0)
    then exits 1
    else goes (total_count / nthreads)

-- The counter, the rounds that each worker has made, and the three barriers.
pub record Bench : Type 0 where
  pub counter : ℕ
  pub rounds : ℕ → ℕ
  pub ready : Barrier
  pub timer : Barrier
  pub finish : Barrier

-- what there is when all threads are made
abbrev pub new_bench : ℕ → Bench
new_bench n = record {
  counter = 0;
  rounds = λ i. 0;
  ready = new_barrier (n + 1);
  timer = new_barrier (n + 1);
  finish = new_barrier (n + 1);
}

-- `counter++` by worker `i`
unfoldable pub increment : ℕ → Bench → Bench
increment i s = record s {
  counter = (s.counter + 1) % 2 ^ 64;
  rounds = update s.rounds i (s.rounds i + 1);
}

-- The thread calls `enter` of this barrier in the step.
abbrev pub Enters : ℕ → Barrier → Barrier → Type 0
Enters i b b' = (b.place i ≡ before) × (b'.place i ≢ before)

-- The steps of all threads: one step in a barrier, which a thread enters behind what stands before it in
-- its code, or one addition.
pub data Step (n c : ℕ) (s : Bench) : Bench → Type 0 where
  in_ready : (b : Barrier) → Barrier.Step (n + 1) s.ready b → Step n c s (record s { ready = b })
  in_timer :
      (b : Barrier)
      → Barrier.Step (n + 1) s.timer b
      → ((i : ℕ) → Enters i s.timer b → s.ready.place i ≡ passed)
      → Step n c s (record s { timer = b })
  adds : (i : ℕ) → i < n → s.timer.place i ≡ passed → s.rounds i < c → Step n c s (increment i s)
  in_finish :
      (b : Barrier)
      → Barrier.Step (n + 1) s.finish b
      → ((i : ℕ) → Enters i s.finish b → s.timer.place i ≡ passed)
      → ((i : ℕ) → i < n → Enters i s.finish b → s.rounds i ≡ c)
      → Step n c s (record s { finish = b })

pub data Reach (n c : ℕ) : Bench → Type 0 where
  start : Reach n c (new_bench n)
  next : (s s' : Bench) → Reach n c s → Step n c s s' → Reach n c s'

-- The test behind the joins; the text of the exception is left out.
abbrev pub verdict : ℕ → Bench → Run (Unit {0})
verdict total_count s = if s.counter == total_count then goes tt else throws []
