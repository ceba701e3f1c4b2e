-- ===== src/DistCounter.antt =====
-- targets/apps/pmem_distributed_counter/main.cpp: threads that add to a counter of their own in a pool. Which
-- entry `local` gives a thread is a parameter: one that no running thread has.
pub mod Sums
mod Examples
use spack_playground.Prelude.{
  ℕ, zero, suc, ◌+◌, ◌*◌, ◌^◌, ◌%◌, ◌<◌, ◌≡◌, ◌≢◌, Bool, true, false, List, [], ◌∷◌, ◌==◌,
  if◌then◌else◌,
}
use spack_playground.Prelude.Family.{update}

-- A worker has not started, runs with an entry, or has ended.
pub data Worker : Type 0 where
  waiting : Worker
  running : ℕ → Worker
  ended : Worker

-- `counters` in the pool, the workers, and how many rounds each has made.
pub record Run : Type 0 where
  pub counters : ℕ → ℕ
  pub worker : ℕ → Worker
  pub rounds : ℕ → ℕ

abbrev pub num_rounds : ℕ
num_rounds = 1000

-- `counters.clear()`, before the workers are made
abbrev pub cleared : Run
cleared = record { counters = λ e. 0; worker = λ i. waiting; rounds = λ i. 0 }

abbrev pub local : ℕ → ℕ → Run → Run
local i e s = record {
  counters = s.counters;
  worker = update s.worker i (running e);
  rounds = s.rounds;
}

-- A transaction of worker `i`, which has the entry `e`.
abbrev pub count : ℕ → ℕ → Run → Run
count i e s = record {
  counters = update s.counters e ((s.counters e + 1) % 2 ^ 64);
  worker = s.worker;
  rounds = update s.rounds i (s.rounds i + 1);
}

abbrev pub finish : ℕ → Run → Run
finish i s = record { counters = s.counters; worker = update s.worker i ended; rounds = s.rounds }

-- A step of one of `n` workers, with entries below `m`.
pub data Step (n m : ℕ) : Run → Run → Type 0 where
  starts :
      (s : Run) (i e : ℕ)
      → i < n
      → s.worker i ≡ waiting
      → e < m
      → ((j : ℕ) → s.worker j ≢ running e)
      → Step n m s (local i e s)
  counts :
      (s : Run) (i e : ℕ)
      → i < n
      → e < m
      → s.worker i ≡ running e
      → s.rounds i < num_rounds
      → Step n m s (count i e s)
  ends :
      (s : Run) (i e : ℕ)
      → i < n
      → s.worker i ≡ running e
      → s.rounds i ≡ num_rounds
      → Step n m s (finish i s)

-- A state that the workers reach; a crash leaves its counters, since each transaction is all or nothing.
pub data Reach (n m : ℕ) : Run → Type 0 where
  start : Reach n m cleared
  next : (s s' : Run) → Reach n m s → Step n m s s' → Reach n m s'

-- `main` has joined its workers.
abbrev pub Joined : ℕ → Run → Type 0
Joined n s = (i : ℕ) → i < n → s.worker i ≡ ended

-- What `main` adds up over the entries, in 64 bits.
unfoldable pub printed_sum : ℕ → (ℕ → ℕ) → ℕ
printed_sum zero counters = 0
printed_sum (suc m) counters = (printed_sum m counters + counters m) % 2 ^ 64
