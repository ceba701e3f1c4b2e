-- ===== src/Barrier.antt =====
-- targets/libraries/psync/include/psync/barrier.hpp: the threads' places in `enter`, and the steps that
-- the mutex makes atomic: one entry up to the wait, or one wake-up with its test of the predicate.
pub mod Once
mod Examples
use spack_playground.Prelude.{
  ℕ, zero, suc, ◌+◌, ◌-◌, ◌%◌, ◌^◌, ◌<◌, ◌≡◌, Bool, true, false, if◌then◌else◌, ◌==◌,
}
use spack_playground.Prelude.Family.{update}

-- Where a thread is: before its call, blocked in the wait, runnable in the wait, behind its call.
pub data Place : Type 0 where
  before : Place
  asleep : Place
  runnable : Place
  passed : Place

-- `class Barrier`; `nthreads` is the `size_t` member.
pub record Barrier : Type 0 where
  pub nthreads : ℕ
  pub place : ℕ → Place

abbrev pub new_barrier : ℕ → Barrier
new_barrier n = record { nthreads = n; place = λ i. before }

-- `cond_.notify_all()` for one thread.
abbrev pub notified : Place → Place
notified asleep = runnable
notified before = before
notified runnable = runnable
notified passed = passed

-- One test of the predicate of `cond_.wait`.
abbrev pub tested : ℕ → Place
tested n = if n == 0 then passed else asleep

abbrev pub decremented : ℕ → ℕ
decremented n = (n + (2 ^ 64 - 1)) % 2 ^ 64

-- `enter` by thread `i` up to its first test.
unfoldable pub enter : ℕ → Barrier → Barrier
enter i b = record {
  nthreads = decremented b.nthreads;
  place = update (λ j. notified (b.place j)) i (tested (decremented b.nthreads));
}

-- A runnable thread takes the mutex and tests again.
unfoldable pub test_again : ℕ → Barrier → Barrier
test_again i b = record b { place = update b.place i (tested b.nthreads) }

-- A spurious wake-up.
unfoldable pub stir : ℕ → Barrier → Barrier
stir i b = record b { place = update b.place i runnable }

-- The steps of the threads below `n`, each of which calls `enter` once.
pub data Step (n : ℕ) : Barrier → Barrier → Type 0 where
  enters : (b : Barrier) (i : ℕ) → i < n → b.place i ≡ before → Step n b (enter i b)
  tests : (b : Barrier) (i : ℕ) → i < n → b.place i ≡ runnable → Step n b (test_again i b)
  stirs : (b : Barrier) (i : ℕ) → i < n → b.place i ≡ asleep → Step n b (stir i b)

pub data Reach (n : ℕ) : Barrier → Type 0 where
  start : Reach n (new_barrier n)
  next : (b b' : Barrier) → Reach n b → Step n b b' → Reach n b'
