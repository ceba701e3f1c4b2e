-- ===== src/Counters.antt =====
-- targets/apps/ppm_ch14_1_counter/main.cpp and targets/apps/ppm_ch14_2_counter_fixed_but_still_buggy/main.cpp:
-- threads that add 1 to a persistent counter, each in a transaction, without and with a lock.
pub mod Locked
pub mod Plain
pub mod Lost
mod Examples
use spack_playground.Prelude.{
  ℕ, zero, suc, ◌+◌, ◌-◌, ◌^◌, ◌<◌, ◌≡◌, Bool, true, false, Option, none, some, List, [], ◌∷◌, ◌==◌,
  if◌then◌else◌,
}
use spack_playground.Prelude.Family.{update}

-- How far `increment` is in a thread: `locked` holds the mutex, `logged` has the value in its undo log,
-- `got` has read the counter, `wrote` has stored the sum, `unlocked` has left the body, and `committed`
-- has ended the transaction.
pub data Phase : Type 0 where
  idle : Phase
  locked : Phase
  logged : ℕ → Phase
  got : ℕ → ℕ → Phase
  wrote : ℕ → Phase
  unlocked : ℕ → Phase
  committed : Phase

-- `struct root`, the owner of the mutex, and the threads. The counter is an `int` that is not negative.
pub record Threads : Type 0 where
  pub counter : ℕ
  pub holder : Option ℕ
  pub phase : ℕ → Phase

-- `main` before it starts them
abbrev pub new_threads : ℕ → Threads
new_threads c = record { counter = c; holder = none; phase = λ i. idle }

abbrev pub enter_phase : ℕ → Phase → Threads → Threads
enter_phase i p s = record { counter = s.counter; holder = s.holder; phase = update s.phase i p }

abbrev pub take_lock : ℕ → Threads → Threads
take_lock i s = record { counter = s.counter; holder = some i; phase = update s.phase i locked }

-- `get_rw` copies the counter to the undo log.
abbrev pub log_counter : ℕ → Threads → Threads
log_counter i s = enter_phase i (logged s.counter) s

abbrev pub read_counter : ℕ → ℕ → Threads → Threads
read_counter i old s = enter_phase i (got old s.counter) s

abbrev pub write_counter : ℕ → ℕ → ℕ → Threads → Threads
write_counter i old v s = record {
  counter = v + 1;
  holder = s.holder;
  phase = update s.phase i (wrote old);
}

-- The destructor of the lock, at the end of the body.
abbrev pub leave_body : ℕ → ℕ → Threads → Threads
leave_body i old s = record {
  counter = s.counter;
  holder = none;
  phase = update s.phase i (unlocked old);
}

abbrev pub commit : ℕ → Threads → Threads
commit i s = enter_phase i committed s

abbrev pub int_max : ℕ
int_max = 2 ^ 31 - 1

-- A step of one of `n` threads of ppm_ch14_1.
pub data PlainStep (n : ℕ) : Threads → Threads → Type 0 where
  logs : (s : Threads) (i : ℕ) → i < n → s.phase i ≡ idle → PlainStep n s (log_counter i s)
  reads :
      (s : Threads) (i old : ℕ)
      → i < n
      → s.phase i ≡ logged old
      → PlainStep n s (read_counter i old s)
  writes :
      (s : Threads) (i old v : ℕ)
      → i < n
      → s.phase i ≡ got old v
      → v < int_max
      → PlainStep n s (write_counter i old v s)
  commits : (s : Threads) (i old : ℕ) → i < n → s.phase i ≡ wrote old → PlainStep n s (commit i s)

-- A step of one of `n` threads of ppm_ch14_2.
pub data LockStep (n : ℕ) : Threads → Threads → Type 0 where
  locks :
      (s : Threads) (i : ℕ)
      → i < n
      → s.phase i ≡ idle
      → s.holder ≡ none
      → LockStep n s (take_lock i s)
  logs : (s : Threads) (i : ℕ) → i < n → s.phase i ≡ locked → LockStep n s (log_counter i s)
  reads :
      (s : Threads) (i old : ℕ)
      → i < n
      → s.phase i ≡ logged old
      → LockStep n s (read_counter i old s)
  writes :
      (s : Threads) (i old v : ℕ)
      → i < n
      → s.phase i ≡ got old v
      → v < int_max
      → LockStep n s (write_counter i old v s)
  unlocks :
      (s : Threads) (i old : ℕ) → i < n → s.phase i ≡ wrote old → LockStep n s (leave_body i old s)
  commits : (s : Threads) (i old : ℕ) → i < n → s.phase i ≡ unlocked old → LockStep n s (commit i s)

pub data Reach (Move : Threads → Threads → Type 0) (c : ℕ) : Threads → Type 0 where
  start : Reach Move c (new_threads c)
  next : (s s' : Threads) → Reach Move c s → Move s s' → Reach Move c s'

-- The number that the undo log of a thread holds, until it commits.
abbrev pub undo : Phase → Option ℕ
undo idle = none
undo locked = none
undo (logged old) = some old
undo (got old v) = some old
undo (wrote old) = some old
undo (unlocked old) = some old
undo committed = none

-- The counter after a crash: the undo logs are applied, in this order of the threads.
unfoldable pub recovered : List ℕ → (ℕ → Phase) → ℕ → ℕ
recovered [] phase v = v
recovered (i ∷ is) phase v =
    recovered is phase (elim (undo (phase i)) [ none ↦ v | some old ↦ old ])

-- `main` has joined its threads.
abbrev pub Joined : ℕ → Threads → Type 0
Joined n s = (i : ℕ) → i < n → s.phase i ≡ committed

abbrev pub num_workers : ℕ
num_workers = 10
