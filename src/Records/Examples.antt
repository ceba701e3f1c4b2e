-- ===== src/Records/Examples.antt =====
-- A run in which every coin is even and every name is of two letters, and the theorem at it.
use spack_playground.Prelude.{ℕ, ◌+◌, ◌≡◌, refl, inl, Bool, true, List, [], ◌∷◌, arith}
use spack_playground.Medium.{Image, CrashOf, durable, after, run, stores, flushes}
use spack_playground.Medium.Crashes.{run-now, crash_behind}
use spack_playground.Records.{name_at, valid_at, loop_ops, main_ops}
use spack_playground.Records.Crash.{zeros, marked-named}

abbrev heads : ℕ → Bool
heads i = true

abbrev letters : ℕ → List ℕ
letters i = 35 ∷ (i + 49) ∷ 0 ∷ []

abbrev finished : Image
finished a = (after (main_ops heads letters) (durable zeros) a).now

finished_crash : CrashOf (durable zeros) (main_ops heads letters) finished
finished_crash =
    crash_behind (main_ops heads letters) (durable zeros) finished
      (λ a. run-now a (main_ops heads letters) (durable zeros a) (inl refl))

second_marked : finished (valid_at 1) ≡ 2
unfolding run loop_ops stores flushes
second_marked = refl

marked-named_example : (heads 1 ≡ true) × (finished (name_at 1 + 1) ≡ 50)
marked-named_example =
    marked-named heads letters (λ i. omega arith) finished finished_crash 1 8 refl second_marked 1
      50 refl
