-- ===== src/TextPool/Examples.antt =====
-- A text of two letters, a crash behind the length and one letter, and the theorems at it.
use spack_playground.Prelude.{
  ◌≡◌, ◌≢◌, refl, ◌⊎◌, inl, true, some, [], ◌∷◌, arith, ◌==◌, if◌then◌else◌, All,
}
use spack_playground.Medium.{Image, durable, after}
use spack_playground.Medium.Crashes.{run-now}
use spack_playground.TextPool.{Text, reader_main, writer_ops}
use spack_playground.TextPool.Crash.{zeros, Prints, crash-Prints, finished-Prints}

abbrev hi : Text
hi = 72 ∷ 105 ∷ []

hi-letters : All (λ c. c ≢ 0) hi
hi-letters = (ground arith, (ground arith, tt))

prints_nothing :
    reader_main 2 true (λ a. if a == 0 then 2 else if a == 8 then 72 else 0) ≡ some ([], 0)
unfolding reader_main
prints_nothing = refl

crash-Prints_example : Prints hi zeros [] ⊎ (Prints hi zeros ([] ∷ []) ⊎ Prints hi zeros (hi ∷ []))
crash-Prints_example = crash-Prints hi zeros (inl (λ a. inl refl)) hi-letters (omega arith)

abbrev written : Image
written a = (after (writer_ops hi) (durable zeros) a).now

finished-Prints_example : Prints hi written (hi ∷ [])
finished-Prints_example =
    finished-Prints hi written hi-letters (omega arith)
      (λ a. run-now a (writer_ops hi) (durable zeros a) (inl refl))
