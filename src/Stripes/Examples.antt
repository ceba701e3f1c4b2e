-- ===== src/Stripes/Examples.antt =====
-- Six blocks in two stripes for two threads, and a stripe whose strips hold one block and a half.
use spack_playground.Prelude.{
  ℕ, ◌+◌, ◌*◌, ◌/◌, ◌%◌, ◌<◌, ◌≤◌, ◌≡◌, ◌≢◌, refl, true, false, ◌&&◌, some, List, arith, ltb,
}
use spack_playground.Prelude.Family.{one_if}
use spack_playground.Stripes.{Arguments, accepted, check_arguments, layout, accessed_blocks}
use spack_playground.Stripes.Check.{check-Accepts, Accepts}
use spack_playground.Prelude.Occurrences.{occurrences}
use spack_playground.Stripes.Cover.{IsShuffle, accessed_once}
use spack_playground.Stripes.Total.{accesses_inside}

abbrev unshuffled : List ℕ → List ℕ
unshuffled xs = xs

unshuffled-IsShuffle : IsShuffle unshuffled
unshuffled-IsShuffle = record { keeps_length = λ xs. refl; keeps_occurrences = λ b xs. refl }

abbrev even : Arguments
even = record {
  block_size = 4;
  stripe_size = 16;
  nthreads = 2;
  total_size = 32;
  op_read = true;
  op_write = false;
  op_random = true;
}

abbrev uneven : Arguments
uneven = record {
  block_size = 4;
  stripe_size = 12;
  nthreads = 2;
  total_size = 24;
  op_read = false;
  op_write = true;
  op_random = false;
}

abbrev no_threads : Arguments
no_threads = record {
  block_size = 4;
  stripe_size = 12;
  nthreads = 0;
  total_size = 24;
  op_read = false;
  op_write = true;
  op_random = false;
}

even_accepted : check_arguments even ≡ accepted
unfolding check_arguments
even_accepted = refl

uneven_accepted : check_arguments uneven ≡ accepted
unfolding check_arguments
uneven_accepted = refl

check-Accepts_example :
    (check_arguments uneven ≡ accepted → Accepts uneven)
    × (Accepts uneven → check_arguments uneven ≡ accepted)
check-Accepts_example = check-Accepts uneven

accessed_once_example :
    (xs : List ℕ) × (accessed_blocks unshuffled even ≡ some xs)
    × ((b : ℕ) → occurrences b xs ≡ one_if (ltb (b / 4) 2 && ltb (b % 4) 4))
accessed_once_example =
    accessed_once unshuffled even unshuffled-IsShuffle even_accepted (omega arith)

accesses_inside_example :
    (xs : List ℕ) × (accessed_blocks unshuffled uneven ≡ some xs)
    × ((b : ℕ) → 0 < occurrences b xs → (occurrences b xs ≡ 1) × ((b + 1) * 4 ≤ 24))
accesses_inside_example =
    accesses_inside unshuffled uneven unshuffled-IsShuffle uneven_accepted (omega arith)

uneven_strips : (layout uneven).strip_unit_size % 4 ≢ 0
uneven_strips e = omega arith
