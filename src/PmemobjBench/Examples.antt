-- ===== src/PmemobjBench/Examples.antt =====
-- A write and a read run on four fresh objects.
use spack_playground.Prelude.{
  ℕ, ◌≡◌, refl, Bool, true, false, not, ◌&&◌, none, some, List, [], ◌∷◌, arith, ◌==◌, if◌then◌else◌,
}
use spack_playground.Exits.{goes}
use spack_playground.PrettyBytes.{Text}
use spack_playground.Stripes.{accepted, check_arguments}
use spack_playground.Stripes.Cover.{IsShuffle, is_accessed}
use spack_playground.PmemobjBench.{Job, Objects, measure}
use spack_playground.PmemobjBench.Objects.{measure-success}

abbrev unshuffled : List ℕ → List ℕ
unshuffled xs = xs

unshuffled-IsShuffle : IsShuffle unshuffled
unshuffled-IsShuffle = record { keeps_length = λ xs. refl; keeps_occurrences = λ b xs. refl }

abbrev job : Bool → Job
job write = record {
  file_size = 64;
  arguments = record {
    block_size = 4;
    stripe_size = 8;
    nthreads = 2;
    total_size = 16;
    op_read = if write then false else true;
    op_write = write;
    op_random = false;
  };
  op_alloc = false;
}

abbrev letters : Text
letters = b'a' ∷ b'b' ∷ b'c' ∷ b'd' ∷ []

abbrev fresh : Objects
fresh b = none

abbrev after : Objects
after n =
    if (3 == n) && not (3 == 3)
    then some letters
    else if (1 == n) && not (1 == 3)
    then some letters
    else if (2 == n) && not (2 == 3)
    then some letters
    else if (0 == n) && not (0 == 3)
    then some letters
    else none

-- The allocation of the last object fails, and its worker reads another's result.
abbrev room : ℕ → Bool
room b = not (b == 3)

write_accepted : check_arguments (job true).arguments ≡ accepted
unfolding check_arguments
write_accepted = refl

read_accepted : check_arguments (job false).arguments ≡ accepted
unfolding check_arguments
read_accepted = refl

runs :
    measure unshuffled unshuffled (λ i s. false) (λ b. false) room (job true) 4 [] letters fresh
    ≡ goes (record { success = true; bytes = some 16 }, after)
unfolding measure spack_playground.Stripes.iota
runs = refl

measure-success_example :
    (after 3) ≡ (if is_accessed (job true).arguments 3 && room 3 then some letters else none)
measure-success_example =
    measure-success unshuffled unshuffled (λ i s. false) (λ b. false) room (job true) 4 [] letters
      fresh unshuffled-IsShuffle unshuffled-IsShuffle write_accepted (omega arith)
      (record { success = true; bytes = some 16 }) after runs refl (λ i s e. absurd (cc e)) 3
