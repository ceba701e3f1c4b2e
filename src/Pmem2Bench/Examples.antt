-- ===== src/Pmem2Bench/Examples.antt =====
-- A run of two threads on an anonymous mapping of 32 bytes.
use spack_playground.Prelude.{
  ℕ, ◌/◌, ◌%◌, ◌≡◌, refl, true, false, none, some, List, [], ◌∷◌, arith, if◌then◌else◌, replicate,
  length-replicate,
}
use spack_playground.Exits.{goes}
use spack_playground.PrettyBytes.{Text}
use spack_playground.Stripes.Cover.{IsShuffle, is_accessed}
use spack_playground.Pmem2Bench.{
  Options, anon, page, page_granularity, Job, job_of, read_job, Host, open_map, Memory, byte_at,
  main,
}
use spack_playground.Pmem2Bench.Main.{main-writes}

abbrev unshuffled : List ℕ → List ℕ
unshuffled xs = xs

unshuffled-IsShuffle : IsShuffle unshuffled
unshuffled-IsShuffle = record { keeps_length = λ xs. refl; keeps_occurrences = λ b xs. refl }

abbrev options : Options
options = record {
  help = false;
  dry_run = false;
  source = anon;
  file_size = b'3' ∷ b'2' ∷ [];
  block = b'4' ∷ [];
  stripe = b'1' ∷ b'6' ∷ [];
  nthreads = b'2' ∷ [];
  total = b'3' ∷ b'2' ∷ [];
  read = false;
  write = true;
  random = false;
  granularity = page;
}

abbrev job : Job
job = job_of options 32 4 16 2 32 page_granularity

abbrev host : Host
host = record {
  file = none;
  may_create = true;
  may_truncate = λ n. true;
  source_from_fd = λ f. f;
  source_from_anon = some;
  config_new = true;
  takes_granularity = λ g. true;
  map_new = some;
}

abbrev letters : ℕ → Text
letters n = replicate n b'a'

reads : read_job options ≡ goes job
unfolding read_job spack_playground.PrettyBytes.pretty_to spack_playground.Stripes.divides_then
    spack_playground.PrettyBytes.decimal_from spack_playground.Stripes.last_test
reads = refl

opens : open_map host job ≡ goes 32
unfolding open_map
opens = refl

main-writes_example :
    (mem' : Memory) × (main unshuffled unshuffled letters host options (λ a. 0)
      ≡ goes (record { job = job; success = true; bytes = 32 }, mem'))
    × ((a : ℕ)
        → mem' a ≡ (if is_accessed job.arguments (a / 4) then byte_at (letters 4) (a % 4) else 0))
main-writes_example =
    main-writes unshuffled unshuffled letters host options (λ a. 0) job 32 unshuffled-IsShuffle
      unshuffled-IsShuffle (λ n. length-replicate n b'a') reads opens (omega arith) (omega arith)
      (omega arith) refl refl
