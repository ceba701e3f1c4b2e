-- ===== src/PmemblkBench/Examples.antt =====
-- A write run on a pool of eight blocks.
use spack_playground.Prelude.{
  ℕ, ◌<◌, ◌≡◌, refl, true, false, ◌&&◌, none, some, List, [], ◌∷◌, if◌then◌else◌, replicate,
}
use spack_playground.Exits.{goes}
use spack_playground.PrettyBytes.{Text}
use spack_playground.Stripes.{Arguments}
use spack_playground.Stripes.Cover.{IsShuffle, is_accessed}
use spack_playground.PmemblkBench.{
  Options, read_options, Host, fit_pool, Blocks, write_blocks, Report, main,
}
use spack_playground.PmemblkBench.Success.{main-success}

abbrev unshuffled : List ℕ → List ℕ
unshuffled xs = xs

unshuffled-IsShuffle : IsShuffle unshuffled
unshuffled-IsShuffle = record { keeps_length = λ xs. refl; keeps_occurrences = λ b xs. refl }

abbrev options : Options
options = record {
  help = false;
  pool_size = b'6' ∷ b'4' ∷ [];
  block = b'4' ∷ [];
  stripe = b'8' ∷ [];
  nthreads = b'2' ∷ [];
  total = b'1' ∷ b'6' ∷ [];
  read = false;
  write = true;
  random = false;
}

abbrev host : Host
host = record { created = none; opened = some 8 }

abbrev letters : ℕ → Text
letters n = replicate n b'a'

abbrev after : Blocks
after = write_blocks (letters 4) (0 ∷ 2 ∷ 1 ∷ 3 ∷ []) (λ b. [])

abbrev report : Report
report = record { success = true; bytes = some 16 }

runs :
    main unshuffled unshuffled (λ b. false) (λ i s. false) letters 32 host options (λ b. [])
    ≡ goes (report, after)
unfolding main spack_playground.PrettyBytes.pretty_to spack_playground.Stripes.divides_then
    spack_playground.PrettyBytes.decimal_from spack_playground.Stripes.last_test
    spack_playground.Stripes.iota
runs = refl

main-success_example :
    (args : Arguments) × (read_options 32 options ≡ goes args)
    × (some 16 ≡ some args.total_size)
    × ((n : ℕ) × (fit_pool host args ≡ goes n) × ((b : ℕ) → is_accessed args b ≡ true → b < n))
    × ((b : ℕ)
        → after b ≡ (if args.op_write && is_accessed args b then letters args.block_size else []))
    × ((b : ℕ) → is_accessed args b ≡ true → false ≡ false)
main-success_example =
    main-success unshuffled unshuffled (λ b. false) (λ i s. false) unshuffled-IsShuffle
      unshuffled-IsShuffle letters 32 host options (λ b. []) after report runs refl
      (λ i s e. absurd (cc e))
