-- ===== src/Stripes.antt =====
-- targets/apps/pmem2bench/main.cpp and targets/apps/pmemobjbench/main.cpp: the test of the arguments and
-- the blocks that the worker threads access, which are the same in both programs.
pub mod Check
pub mod Count
pub mod Cover
pub mod Total
pub mod Jobs
pub mod Failing
pub mod Made
mod Examples
use spack_playground.Prelude.{
  ℕ, zero, suc, ◌+◌, ◌*◌, ◌/◌, ◌%◌, ◌^◌, ◌≡◌, Bool, true, false, not, ◌&&◌, ◌||◌, Option, none,
  some, List, [], ◌∷◌, ◌++◌, ltb, ◌==◌, if◌then◌else◌, length, get_elem?,
}

-- The parsed options that the test and the workers use.
pub record Arguments : Type 0 where
  pub block_size : ℕ
  pub stripe_size : ℕ
  pub nthreads : ℕ
  pub total_size : ℕ
  pub op_read : Bool
  pub op_write : Bool
  pub op_random : Bool

-- `divides_by_zero` is undefined behaviour; the other two exit with a message.
pub data Verdict : Type 0 where
  accepted : Verdict
  no_operation : Verdict
  invalid_arguments : Verdict
  divides_by_zero : Verdict

-- `(a % b) != 0U || rest`
unfoldable pub divides_then : ℕ → ℕ → Verdict → Verdict
divides_then a zero rest = divides_by_zero
divides_then a (suc b) rest = if a % suc b == 0 then rest else invalid_arguments

-- `stripe_size / nthreads < block_size || op_read == op_write`
unfoldable pub last_test : Arguments → Verdict
last_test args =
    if ltb (args.stripe_size / args.nthreads) args.block_size
    then invalid_arguments
    else if (args.op_read && args.op_write) || (not args.op_read && not args.op_write)
    then invalid_arguments
    else accepted

-- The long condition.
abbrev pub size_tests : Arguments → Verdict
size_tests args = divides_then args.total_size args.stripe_size (
    divides_then args.total_size args.block_size (
      divides_then args.stripe_size args.block_size
        (divides_then args.stripe_size args.nthreads (last_test args))))

unfoldable pub check_arguments : Arguments → Verdict
unfolding divides_then last_test
check_arguments args =
    if not args.op_read && not args.op_write then no_operation else size_tests args

pub record Layout : Type 0 where
  pub stripe_count : ℕ
  pub strip_unit_size : ℕ
  pub blocks_in_strip_unit : ℕ
  pub blocks_in_stripe : ℕ

abbrev pub layout : Arguments → Layout
layout args = record {
  stripe_count = args.total_size / args.stripe_size;
  strip_unit_size = args.stripe_size / args.nthreads;
  blocks_in_strip_unit = args.stripe_size / args.nthreads / args.block_size;
  blocks_in_stripe = args.stripe_size / args.block_size;
}

-- `std::iota` from `k` on
unfoldable pub iota : ℕ → ℕ → List ℕ
iota k zero = []
iota k (suc n) = k ∷ iota (k + 1) n

-- The vector that all workers share; `shuffle` is `std::shuffle` with a generator.
abbrev pub access_offset : (List ℕ → List ℕ) → Arguments → List ℕ
access_offset shuffle args =
    let offsets = iota 0 (layout args).blocks_in_strip_unit in
    if args.op_random then shuffle offsets else offsets

abbrev pub cons_some : ℕ → Option (List ℕ) → Option (List ℕ)
cons_some a none = none
cons_some a (some xs) = some (a ∷ xs)

abbrev pub append_some : Option (List ℕ) → Option (List ℕ) → Option (List ℕ)
append_some none ys = none
append_some (some xs) none = none
append_some (some xs) (some ys) = some (xs ++ ys)

-- The inner loop: `block_ofs` for `rounds` more offsets from `j` on; `none` is an index out of bounds.
unfoldable pub strip_blocks : List ℕ → ℕ → ℕ → ℕ → Option (List ℕ)
strip_blocks offsets strip_ofs zero j = some []
strip_blocks offsets strip_ofs (suc rounds) j = elim (get_elem? offsets j) [
  | none ↦ none
  | some a ↦ cons_some ((a + strip_ofs) % 2 ^ 64) (strip_blocks offsets strip_ofs rounds (j + 1))
]

-- The outer loop of worker `i`, for `rounds` more stripes from `stripe` on.
unfoldable pub worker_blocks : Layout → List ℕ → ℕ → ℕ → ℕ → Option (List ℕ)
unfolding strip_blocks
worker_blocks l offsets i zero stripe = some []
worker_blocks l offsets i (suc rounds) stripe =
    append_some
      (strip_blocks offsets ((stripe * l.blocks_in_stripe + i * l.blocks_in_strip_unit) % 2 ^ 64)
        l.blocks_in_strip_unit 0)
      (worker_blocks l offsets i rounds (stripe + 1))

-- The blocks of `rounds` more workers from `i` on, one worker behind the other.
unfoldable pub workers_blocks : Layout → List ℕ → ℕ → ℕ → Option (List ℕ)
unfolding worker_blocks
workers_blocks l offsets zero i = some []
workers_blocks l offsets (suc rounds) i =
    append_some (worker_blocks l offsets i l.stripe_count 0)
      (workers_blocks l offsets rounds (i + 1))

unfoldable pub accessed_blocks : (List ℕ → List ℕ) → Arguments → Option (List ℕ)
unfolding iota workers_blocks
accessed_blocks shuffle args =
    workers_blocks (layout args) (access_offset shuffle args) args.nthreads 0
