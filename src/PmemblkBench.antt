-- ===== src/PmemblkBench.antt =====
-- targets/apps/pmemblkbench/main.cpp: the benchmark on a pool of blocks, where an access can fail.
pub mod Success
mod Examples
use spack_playground.Prelude.{
  ℕ, ◌/◌, Bool, true, false, not, ◌&&◌, ◌||◌, Option, none, some, List, [], ◌∷◌, ltb, ◌==◌,
  if◌then◌else◌,
}
use spack_playground.Exits.{Run, goes, exits, throws, faults, ◌>>=◌, ◌>>◌, exit_if}
use spack_playground.PrettyBytes.{Text, pretty_to}
use spack_playground.Stripes.{Arguments, size_tests, layout, access_offset}
use spack_playground.Stripes.Jobs.{number, verdict_ends}
use spack_playground.Stripes.Failing.{Trace, workers_accesses}

-- The parsed command line.
pub record Options : Type 0 where
  pub help : Bool
  pub pool_size : Text
  pub block : Text
  pub stripe : Text
  pub nthreads : Text
  pub total : Text
  pub read : Bool
  pub write : Bool
  pub random : Bool

abbrev pub arguments_of : Options → (block stripe nthreads total : ℕ) → Arguments
arguments_of o block stripe nthreads total = record {
  block_size = block;
  stripe_size = stripe;
  nthreads = nthreads;
  total_size = total;
  op_read = o.read;
  op_write = o.write;
  op_random = o.random;
}

-- The three tests of the arguments; `min_pool` is `PMEMBLK_MIN_POOL`.
unfoldable pub check_options : ℕ → ℕ → Arguments → Run Arguments
check_options min_pool pool_size args = do
  exit_if (not args.op_read && not args.op_write) 1
  verdict_ends (size_tests args)
  exit_if (ltb pool_size min_pool) 1
  goes args

unfoldable pub read_options : ℕ → Options → Run Arguments
unfolding check_options
read_options min_pool o = do
  exit_if o.help 0
  pool_size ← number (pretty_to o.pool_size)
  block_size ← number (pretty_to o.block)
  stripe_size ← number (pretty_to o.stripe)
  nthreads ← number (pretty_to o.nthreads)
  total_size ← number (pretty_to o.total)
  check_options min_pool pool_size (arguments_of o block_size stripe_size nthreads total_size)

-- The answers of libpmemblk: the number of blocks of the pool that it creates or opens, if any.
pub record Host : Type 0 where
  pub created : Option ℕ
  pub opened : Option ℕ

-- `pmemblk_create`, and `pmemblk_open` where it returns null.
abbrev pub open_pool : Host → Run ℕ
open_pool h = elim h.created [
  | some n ↦ goes n
  | none ↦ elim h.opened [ some n ↦ goes n | none ↦ exits 1 ]
]

-- The pool that can hold the blocks, or the end of `main`.
unfoldable pub fit_pool : Host → Arguments → Run ℕ
fit_pool h args = do
  nelements ← open_pool h
  exit_if (ltb nelements (args.total_size / args.block_size)) 1
  goes nelements

abbrev pub Blocks : Type 0
Blocks = ℕ → Text

-- The successful calls of `pmemblk_write`, each of which replaces one block.
unfoldable pub write_blocks : Text → List ℕ → Blocks → Blocks
write_blocks content [] blocks = blocks
write_blocks content (b ∷ bs) blocks =
    write_blocks content bs (λ n. if b == n then content else blocks n)

-- The JSON object that is printed, without the measured times: `bytes` is divided by the time.
pub record Report : Type 0 where
  pub success : Bool
  pub bytes : Option ℕ

-- What the main thread reports when all workers have ended.
abbrev pub report_of : Arguments → Trace → Report
report_of args t = record {
  success = not t.failed;
  bytes = if not t.failed then some args.total_size else none;
}

-- The workers and the report. `fails` and `seen` are the outcomes of the calls and what the workers find
-- in the shared flag, `schedule` is the order in which the threads take turns.
unfoldable pub measure :
    (shuffle schedule : List ℕ → List ℕ)
    → (ℕ → Bool)
    → (ℕ → ℕ → Bool)
    → Arguments
    → Text
    → Blocks
    → Run (Report × Blocks)
unfolding workers_accesses write_blocks
measure shuffle schedule fails seen args content blocks =
    elim (workers_accesses fails seen (layout args) (access_offset shuffle args) args.nthreads 0) [
      | none ↦ faults
      | some t ↦ goes (
        report_of args t,
        if args.op_write then write_blocks content (schedule t.done) blocks else blocks,
      )
    ]

unfoldable pub main :
    (shuffle schedule : List ℕ → List ℕ)
    → (ℕ → Bool)
    → (ℕ → ℕ → Bool)
    → (ℕ → Text)
    → ℕ
    → Host
    → Options
    → Blocks
    → Run (Report × Blocks)
unfolding read_options fit_pool measure
main shuffle schedule fails seen generate min_pool host o blocks = do
  args ← read_options min_pool o
  nelements ← fit_pool host args
  measure shuffle schedule fails seen args (generate args.block_size) blocks
