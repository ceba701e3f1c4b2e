-- ===== src/Pmem2Bench.antt =====
-- targets/apps/pmem2bench/main.cpp and create_pmem2_source.hpp beside it: from the options to the bytes
-- that the workers leave in the mapping.
pub mod Bytes
pub mod Jobs
pub mod Main
mod Examples
use spack_playground.Prelude.{
  ℕ, zero, suc, ◌+◌, ◌-◌, ◌*◌, ◌/◌, ◌%◌, ◌^◌, Bool, true, false, not, ◌&&◌, ◌||◌, Option, none,
  some, List, [], ◌∷◌, ltb, leb, if◌then◌else◌, length, get_elem?,
}
use spack_playground.Prelude.Texts.{same_text}
use spack_playground.Exits.{Run, goes, exits, throws, faults, ◌>>=◌, ◌>>◌, exit_if}
use spack_playground.PrettyBytes.{Text, Result, ok, invalid_argument, runtime_error, pretty_to}
use spack_playground.Stripes.Jobs.{number, verdict_ends}
use spack_playground.Stripes.{
  Arguments, Verdict, accepted, no_operation, invalid_arguments, divides_by_zero, size_tests,
  accessed_blocks,
}

-- The parsed command line.
pub record Options : Type 0 where
  pub help : Bool
  pub dry_run : Bool
  pub source : Text
  pub file_size : Text
  pub block : Text
  pub stripe : Text
  pub nthreads : Text
  pub total : Text
  pub read : Bool
  pub write : Bool
  pub random : Bool
  pub granularity : Text

pub data Granularity : Type 0 where
  page_granularity : Granularity
  cache_line_granularity : Granularity
  byte_granularity : Granularity

abbrev pub fsdax : Text
fsdax = b'f' ∷ b's' ∷ b'd' ∷ b'a' ∷ b'x' ∷ []

abbrev pub devdax : Text
devdax = b'd' ∷ b'e' ∷ b'v' ∷ b'd' ∷ b'a' ∷ b'x' ∷ []

abbrev pub anon : Text
anon = b'a' ∷ b'n' ∷ b'o' ∷ b'n' ∷ []

abbrev pub page : Text
page = b'p' ∷ b'a' ∷ b'g' ∷ b'e' ∷ []

abbrev pub cacheline : Text
cacheline = b'c' ∷ b'a' ∷ b'c' ∷ b'h' ∷ b'e' ∷ b'l' ∷ b'i' ∷ b'n' ∷ b'e' ∷ []

abbrev pub byte : Text
byte = b'b' ∷ b'y' ∷ b't' ∷ b'e' ∷ []

unfoldable pub read_granularity : Text → Run Granularity
read_granularity t =
    if same_text t page
    then goes page_granularity
    else if same_text t cacheline
    then goes cache_line_granularity
    else if same_text t byte
    then goes byte_granularity
    else exits 1

-- `std::find` in `kSourceType`
abbrev pub is_source : Text → Bool
is_source t = same_text t fsdax || same_text t devdax || same_text t anon

-- What is left of the options when all tests are passed.
pub record Job : Type 0 where
  pub source : Text
  pub file_size : ℕ
  pub arguments : Arguments
  pub dry_run : Bool
  pub granularity : Granularity

-- The test of the arguments, behind the conversion of the options.
unfoldable pub check_job : Job → Run Job
check_job job = do
  exit_if (not job.arguments.op_read && not job.arguments.op_write) 1
  exit_if (not (is_source job.source)) 1
  verdict_ends (size_tests job.arguments)
  goes job

abbrev pub job_of : Options → (file_size block stripe nthreads total : ℕ) → Granularity → Job
job_of o file_size block stripe nthreads total granularity = record {
  source = o.source;
  file_size = file_size;
  arguments = record {
    block_size = block;
    stripe_size = stripe;
    nthreads = nthreads;
    total_size = total;
    op_read = o.read;
    op_write = o.write;
    op_random = o.random;
  };
  dry_run = o.dry_run;
  granularity = granularity;
}

unfoldable pub read_job : Options → Run Job
unfolding read_granularity check_job
read_job o = do
  exit_if o.help 0
  file_size ← number (pretty_to o.file_size)
  block_size ← number (pretty_to o.block)
  stripe_size ← number (pretty_to o.stripe)
  nthreads ← number (pretty_to o.nthreads)
  total_size ← number (pretty_to o.total)
  granularity ← read_granularity o.granularity
  check_job (job_of o file_size block_size stripe_size nthreads total_size granularity)

-- The answers of the system and of libpmem2. `file` is the size of the file that `open` finds under
-- the path; a source and a mapping are known by their sizes.
pub record Host : Type 0 where
  pub file : Option ℕ
  pub may_create : Bool
  pub may_truncate : ℕ → Bool
  pub source_from_fd : Option ℕ → Option ℕ
  pub source_from_anon : ℕ → Option ℕ
  pub config_new : Bool
  pub takes_granularity : Granularity → Bool
  pub map_new : ℕ → Option ℕ

-- `createPmem2SourceFromFsdax`: the source, if any, and the file that is left.
unfoldable pub create_from_fsdax : Host → ℕ → Option ℕ × Option ℕ
create_from_fsdax h file_size = elim h.file [
  | some n ↦ (h.source_from_fd (some n), some n)
  | none ↦
      if not h.may_create
      then (none, none)
      else if not (h.may_truncate file_size)
      then (none, some 0)
      else (h.source_from_fd (some file_size), some file_size)
]

-- `createPmem2SourceFromDevdax`: the result of `open` is passed on untested.
abbrev pub create_from_devdax : Host → Option ℕ
create_from_devdax h = h.source_from_fd h.file

abbrev pub create_from_anonymous : Host → ℕ → Option ℕ
create_from_anonymous h size = h.source_from_anon size

unfoldable pub create_source : Host → Job → Option ℕ
unfolding create_from_fsdax
create_source h job =
    if same_text job.source fsdax
    then (create_from_fsdax h job.file_size).0
    else if same_text job.source devdax
    then create_from_devdax h
    else create_from_anonymous h job.file_size

abbrev pub or_exit : {A : Type 0} → Option A → Run A
or_exit none = exits 1
or_exit (some a) = goes a

-- The size of the mapping.
unfoldable pub open_map : Host → Job → Run ℕ
unfolding create_source
open_map h job = do
  source ← or_exit (create_source h job)
  exit_if (not h.config_new) 1
  exit_if (not (h.takes_granularity job.granularity)) 1
  or_exit (h.map_new source)

-- The bytes of the mapping, from its address on.
abbrev pub Memory : Type 0
Memory = ℕ → ℕ

abbrev pub byte_at : Text → ℕ → ℕ
byte_at content i = elim (get_elem? content i) [ none ↦ 0 | some c ↦ c ]

-- `memcpy` of `content` to the address.
abbrev pub store : Memory → ℕ → Text → Memory
store mem to content a =
    if leb to a && ltb a (to + length content) then byte_at content (a - to) else mem a

-- One round of the inner loop; `size` is that of the mapping, `none` an access outside of it.
unfoldable pub access_block : Job → ℕ → Text → ℕ → Memory → Option Memory
access_block job size content b mem =
    let to = b * job.arguments.block_size % 2 ^ 64 in
    if job.dry_run
    then some mem
    else if not (leb (to + job.arguments.block_size) size)
    then none
    else if job.arguments.op_write
    then some (store mem to content)
    else some mem

unfoldable pub access_blocks : Job → ℕ → Text → List ℕ → Memory → Option Memory
unfolding access_block
access_blocks job size content [] mem = some mem
access_blocks job size content (b ∷ bs) mem = elim (access_block job size content b mem) [
  | none ↦ none
  | some mem' ↦ access_blocks job size content bs mem'
]

-- The static buffer of a thread.
abbrev pub buffer_size : ℕ
buffer_size = 2 * 1024 * 1024

-- All workers: each fills its buffer, and the threads take turns as `schedule` says.
unfoldable pub run_workers :
    (shuffle schedule : List ℕ → List ℕ) → Job → ℕ → Text → Memory → Run Memory
unfolding accessed_blocks access_blocks
run_workers shuffle schedule job size content mem =
    if ltb buffer_size (length content)
    then faults
    else elim (accessed_blocks shuffle job.arguments) [
      | none ↦ faults
      | some bs ↦ elim (access_blocks job size content (schedule bs) mem) [
        | none ↦ faults
        | some mem' ↦ goes mem'
      ]
    ]

-- The JSON object that is printed, without the measured times: `bytes` is divided by the time.
pub record Report : Type 0 where
  pub job : Job
  pub success : Bool
  pub bytes : ℕ

-- `generate` is `generateRandomAlphanumericString`.
unfoldable pub main :
    (shuffle schedule : List ℕ → List ℕ)
    → (ℕ → Text)
    → Host
    → Options
    → Memory
    → Run (Report × Memory)
unfolding read_job open_map run_workers
main shuffle schedule generate host o mem = do
  job ← read_job o
  size ← (if job.dry_run then goes 0 else open_map host job)
  mem' ← run_workers shuffle schedule job size (generate job.arguments.block_size) mem
  goes (record { job = job; success = true; bytes = job.arguments.total_size }, mem')
