-- ===== src/PmemobjBench.antt =====
-- targets/apps/pmemobjbench/main.cpp: the benchmark on a vector of persistent objects.
pub mod Objects
mod Examples
use spack_playground.Prelude.{
  ℕ, zero, suc, ◌+◌, ◌*◌, ◌/◌, ◌%◌, ◌^◌, Bool, true, false, not, ◌&&◌, ◌||◌, Option, none, some,
  List, [], ◌∷◌, ◌++◌, ltb, ◌==◌, if◌then◌else◌, get_elem?,
}
use spack_playground.Exits.{Run, goes, exits, throws, faults, ◌>>=◌, ◌>>◌, exit_if}
use spack_playground.PrettyBytes.{Text, pretty_to}
use spack_playground.Stripes.{Arguments, size_tests, Layout, layout, access_offset}
use spack_playground.Stripes.Failing.{Trace, workers_accesses}
use spack_playground.Stripes.Jobs.{number, verdict_ends}

-- The parsed command line.
pub record Options : Type 0 where
  pub help : Bool
  pub file_size : Text
  pub total : Text
  pub block : Text
  pub stripe : Text
  pub nthreads : Text
  pub read : Bool
  pub write : Bool
  pub alloc : Bool
  pub random : Bool

pub record Job : Type 0 where
  pub file_size : ℕ
  pub arguments : Arguments
  pub op_alloc : Bool

abbrev pub job_of : Options → (file_size block stripe nthreads total : ℕ) → Job
job_of o file_size block stripe nthreads total = record {
  file_size = file_size;
  arguments = record {
    block_size = block;
    stripe_size = stripe;
    nthreads = nthreads;
    total_size = total;
    op_read = o.read;
    op_write = o.write;
    op_random = o.random;
  };
  op_alloc = o.alloc;
}

-- `total_size / block_size`, which stands before the tests.
abbrev pub count_objects : ℕ → ℕ → Run ℕ
count_objects total zero = faults
count_objects total (suc block) = goes (total / suc block)

unfoldable pub check_job : Job → Run Job
check_job job = do
  exit_if (not job.arguments.op_read && not job.arguments.op_write) 1
  verdict_ends (size_tests job.arguments)
  goes job

unfoldable pub read_job : Options → Run (Job × ℕ)
unfolding check_job
read_job o = do
  exit_if o.help 0
  file_size ← number (pretty_to o.file_size)
  block_size ← number (pretty_to o.block)
  stripe_size ← number (pretty_to o.stripe)
  nthreads ← number (pretty_to o.nthreads)
  total_size ← number (pretty_to o.total)
  nobjects ← count_objects total_size block_size
  job ← check_job (job_of o file_size block_size stripe_size nthreads total_size)
  goes (job, nobjects)

-- `objs`: the data of each object, `none` for a null pointer. Its length is `nobjects`.
abbrev pub Objects : Type 0
Objects = ℕ → Option Text

-- `resize` keeps the objects below the old length; new ones have a null pointer.
abbrev pub resize : ℕ → ℕ → Objects → Objects
resize old new objs n = if ltb n old then (if ltb n new then objs n else none) else none

-- An access behind which the worker finds a failure. `noted` is what it reads from `ret`, which all
-- threads share: another thread may have written it in between.
abbrev pub fails : Job → (ℕ → Bool) → ℕ → Bool
fails job noted b = job.arguments.op_write && not job.op_alloc && noted b

-- How any other access ends: the objects after it, an exception that no one catches in a thread, or
-- undefined behaviour, as a read through a null pointer is.
pub data Access : Type 0 where
  went : Objects → Access
  terminated : Access
  undefined : Access

-- One round of the inner loop. `room` tells whether the allocation succeeds; where it does not,
-- `pmemobj_xalloc` leaves the pointer as it is. `blank` is what `make_persistent_atomic` leaves in a new array, and
-- `memcpyConstructor` copies `content`.
unfoldable pub access_object : Job → ℕ → Text → Text → Bool → ℕ → Objects → Access
access_object job nobjects blank content room b objs =
    if not (ltb b nobjects)
    then undefined
    else if job.arguments.op_write
    then (if job.op_alloc
        then (if room then went (λ n. if b == n then some blank else objs n) else terminated)
        else went (λ n. if (b == n) && room then some content else objs n))
    else elim (objs b) [ none ↦ undefined | some c ↦ went objs ]

unfoldable pub access_objects : Job → ℕ → Text → Text → (ℕ → Bool) → List ℕ → Objects → Access
unfolding access_object
access_objects job nobjects blank content room [] objs = went objs
access_objects job nobjects blank content room (b ∷ bs) objs =
    elim (access_object job nobjects blank content (room b) b objs) [
      | went objs' ↦ access_objects job nobjects blank content room bs objs'
      | terminated ↦ terminated
      | undefined ↦ undefined
    ]

-- The JSON object that is printed, without the measured times: `bytes` is divided by the time.
pub record Report : Type 0 where
  pub success : Bool
  pub bytes : Option ℕ

abbrev pub report_of : Arguments → Trace → Report
report_of args t = record {
  success = not t.failed;
  bytes = if not t.failed then some args.total_size else none;
}

abbrev pub ends : Report → Access → Run (Report × Objects)
ends report (went objs) = goes (report, objs)
ends report terminated = throws []
ends report undefined = faults

-- The workers and the report; `schedule` is the order in which the threads take turns.
unfoldable pub measure :
    (shuffle schedule : List ℕ → List ℕ)
    → (ℕ → ℕ → Bool)
    → (noted room : ℕ → Bool) → Job
    → ℕ
    → Text
    → Text
    → Objects
    → Run (Report × Objects)
unfolding workers_accesses access_objects
measure shuffle schedule seen noted room job nobjects blank content objs =
    elim (workers_accesses (fails job noted) seen (layout job.arguments)
      (access_offset shuffle job.arguments) job.arguments.nthreads 0) [
        | none ↦ faults
        | some t ↦
            ends (report_of job.arguments t)
              (access_objects job nobjects blank content room (schedule t.done) objs)
      ]

-- `catch (const std::exception& e)` around `main`, which returns -1.
abbrev pub caught : {A : Type 0} → Run A → Run A
caught (goes a) = goes a
caught (exits n) = exits n
caught (throws s) = exits 255
caught faults = faults

-- The answers of libpmemobj: whether the pool checks out, and whether opening or creating it and
-- the transaction that resizes the vector succeed. `length` is that of the vector in the pool.
pub record Host : Type 0 where
  pub checks : Bool
  pub opens : Bool
  pub creates : Bool
  pub resizes : Bool
  pub length : ℕ

abbrev pub throw_unless : Bool → Run (Unit {0})
throw_unless true = goes tt
throw_unless false = throws []

-- The vector in a pool that was created is empty.
unfoldable pub open_pool : Host → Run ℕ
open_pool h =
    if h.checks
    then (do throw_unless h.opens; goes h.length)
    else (do throw_unless h.creates; goes 0)

unfoldable pub prepare : Host → Options → Objects → Run (Job × ℕ × Objects)
unfolding read_job open_pool
prepare h o objs = do
  (job, nobjects) ← read_job o
  length ← open_pool h
  throw_unless h.resizes
  goes (job, nobjects, resize length nobjects objs)

unfoldable pub main :
    (shuffle schedule : List ℕ → List ℕ)
    → (ℕ → ℕ → Bool)
    → (noted room : ℕ → Bool) → Text
    → (ℕ → Text)
    → Host
    → Options
    → Objects
    → Run (Report × Objects)
unfolding prepare measure
main shuffle schedule seen noted room blank generate h o objs = do
  (job, nobjects, resized) ← caught (prepare h o objs)
  measure shuffle schedule seen noted room job nobjects blank (generate job.arguments.block_size)
      resized
