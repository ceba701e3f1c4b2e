-- ===== src/Pmem2Bench/Jobs.antt =====
-- What is known of a job when all tests of the options are passed, and of the source that is made for it.
use spack_playground.Prelude.{
  subst, ℕ, ◌^◌, ◌<◌, ◌≡◌, refl, ap, ◌∙◌, ◌⊎◌, inl, inr, Bool, true, false, not, ◌&&◌, Option, none,
  some, arith, if◌then◌else◌,
}
use spack_playground.Exits.{goes, exit_if, >>=-eq-goes, exit_if-eq-goes, goes_injective}
use spack_playground.PrettyBytes.{pretty_to}
use spack_playground.Stripes.{accepted, no_operation, size_tests, check_arguments}
use spack_playground.Stripes.Jobs.{number, verdict_ends, verdict_ends-eq-goes, number-lt}
use spack_playground.Pmem2Bench.{
  Options, read_granularity, is_source, Job, job_of, check_job, read_job, Host, create_from_fsdax,
}

-- What a job that `main` works on has passed.
pub record Passed (job : Job) : Type 0 where
  pub checked : check_arguments job.arguments ≡ accepted
  pub known_source : is_source job.source ≡ true
  pub total_fits : job.arguments.total_size < 2 ^ 64

check_job-passed :
    (job job' : Job)
    → check_job job ≡ goes job'
    → (job ≡ job') × (check_arguments job.arguments ≡ accepted) × (is_source job.source ≡ true)
unfolding check_job check_arguments
check_job-passed job job' h =
    let (_, chosen, h₁) =
      >>=-eq-goes (exit_if (not job.arguments.op_read && not job.arguments.op_write) 1) _ h in
    let (_, known, h₂) = >>=-eq-goes (exit_if (not (is_source job.source)) 1) _ h₁ in
    let (_, sizes, h₃) = >>=-eq-goes (verdict_ends (size_tests job.arguments)) _ h₂ in
    (
      goes_injective h₃,
      ap (λ t. if t then no_operation else size_tests job.arguments) (exit_if-eq-goes _ 1 chosen)
          ∙ verdict_ends-eq-goes (size_tests job.arguments) sizes,
      unnegated (is_source job.source) (exit_if-eq-goes _ 1 known),
    )
  where
    unnegated : (b : Bool) → not b ≡ false → b ≡ true
    unnegated b e = ground arith

-- Where `main` gets past its tests, the sizes are accepted, the source is one of the three, and the total
-- size is a 64-bit number.
pub read_job-Passed : (o : Options) (job : Job) → read_job o ≡ goes job → Passed job
unfolding read_job
read_job-Passed o job h =
    let (_, _, h₁) = >>=-eq-goes (exit_if o.help 0) _ h in
    let (file_size, _, h₂) = >>=-eq-goes (number (pretty_to o.file_size)) _ h₁ in
    let (block_size, _, h₃) = >>=-eq-goes (number (pretty_to o.block)) _ h₂ in
    let (stripe_size, _, h₄) = >>=-eq-goes (number (pretty_to o.stripe)) _ h₃ in
    let (nthreads, _, h₅) = >>=-eq-goes (number (pretty_to o.nthreads)) _ h₄ in
    let (total_size, total, h₆) = >>=-eq-goes (number (pretty_to o.total)) _ h₅ in
    let (granularity, _, h₇) = >>=-eq-goes (read_granularity o.granularity) _ h₆ in
    let (same, checked, known) =
      check_job-passed (job_of o file_size block_size stripe_size nthreads total_size granularity)
        job h₇ in
    subst Passed same (record {
      checked = checked;
      known_source = known;
      total_fits = number-lt o.total total_size total;
    })

-- `createPmem2SourceFromFsdax` never changes a file that it finds, whatever its size; a file that it
-- makes has the size of the option, or is left empty where it cannot be given that size. A source
-- is made of the file that is left.
pub create_from_fsdax_lem :
    (h : Host) (file_size : ℕ)
    → ((n : ℕ)
        → h.file ≡ some n
        → create_from_fsdax h file_size ≡ (h.source_from_fd (some n), some n))
      × (h.file ≡ none
          → (create_from_fsdax h file_size ≡ (none, none))
            ⊎ ((create_from_fsdax h file_size ≡ (none, some 0))
                ⊎ (create_from_fsdax h file_size
                    ≡ (h.source_from_fd (some file_size), some file_size))))
unfolding create_from_fsdax
create_from_fsdax_lem h file_size = (
  λ n e. rw (e, create_from_fsdax) refl,
  λ e.
      rw (e, create_from_fsdax)
        (by_answers h.may_create (h.may_truncate file_size) (h.source_from_fd (some file_size))
          (some file_size)),
)
  where
    by_answers :
        (may_create may_truncate : Bool) (source file : Option ℕ)
        → let made : Option ℕ × Option ℕ =
            (if not may_create
              then (none, none)
              else if not may_truncate
              then (none, some 0)
              else (source, file)) in
          (made ≡ (none, none)) ⊎ ((made ≡ (none, some 0)) ⊎ (made ≡ (source, file)))
    by_answers false t source file = inl refl
    by_answers true false source file = inr (inl refl)
    by_answers true true source file = inr (inr refl)
