-- ===== src/Pmem2Bench/Main.antt =====
-- `main` from the options to the bytes in the mapping.
use native.Mathlib.Nat.{mod-lt, mod-add-div'}
use spack_playground.Prelude.{
  ℕ, ◌+◌, ◌*◌, ◌/◌, ◌%◌, ◌^◌, ◌<◌, ◌≤◌, ◌≡◌, refl, sym, ap, ◌∙◌, subst, Bool, true, false, Option,
  some, List, arith, ltb, if◌then◌else◌, length,
}
use spack_playground.Prelude.Family.{one_if}
use spack_playground.Prelude.Occurrences.{occurrences, All-occurrences}
use spack_playground.Exits.{goes}
use spack_playground.PrettyBytes.{Text}
use spack_playground.Stripes.Check.{check-Accepts}
use spack_playground.Stripes.Cover.{IsShuffle, is_accessed, accessed_once}
use spack_playground.Stripes.Total.{accesses_inside}
use spack_playground.Pmem2Bench.{
  Options, Job, read_job, Host, open_map, Memory, byte_at, buffer_size, run_workers, main,
}
use spack_playground.Pmem2Bench.Bytes.{blocks_written}
use spack_playground.Pmem2Bench.Jobs.{Passed, read_job-Passed}

module _ (shuffle schedule : List ℕ → List ℕ) (shuffles : IsShuffle shuffle)
    (takes_turns : IsShuffle schedule) (job : Job) (passed : Passed job) (size : ℕ) (content : Text)
    (mem : Memory) (filled : length content ≡ job.arguments.block_size)
    (buffered : job.arguments.block_size ≤ buffer_size) (mapped : job.arguments.total_size ≤ size)
    (in_words : size ≤ 2 ^ 64) (writes : job.arguments.op_write ≡ true)
    (wet : job.dry_run ≡ false) where
  open passed use {checked, total_fits}
  open job.arguments use {block_size}

  some_block : 0 < block_size
  some_block = ((check-Accepts job.arguments).0 checked).some_block

  -- what the memory holds after the run
  abbrev pub Written : Memory → Type 0
  Written mem' =
      (a : ℕ)
      → mem' a ≡ (
          if is_accessed job.arguments (a / block_size)
          then byte_at content (a % block_size)
          else mem a)

  run_workers_lem :
      (mem' : Memory) × (run_workers shuffle schedule job size content mem ≡ goes mem')
      × Written mem'
  unfolding run_workers
  run_workers_lem =
      let (bs, run, inside) = accesses_inside shuffle job.arguments shuffles checked total_fits in
      let (bs₁, run₁, counts) = accessed_once shuffle job.arguments shuffles checked total_fits in
      let turn = takes_turns.keeps_occurrences in
      let (mem', done, bytes) =
        blocks_written content block_size filled job refl size in_words writes wet (schedule bs) mem
          some_block
          (All-occurrences _ (schedule bs)
            (λ b pos. within b (inside b (subst (λ n. 0 < n) (turn b bs) pos)).1)) in
      let small : ltb buffer_size (length content) ≡ false = ground (arith, filled, buffered) in
      (
        mem',
        rw (small, run_workers, run, done) refl,
        λ a.
            at_address a mem' bs bytes (turn (a / block_size) bs)
              (ap (occurrences (a / block_size)) (same_list run run₁) ∙ counts (a / block_size)),
      )
    where
      same_list : {o : Option (List ℕ)} {xs ys : List ℕ} → o ≡ some xs → o ≡ some ys → xs ≡ ys
      same_list e f = cc

      within :
          (b : ℕ) → (b + 1) * block_size ≤ job.arguments.total_size → (b + 1) * block_size ≤ size
      within b le = omega (arith, le, mapped)

      picked :
          (flag : Bool) (n x y y' : ℕ)
          → n ≡ one_if flag
          → y ≡ y'
          → (if ltb 0 n then x else y) ≡ (if flag then x else y')
      picked flag n x y y' e f = ground arith

      at_address :
          (a : ℕ) (mem' : Memory) (bs : List ℕ)
          → ((q r : ℕ)
              → r < block_size
              → mem' (q * block_size + r) ≡ (
                  if ltb 0 (occurrences q (schedule bs))
                  then byte_at content r
                  else mem (q * block_size + r)))
          → occurrences (a / block_size) (schedule bs) ≡ occurrences (a / block_size) bs
          → occurrences (a / block_size) bs ≡ one_if (is_accessed job.arguments (a / block_size))
          → mem' a ≡ (
              if is_accessed job.arguments (a / block_size)
              then byte_at content (a % block_size)
              else mem a)
      at_address a mem' bs bytes same count =
          let here : a / block_size * block_size + a % block_size ≡ a =
            omega (arith, mod-add-div' a block_size) in
          ap mem' (sym here)
          ∙ bytes (a / block_size) (a % block_size) (mod-lt a some_block)
          ∙ picked (is_accessed job.arguments (a / block_size))
              (occurrences (a / block_size) (schedule bs)) (byte_at content (a % block_size)) _
              (mem a) (same ∙ count) (ap mem here)

-- A write run that gets past the tests and the opening of the mapping, where the mapping is at least as
-- long as the total size and a block fits into the static buffer, ends with a report of success. In
-- every order in which the threads take turns, each byte of an accessed block is then that of the
-- random text at its place, and no other byte has changed.
pub main-writes :
    (shuffle schedule : List ℕ → List ℕ) (generate : ℕ → Text) (host : Host) (o : Options)
    (mem : Memory) (job : Job) (size : ℕ) (shuffles : IsShuffle shuffle)
    (takes_turns : IsShuffle schedule)
    → ((n : ℕ) → length (generate n) ≡ n)
    → (read : read_job o ≡ goes job) → open_map host job ≡ goes size
    → (buffered : job.arguments.block_size ≤ buffer_size)
    → (mapped : job.arguments.total_size ≤ size) → (in_words : size ≤ 2 ^ 64)
    → (writes : job.arguments.op_write ≡ true) → (wet : job.dry_run ≡ false)
    → (mem' : Memory) × (main shuffle schedule generate host o mem
        ≡ goes (record { job = job; success = true; bytes = job.arguments.total_size }, mem'))
      × ((a : ℕ)
          → mem' a ≡ (
              if is_accessed job.arguments (a / job.arguments.block_size)
              then byte_at (generate job.arguments.block_size) (a % job.arguments.block_size)
              else mem a))
unfolding main
main-writes shuffle schedule generate host o mem job size shuffles takes_turns lengths read opened
      buffered mapped in_words writes wet =
    let (mem', run, bytes) =
      run_workers_lem shuffle schedule shuffles takes_turns job (read_job-Passed o job read) size
        (generate job.arguments.block_size) mem (lengths job.arguments.block_size) buffered mapped
        in_words writes wet in
    (mem', rw (read, main, wet, opened, run) refl, bytes)
