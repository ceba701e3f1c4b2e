-- ===== src/PmemblkBench/Success.antt =====
-- What a report of success means.
use native.Mathlib.Nat.{le-div_iff_mul-le}
use spack_playground.Prelude.{
  ℕ, ◌+◌, ◌*◌, ◌/◌, ◌^◌, ◌<◌, ◌≤◌, ◌≡◌, refl, sym, ap, ◌∙◌, subst, Bool, true, false, not, ◌&&◌,
  Option, none, some, List, [], ◌∷◌, arith, ltb, ◌==◌, if◌then◌else◌,
}
use spack_playground.Prelude.Family.{one_if}
use spack_playground.Prelude.Occurrences.{occurrences}
use spack_playground.Exits.{
  Run, goes, faults, exit_if, >>=-eq-goes, exit_if-eq-goes, goes_injective,
}
use spack_playground.PrettyBytes.{Text, pretty_to}
use spack_playground.Stripes.{
  Arguments, accepted, no_operation, size_tests, check_arguments, layout, access_offset,
  workers_blocks, accessed_blocks,
}
use spack_playground.Stripes.Jobs.{number, verdict_ends, verdict_ends-eq-goes, number-lt}
use spack_playground.Stripes.Failing.{Trace, workers_accesses, workers-Complete, Complete}
use spack_playground.Stripes.Made.{Made, workers-Made}
use spack_playground.Stripes.Check.{check-Accepts}
use spack_playground.Stripes.Total.{accesses_inside}
use spack_playground.Stripes.Cover.{IsShuffle, is_accessed, accessed_once}
use spack_playground.PmemblkBench.{
  Options, arguments_of, check_options, read_options, Host, open_pool, fit_pool, Blocks,
  write_blocks, Report, report_of, measure, main,
}

write_blocks_lem :
    (content : Text) (bs : List ℕ) (blocks : Blocks) (n : ℕ)
    → write_blocks content bs blocks n ≡ (if ltb 0 (occurrences n bs) then content else blocks n)
unfolding write_blocks occurrences
write_blocks_lem content [] blocks n = refl
write_blocks_lem content (b ∷ bs) blocks n =
    write_blocks_lem content bs (λ k. if b == k then content else blocks k) n
    ∙ merged content (blocks n) (b == n) (occurrences n bs)
  where
    merged :
        (x y : Text) (here : Bool) (n : ℕ)
        → (if ltb 0 n then x else (if here then x else y))
          ≡ (if ltb 0 (one_if here + n) then x else y)
    merged x y here n = ground arith

check_options-passed :
    (min_pool pool_size : ℕ) (args args' : Arguments)
    → check_options min_pool pool_size args ≡ goes args'
    → (args ≡ args') × (check_arguments args ≡ accepted)
unfolding check_options check_arguments
check_options-passed min_pool pool_size args args' h =
    let (_, chosen, h₁) = >>=-eq-goes (exit_if (not args.op_read && not args.op_write) 1) _ h in
    let (_, sizes, h₂) = >>=-eq-goes (verdict_ends (size_tests args)) _ h₁ in
    let (_, _, h₃) = >>=-eq-goes (exit_if (ltb pool_size min_pool) 1) _ h₂ in
    (
      goes_injective h₃,
      ap (λ t. if t then no_operation else size_tests args) (exit_if-eq-goes _ 1 chosen)
          ∙ verdict_ends-eq-goes (size_tests args) sizes,
    )

read_options-passed :
    (min_pool : ℕ) (o : Options) (args : Arguments)
    → read_options min_pool o ≡ goes args
    → (check_arguments args ≡ accepted) × (args.total_size < 2 ^ 64)
unfolding read_options
read_options-passed min_pool o args h =
    let (_, _, h₁) = >>=-eq-goes (exit_if o.help 0) _ h in
    let (pool_size, _, h₂) = >>=-eq-goes (number (pretty_to o.pool_size)) _ h₁ in
    let (block_size, _, h₃) = >>=-eq-goes (number (pretty_to o.block)) _ h₂ in
    let (stripe_size, _, h₄) = >>=-eq-goes (number (pretty_to o.stripe)) _ h₃ in
    let (nthreads, _, h₅) = >>=-eq-goes (number (pretty_to o.nthreads)) _ h₄ in
    let (total_size, total, h₆) = >>=-eq-goes (number (pretty_to o.total)) _ h₅ in
    let (same, checked) =
      check_options-passed min_pool pool_size
        (arguments_of o block_size stripe_size nthreads total_size) args h₆ in
    subst (λ a. (check_arguments a ≡ accepted) × (a.total_size < 2 ^ 64)) same
      (checked, number-lt o.total total_size total)

fit_pool-room :
    (host : Host) (args : Arguments) (nelements : ℕ)
    → fit_pool host args ≡ goes nelements
    → args.total_size / args.block_size ≤ nelements
unfolding fit_pool
fit_pool-room host args nelements h =
    let (n, _, h₁) = >>=-eq-goes (open_pool host) _ h in
    let (_, room, h₂) = >>=-eq-goes (exit_if (ltb n (args.total_size / args.block_size)) 1) _ h₁ in
    enough n (args.total_size / args.block_size) nelements (exit_if-eq-goes _ 1 room)
      (goes_injective h₂)
  where
    enough : (n m k : ℕ) → ltb n m ≡ false → n ≡ k → m ≤ k
    enough n m k e f = ground arith

module _ (shuffle schedule : List ℕ → List ℕ) (fails : ℕ → Bool) (seen : ℕ → ℕ → Bool)
    (shuffles : IsShuffle shuffle) (takes_turns : IsShuffle schedule) where
  measure-eq-goes :
      (args : Arguments) (content : Text) (blocks blocks' : Blocks) (report : Report)
      → ((i s : ℕ) → seen i s ≡ false)
      → measure shuffle schedule fails seen args content blocks ≡ goes (report, blocks')
      → report.success ≡ true
      → (xs : List ℕ) × (accessed_blocks shuffle args ≡ some xs)
        × (report ≡ record { success = true; bytes = some args.total_size })
        × (blocks' ≡ (if args.op_write then write_blocks content (schedule xs) blocks else blocks))
        × ((b : ℕ) → 0 < occurrences b xs → fails b ≡ false)
  unfolding measure accessed_blocks
  measure-eq-goes args content blocks blocks' report unseen run success =
      by_trace
        (workers_accesses fails seen (layout args) (access_offset shuffle args) args.nthreads 0)
        (workers-Complete fails seen (layout args) (access_offset shuffle args) args.nthreads 0
          unseen)
        (workers-Made fails seen (layout args) (access_offset shuffle args) args.nthreads 0) run
    where
      by_trace :
          (o : Option Trace)
          → Complete o (workers_blocks (layout args) (access_offset shuffle args) args.nthreads 0)
          → Made fails o
          → ◌≡◌ {A = Run (Report × Blocks)}
              (elim o [
                | none ↦ faults
                | some t ↦ goes (
                  report_of args t,
                  if args.op_write then write_blocks content (schedule t.done) blocks else blocks,
                )
              ])
              (goes (report, blocks'))
          → (xs : List ℕ) × (workers_blocks
                (layout args)
                (access_offset shuffle args)
                args.nthreads
                0
              ≡ some xs)
            × (report ≡ record { success = true; bytes = some args.total_size })
            × (blocks'
                ≡ (if args.op_write then write_blocks content (schedule xs) blocks else blocks))
            × ((b : ℕ) → 0 < occurrences b xs → fails b ≡ false)
      by_trace none complete made e = absurd (cc e)
      by_trace (some t) complete made e =
          let same : (report_of args t ≡ report)
              × ((if args.op_write then write_blocks content (schedule t.done) blocks else blocks)
                  ≡ blocks') =
            (ap (λ x. x.0) (goes_injective e), ap (λ x. x.1) (goes_injective e)) in
          let ok : t.failed ≡ false = kept t.failed (ap (λ r. r.success) same.0 ∙ success) in
          (
            t.done,
            complete ok,
            sym same.0
                ∙ ap
                    (λ f. record {
                      success = not f;
                      bytes = if not f then some args.total_size else none;
                    })
                    ok,
            sym same.1,
            made,
          )
        where
          kept : (f : Bool) → not f ≡ true → f ≡ false
          kept f e = ground arith

  in_pool :
      (args : Arguments) (nelements : ℕ)
      → check_arguments args ≡ accepted
      → args.total_size < 2 ^ 64
      → args.total_size / args.block_size ≤ nelements
      → (b : ℕ) → is_accessed args b ≡ true
      → b < nelements
  in_pool args nelements checked small room b hit =
      let (xs, run, counts) = accessed_once shuffle args shuffles checked small in
      let (ys, run', inside) = accesses_inside shuffle args shuffles checked small in
      let once : occurrences b ys ≡ 1 =
        ap (occurrences b) (same_list run' run) ∙ counts b ∙ ap one_if hit in
      let fits : (b + 1) * args.block_size ≤ args.total_size = (inside b (omega (arith, once))).1 in
      let below : b + 1 ≤ args.total_size / args.block_size =
        (le-div_iff_mul-le ((check-Accepts args).0 checked).some_block).1 fits in
      omega (arith, below, room)
    where
      same_list : {o : Option (List ℕ)} {xs ys : List ℕ} → o ≡ some xs → o ≡ some ys → xs ≡ ys
      same_list e f = cc

  -- Where `main` reports success, and no worker finds the flag set that no worker has set, the call for
  -- every block that the arguments make the workers access has not failed. After a write run each of these
  -- blocks holds the random text and all others are unchanged, in every order in which the threads take
  -- turns; a read run changes nothing. The total size is divided by the time, and every accessed block lies in the pool.
  pub main-success :
      (generate : ℕ → Text) (min_pool : ℕ) (host : Host) (o : Options) (blocks blocks' : Blocks)
      (report : Report)
      → main shuffle schedule fails seen generate min_pool host o blocks ≡ goes (report, blocks')
      → report.success ≡ true
      → ((i s : ℕ) → seen i s ≡ true → report.success ≡ false)
      → (args : Arguments) × (read_options min_pool o ≡ goes args)
        × (report.bytes ≡ some args.total_size)
        × ((n : ℕ) × (fit_pool host args ≡ goes n) × ((b : ℕ) → is_accessed args b ≡ true → b < n))
        × ((b : ℕ)
            → blocks' b ≡ (
                if args.op_write && is_accessed args b then generate args.block_size else blocks b))
        × ((b : ℕ) → is_accessed args b ≡ true → fails b ≡ false)
  unfolding main
  main-success generate min_pool host o blocks blocks' report run success honest =
      let (args, read, run₁) = >>=-eq-goes (read_options min_pool o) _ run in
      let (nelements, fits, run₂) = >>=-eq-goes (fit_pool host args) _ run₁ in
      let (checked, small) = read_options-passed min_pool o args read in
      let (xs, accessed, reported, after, made) =
        measure-eq-goes args (generate args.block_size) blocks blocks' report
          (λ i s. unset (seen i s) (honest i s)) run₂ success in
      let (ys, accessed', counts) = accessed_once shuffle args shuffles checked small in
      (
        args,
        read,
        ap (λ r. r.bytes) reported,
        (
          nelements,
          fits,
          λ b hit.
              in_pool args nelements checked small (fit_pool-room host args nelements fits) b hit,
        ),
        λ b.
            ap (λ f. f b) after
            ∙ by_kind args.op_write b xs (is_accessed args b)
                (takes_turns.keeps_occurrences b xs
                  ∙ ap (occurrences b) (same_list accessed accessed')
                  ∙ counts b)
                (generate args.block_size),
        λ b hit. made b (
            omega
              (arith, ap (occurrences b) (same_list accessed accessed'), counts b, ap one_if hit)),
      )
    where
      unset : (f : Bool) → (f ≡ true → report.success ≡ false) → f ≡ false
      unset true h = absurd (cc (sym (h refl) ∙ success))
      unset false h = refl

      same_list : {o : Option (List ℕ)} {xs ys : List ℕ} → o ≡ some xs → o ≡ some ys → xs ≡ ys
      same_list e f = cc

      picked :
          (flag : Bool) (n : ℕ) (x y : Text)
          → n ≡ one_if flag
          → (if ltb 0 n then x else y) ≡ (if flag then x else y)
      picked flag n x y e = ground arith

      by_kind :
          (w : Bool) (b : ℕ) (xs : List ℕ) (flag : Bool)
          → occurrences b (schedule xs) ≡ one_if flag
          → (content : Text)
          → (if w then write_blocks content (schedule xs) blocks else blocks) b
            ≡ (if w && flag then content else blocks b)
      by_kind false b xs flag e content = refl
      by_kind true b xs flag e content =
          write_blocks_lem content (schedule xs) blocks b
          ∙ picked flag (occurrences b (schedule xs)) content (blocks b) e
