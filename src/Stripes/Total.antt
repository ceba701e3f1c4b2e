-- ===== src/Stripes/Total.antt =====
-- What the accesses come to, against the total size that the throughput is computed from.
use native.Mathlib.Nat.{
  mod-lt, mod-add-div', mul-le-mul_right, add-mul, mul_assoc, div-lt_iff_lt-mul,
  mul-lt-mul_of_pos_left, lt_of_mul-lt-mul_right, le_of_mul-le-mul_right,
}
use spack_playground.Prelude.{
  ℕ, suc, ◌+◌, ◌*◌, ◌/◌, ◌%◌, ◌^◌, ◌<◌, ◌≤◌, ◌≡◌, ◌≢◌, sym, ap, ◌∙◌, ◌⊎◌, inl, inr, Bool, true,
  ◌&&◌, some, List, arith, ltb, lt→ltb, ltb→lt, subst,
}
use spack_playground.Prelude.Family.{one_if}
use spack_playground.Stripes.{Arguments, accepted, check_arguments, layout, accessed_blocks}
use spack_playground.Stripes.Check.{Accepts, check-Accepts}
use spack_playground.Prelude.Occurrences.{occurrences}
use spack_playground.Stripes.Cover.{IsShuffle, accessed_once}

module _ (args : Arguments) (accepts : Accepts args) where
  open accepts use {
    some_block, some_stripe, some_thread, whole_stripes, whole_blocks, blocks_per_stripe,
    even_strips, strip_holds_block,
  }
  open layout args use {stripe_count, strip_unit_size, blocks_in_strip_unit, blocks_in_stripe}

  stripe_in_blocks : blocks_in_stripe * args.block_size ≡ args.stripe_size
  stripe_in_blocks = omega (arith, mod-add-div' args.stripe_size args.block_size, blocks_per_stripe)

  total_in_stripes : stripe_count * args.stripe_size ≡ args.total_size
  total_in_stripes = omega (arith, mod-add-div' args.total_size args.stripe_size, whole_stripes)

  total_in_blocks : stripe_count * blocks_in_stripe * args.block_size ≡ args.total_size
  total_in_blocks =
      mul_assoc stripe_count blocks_in_stripe args.block_size
      ∙ ap (λ t. stripe_count * t) stripe_in_blocks
      ∙ total_in_stripes

  in_total :
      (b : ℕ)
      → b / blocks_in_stripe < stripe_count
      → 0 < blocks_in_stripe
      → (b + 1) * args.block_size ≤ args.total_size
  in_total b lt positive =
      let upto : b < stripe_count * blocks_in_stripe = (div-lt_iff_lt-mul positive).0 lt in
      omega
        (arith, mul-le-mul_right args.block_size upto, add-mul b 1 args.block_size, total_in_blocks)

  stripe_positive : 0 < blocks_in_stripe
  stripe_positive = elim (zero_or blocks_in_stripe) [
    | inl none_in ↦
        omega (arith, some_stripe, stripe_in_blocks, ap (λ t. t * args.block_size) none_in)
    | inr positive ↦ positive
  ]
    where
      zero_or : (n : ℕ) → (n ≡ 0) ⊎ (0 < n)
      zero_or n = ground arith

  below_count :
      (b : ℕ) → (b + 1) * args.block_size ≤ args.total_size → b / blocks_in_stripe < stripe_count
  below_count b le =
      let upto : suc b ≤ stripe_count * blocks_in_stripe =
        le_of_mul-le-mul_right (omega (arith, le, total_in_blocks, add-mul b 1 args.block_size))
          some_block in
      (div-lt_iff_lt-mul stripe_positive).1 (omega (arith, upto))

  -- the strips of all threads against the stripe
  strips_exact :
      strip_unit_size % args.block_size ≡ 0
      → args.nthreads * blocks_in_strip_unit ≡ blocks_in_stripe
  strips_exact whole =
      let strip : blocks_in_strip_unit * args.block_size ≡ strip_unit_size =
        omega (arith, mod-add-div' strip_unit_size args.block_size, whole) in
      let stripe : args.nthreads * strip_unit_size ≡ args.stripe_size =
        omega (arith, mod-add-div' args.stripe_size args.nthreads, even_strips) in
      let same : args.nthreads * blocks_in_strip_unit * args.block_size
          ≡ blocks_in_stripe * args.block_size =
        mul_assoc args.nthreads blocks_in_strip_unit args.block_size
        ∙ ap (λ t. args.nthreads * t) strip
        ∙ stripe
        ∙ sym stripe_in_blocks in
      le_antisym (le_of_mul-le-mul_right (omega (arith, same)) some_block)
        (le_of_mul-le-mul_right (omega (arith, same)) some_block)
    where
      le_antisym : {a b : ℕ} → a ≤ b → b ≤ a → a ≡ b
      le_antisym le ge = omega (arith, le, ge)

  strips_short :
      strip_unit_size % args.block_size ≢ 0
      → args.nthreads * blocks_in_strip_unit < blocks_in_stripe
  strips_short part =
      let rest : 0 < strip_unit_size % args.block_size =
        positive_of (strip_unit_size % args.block_size) part in
      let strip : blocks_in_strip_unit * args.block_size < strip_unit_size =
        omega (arith, mod-add-div' strip_unit_size args.block_size, rest) in
      let stripe : args.nthreads * strip_unit_size ≡ args.stripe_size =
        omega (arith, mod-add-div' args.stripe_size args.nthreads, even_strips) in
      let shorter : args.nthreads * (blocks_in_strip_unit * args.block_size)
          < args.nthreads * strip_unit_size =
        mul-lt-mul_of_pos_left strip some_thread in
      lt_of_mul-lt-mul_right args.block_size (
        omega (
          arith,
          shorter,
          stripe,
          stripe_in_blocks,
          mul_assoc args.nthreads blocks_in_strip_unit args.block_size,
        ))
    where
      positive_of : (n : ℕ) → n ≢ 0 → 0 < n
      positive_of n e = ground arith

module _ (shuffle : List ℕ → List ℕ) (args : Arguments) (shuffles : IsShuffle shuffle)
    (checked : check_arguments args ≡ accepted) (small : args.total_size < 2 ^ 64) where
  abbrev accepts : Accepts args
  accepts = (check-Accepts args).0 checked

  both_true : (x y : Bool) → 0 < one_if (x && y) → (x ≡ true) × (y ≡ true)
  both_true x y pos = ground arith

  -- On accepted arguments with a 64-bit total every access of a worker lies within the first
  -- `total_size` bytes, and no two accesses of the threads are to the same block.
  pub accesses_inside :
      (xs : List ℕ) × (accessed_blocks shuffle args ≡ some xs)
      × ((b : ℕ)
          → 0 < occurrences b xs
          → (occurrences b xs ≡ 1) × ((b + 1) * args.block_size ≤ args.total_size))
  accesses_inside =
      let (xs, run, counts) = accessed_once shuffle args shuffles checked small in
      (
        xs,
        run,
        λ b pos.
            let (low, high) = both_true _ _ (subst (λ n. 0 < n) (counts b) pos) in
            (
              counts b ∙ ap one_if (one_and low high),
              in_total args accepts b (ltb→lt _ _ low) (stripe_positive args accepts),
            ),
      )
    where
      one_and : {x y : Bool} → x ≡ true → y ≡ true → (x && y) ≡ true
      one_and e f = cc

  -- Where a thread's share of a stripe is a multiple of the block size every block of the total is
  -- accessed exactly once, over all threads.
  pub accesses_all :
      (layout args).strip_unit_size % args.block_size ≡ 0
      → (xs : List ℕ) × (accessed_blocks shuffle args ≡ some xs)
        × ((b : ℕ) → (b + 1) * args.block_size ≤ args.total_size → occurrences b xs ≡ 1)
  accesses_all whole =
      let (xs, run, counts) = accessed_once shuffle args shuffles checked small in
      (
        xs,
        run,
        λ b le.
            counts b
            ∙ ap one_if (
                one_and (lt→ltb _ _ (below_count args accepts b le)) (
                  lt→ltb _ _ (
                    subst (λ n. b % (layout args).blocks_in_stripe < n)
                      (sym (strips_exact args accepts whole))
                      (mod-lt b (stripe_positive args accepts))))),
      )
    where
      one_and : {x y : Bool} → x ≡ true → y ≡ true → (x && y) ≡ true
      one_and e f = cc

  -- Where it is not, no thread accesses the last block of any stripe, although the arguments are
  -- accepted and the total size counts it.
  pub accesses_skip :
      (layout args).strip_unit_size % args.block_size ≢ 0
      → (xs : List ℕ) × (accessed_blocks shuffle args ≡ some xs)
        × ((b : ℕ)
            → b % (layout args).blocks_in_stripe + 1 ≡ (layout args).blocks_in_stripe
            → occurrences b xs ≡ 0)
  accesses_skip part =
      let (xs, run, counts) = accessed_once shuffle args shuffles checked small in
      (xs, run, λ b last. counts b ∙ outside _ _ _ _ (strips_short args accepts part) last)
    where
      outside :
          (x : Bool) (r wide all : ℕ) → all < wide → r + 1 ≡ wide → one_if (x && ltb r all) ≡ 0
      outside x r wide all lt last = ground arith
