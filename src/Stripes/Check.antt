-- ===== src/Stripes/Check.antt =====
-- Which arguments the test accepts, and for which it divides by zero.
use spack_playground.Prelude.{
  ℕ, zero, suc, ◌/◌, ◌%◌, ◌<◌, ◌≤◌, ◌≡◌, ◌≢◌, ◌↔◌, ◌⊎◌, refl, ap, ◌∙◌, Bool, false, not, ◌&&◌, ◌||◌,
  arith, ltb, if◌then◌else◌,
}
use spack_playground.Stripes.{
  Arguments, Verdict, accepted, no_operation, invalid_arguments, divides_by_zero, divides_then,
  last_test, check_arguments,
}

-- What the workers rely on.
pub record Accepts (args : Arguments) : Type 0 where
  pub some_block : 0 < args.block_size
  pub some_stripe : 0 < args.stripe_size
  pub some_thread : 0 < args.nthreads
  pub whole_stripes : args.total_size % args.stripe_size ≡ 0
  pub whole_blocks : args.total_size % args.block_size ≡ 0
  pub blocks_per_stripe : args.stripe_size % args.block_size ≡ 0
  pub even_strips : args.stripe_size % args.nthreads ≡ 0
  pub strip_holds_block : args.block_size ≤ args.stripe_size / args.nthreads
  pub one_operation : args.op_read ≢ args.op_write

divides_then_accepted :
    (a b : ℕ) (rest : Verdict)
    → (divides_then a b rest ≡ accepted) ↔ ((0 < b) × (a % b ≡ 0) × (rest ≡ accepted))
unfolding divides_then
divides_then_accepted a zero rest = (λ e. absurd (cc e), λ (lt, _, _). absurd (omega (arith, lt)))
divides_then_accepted a (suc b) rest = ground arith

last_test_accepted :
    (args : Arguments)
    → (last_test args ≡ accepted)
      ↔ ((args.block_size ≤ args.stripe_size / args.nthreads) × (args.op_read ≢ args.op_write))
unfolding last_test
last_test_accepted args =
    by_cases (args.stripe_size / args.nthreads) args.block_size args.op_read args.op_write
  where
    by_cases :
        (strip block : ℕ) (r w : Bool)
        → ((if ltb strip block
              then invalid_arguments
              else if (r && w) || (not r && not w)
              then invalid_arguments
              else accepted)
            ≡ accepted)
          ↔ ((block ≤ strip) × (r ≢ w))
    by_cases strip block r w = ground arith

tests_accepted :
    (args : Arguments)
    → (check_arguments args ≡ accepted) ↔ (
        ((not args.op_read && not args.op_write) ≡ false)
        × (divides_then args.total_size args.stripe_size (
              divides_then args.total_size args.block_size (
                divides_then args.stripe_size args.block_size
                  (divides_then args.stripe_size args.nthreads (last_test args))))
            ≡ accepted))
unfolding check_arguments
tests_accepted args = ground arith

-- The test accepts the arguments exactly where block, stripe and thread count are positive, the total
-- size is a multiple of the stripe and of the block, the stripe is one of the block and of the
-- thread count, a thread's share of a stripe has room for a block, and just one operation is chosen.
pub check-Accepts : (args : Arguments) → (check_arguments args ≡ accepted) ↔ Accepts args
check-Accepts args = (forth, back)
  where
    forth : check_arguments args ≡ accepted → Accepts args
    forth e =
        let (_, e₁) = (tests_accepted args).0 e in
        let (some_stripe, whole_stripes, e₂) = (divides_then_accepted _ _ _).0 e₁ in
        let (some_block, whole_blocks, e₃) = (divides_then_accepted _ _ _).0 e₂ in
        let (_, blocks_per_stripe, e₄) = (divides_then_accepted _ _ _).0 e₃ in
        let (some_thread, even_strips, e₅) = (divides_then_accepted _ _ _).0 e₄ in
        let (strip_holds_block, one_operation) = (last_test_accepted args).0 e₅ in
        record {
          some_block = some_block;
          some_stripe = some_stripe;
          some_thread = some_thread;
          whole_stripes = whole_stripes;
          whole_blocks = whole_blocks;
          blocks_per_stripe = blocks_per_stripe;
          even_strips = even_strips;
          strip_holds_block = strip_holds_block;
          one_operation = one_operation;
        }

    chosen : (r w : Bool) → r ≢ w → (not r && not w) ≡ false
    chosen r w ne = ground arith

    back : Accepts args → check_arguments args ≡ accepted
    back a = (tests_accepted args).1 (
      chosen args.op_read args.op_write a.one_operation,
      (divides_then_accepted _ _ _).1 (
        a.some_stripe,
        a.whole_stripes,
        (divides_then_accepted _ _ _).1 (
          a.some_block,
          a.whole_blocks,
          (divides_then_accepted _ _ _).1 (
            a.some_block,
            a.blocks_per_stripe,
            (divides_then_accepted _ _ _).1 (
              a.some_thread,
              a.even_strips,
              (last_test_accepted args).1 (a.strip_holds_block, a.one_operation),
            ),
          ),
        ),
      ),
    )

-- With an operation chosen, a stripe size of 0 is not refused: the test itself divides by zero. So
-- does a block size of 0 with any total that is a multiple of the stripe, and a thread count of 0
-- where the divisions before it leave no remainder.
pub check-divides_by_zero :
    (args : Arguments)
    → (not args.op_read && not args.op_write) ≡ false
    → (args.stripe_size ≡ 0)
      ⊎ ((args.total_size % args.stripe_size ≡ 0)
          × ((args.block_size ≡ 0)
              ⊎ ((args.total_size % args.block_size ≡ 0)
                  × (args.stripe_size % args.block_size ≡ 0)
                  × (args.nthreads ≡ 0))))
    → check_arguments args ≡ divides_by_zero
unfolding check_arguments divides_then
check-divides_by_zero args chosen bad =
    ap
      (λ t.
        if t
        then no_operation
        else divides_then args.total_size args.stripe_size (
            divides_then args.total_size args.block_size (
              divides_then args.stripe_size args.block_size
                (divides_then args.stripe_size args.nthreads (last_test args)))))
      chosen
    ∙ by_cases args.total_size args.stripe_size args.block_size args.nthreads (last_test args) bad
  where
    by_cases :
        (total stripe block n : ℕ) (rest : Verdict)
        → (stripe ≡ 0)
          ⊎ ((total % stripe ≡ 0)
              × ((block ≡ 0) ⊎ ((total % block ≡ 0) × (stripe % block ≡ 0) × (n ≡ 0))))
        → divides_then total stripe
            (divides_then total block (divides_then stripe block (divides_then stripe n rest)))
          ≡ divides_by_zero
    by_cases total zero block n rest h = refl
    by_cases total (suc s) zero n rest h = ground arith
    by_cases total (suc s) (suc b) zero rest h = ground arith
    by_cases total (suc s) (suc b) (suc n) rest h = ground arith
