-- ===== src/Stripes/Cover.antt =====
-- Each block is accessed once, except those behind the strips of a stripe.
use native.Mathlib.Nat.{
  mod-lt, mod-add-div', mul-le-mul_right, add-mul, div-mul-le_self, le-div_iff_mul-le, div-le_self,
  mul_assoc, mul-le-mul_left,
}
use spack_playground.Prelude.{
  ℕ, zero, suc, ◌+◌, ◌*◌, ◌/◌, ◌%◌, ◌^◌, ◌<◌, ◌≤◌, ◌≡◌, ap, ◌∙◌, ◌⊎◌, inl, inr, Bool, true, false,
  ◌&&◌, some, List, arith, ltb, ◌==◌, if◌then◌else◌, length,
}
use spack_playground.Prelude.Family.{one_if}
use spack_playground.Stripes.{
  Arguments, accepted, check_arguments, layout, iota, access_offset, accessed_blocks,
}
use spack_playground.Stripes.Check.{Accepts, check-Accepts}
use spack_playground.Prelude.Occurrences.{occurrences}
use spack_playground.Stripes.Count.{
  within, sum_from, occurrences-iota, length-iota, Fits, hits, workers_done,
}

module _ (wide m c : ℕ) (strip : c + m ≤ wide) (q r : ℕ) (inside : r < wide) where
  hit_there :
      (s : ℕ)
      → one_if (within (s * wide + c) m (q * wide + r))
        ≡ (if s == q then one_if (within c m r) else 0)
  hit_there s = elim (order s q) [
    | inl e ↦ by_same s e
    | inr (inl lt) ↦
        let apart : suc s * wide ≤ q * wide = mul-le-mul_right wide lt in
        by_range (s * wide) (q * wide) (omega (arith, apart, add-mul s 1 wide)) lt
    | inr (inr lt) ↦
        let apart : suc q * wide ≤ s * wide = mul-le-mul_right wide lt in
        by_range' (s * wide) (q * wide) (omega (arith, apart, add-mul q 1 wide)) lt
  ]
    where
      order : (a b : ℕ) → (a ≡ b) ⊎ ((a < b) ⊎ (b < a))
      order a b = ground arith

      by_same :
          (s : ℕ)
          → s ≡ q
          → one_if (within (s * wide + c) m (q * wide + r))
            ≡ (if s == q then one_if (within c m r) else 0)
      by_same s e = by_eq (s * wide) (q * wide) (ap (λ t. t * wide) e) e
        where
          by_eq :
              (sw qw : ℕ)
              → sw ≡ qw
              → s ≡ q
              → one_if (within (sw + c) m (qw + r)) ≡ (if s == q then one_if (within c m r) else 0)
          by_eq sw qw same e = ground arith

      by_range :
          (sw qw : ℕ)
          → sw + wide ≤ qw
          → s < q
          → one_if (within (sw + c) m (qw + r)) ≡ (if s == q then one_if (within c m r) else 0)
      by_range sw qw apart lt = ground arith

      by_range' :
          (sw qw : ℕ)
          → qw + wide ≤ sw
          → q < s
          → one_if (within (sw + c) m (qw + r)) ≡ (if s == q then one_if (within c m r) else 0)
      by_range' sw qw apart lt = ground arith

  sum-hits :
      (rounds k : ℕ)
      → sum_from k rounds (λ s. one_if (within (s * wide + c) m (q * wide + r)))
        ≡ (if within k rounds q then one_if (within c m r) else 0)
  unfolding sum_from
  sum-hits zero k = ground arith
  sum-hits (suc rounds) k =
      by_parts (one_if (within c m r)) _ _ (hit_there k) (sum-hits rounds (k + 1))
    where
      by_parts :
          (h x y : ℕ)
          → x ≡ (if k == q then h else 0)
          → y ≡ (if within (k + 1) rounds q then h else 0)
          → x + y ≡ (if within k (suc rounds) q then h else 0)
      by_parts h x y e f = ground arith

sum-workers :
    (m r : ℕ) (inside : Bool) (f : ℕ → ℕ) (rounds k : ℕ)
    → ((i : ℕ) → i < k + rounds → f i ≡ (if inside then one_if (within (i * m) m r) else 0))
    → sum_from k rounds f ≡ (if inside then one_if (within (k * m) (rounds * m) r) else 0)
unfolding sum_from
sum-workers m r inside f zero k e = ground arith
sum-workers m r inside f (suc rounds) k e =
    by_parts (k * m) ((k + 1) * m) (rounds * m) (suc rounds * m) (f k) _
      (omega (arith, add-mul k 1 m)) (omega (arith, add-mul rounds 1 m)) (e k (omega arith))
      (sum-workers m r inside f rounds (k + 1) (λ i lt. e i (omega (arith, lt))))
  where
    by_parts :
        (km km' rm rm' x y : ℕ)
        → km' ≡ km + m
        → rm' ≡ rm + m
        → x ≡ (if inside then one_if (within km m r) else 0)
        → y ≡ (if inside then one_if (within km' rm r) else 0)
        → x + y ≡ (if inside then one_if (within km rm' r) else 0)
    by_parts km km' rm rm' x y a b e f = ground arith

-- `std::shuffle` rearranges the vector.
pub record IsShuffle (shuffle : List ℕ → List ℕ) : Type 0 where
  pub keeps_length : (xs : List ℕ) → length (shuffle xs) ≡ length xs
  pub keeps_occurrences : (b : ℕ) (xs : List ℕ) → occurrences b (shuffle xs) ≡ occurrences b xs

module _ (args : Arguments) (accepts : Accepts args) (small : args.total_size < 2 ^ 64) where
  open accepts use {some_block, some_stripe, some_thread, blocks_per_stripe, strip_holds_block}

  abbrev per_strip : ℕ
  per_strip = (layout args).blocks_in_strip_unit

  abbrev per_stripe : ℕ
  per_stripe = (layout args).blocks_in_stripe

  strips_fit : args.nthreads * per_strip ≤ per_stripe
  strips_fit =
      let strip : ℕ = args.stripe_size / args.nthreads in
      let in_strip : args.nthreads * (per_strip * args.block_size) ≤ args.nthreads * strip =
        mul-le-mul_left args.nthreads (div-mul-le_self strip args.block_size) in
      (le-div_iff_mul-le some_block).1 (
        omega (
          arith,
          mul_assoc args.nthreads per_strip args.block_size,
          in_strip,
          div-mul-le_self args.stripe_size args.nthreads,
        ))

  strip_positive : 0 < per_strip
  strip_positive =
      let one : 1 ≤ per_strip =
        (le-div_iff_mul-le some_block).1 (omega (arith, strip_holds_block)) in
      omega (arith, one)

  strip_inside : (i : ℕ) → i < args.nthreads → i * per_strip + per_strip ≤ per_stripe
  strip_inside i lt =
      let upto : suc i * per_strip ≤ args.nthreads * per_strip = mul-le-mul_right per_strip lt in
      omega (arith, upto, strips_fit, add-mul i 1 per_strip)

  stripes_fit : (layout args).stripe_count * per_stripe ≤ args.total_size
  stripes_fit = omega (
    arith,
    mul-le-mul_left (layout args).stripe_count (div-le_self args.stripe_size args.block_size),
    div-mul-le_self args.total_size args.stripe_size,
  )

  block_fits :
      (s i : ℕ)
      → s < (layout args).stripe_count
      → i < args.nthreads
      → s * per_stripe + i * per_strip + per_strip ≤ 2 ^ 64
  block_fits s i s_lt i_lt =
      let upto : suc s * per_stripe ≤ (layout args).stripe_count * per_stripe =
        mul-le-mul_right per_stripe s_lt in
      omega (arith, upto, add-mul s 1 per_stripe, strip_inside i i_lt, stripes_fit, small)

  module _ (shuffle : List ℕ → List ℕ) (shuffles : IsShuffle shuffle) where
    open shuffles use {keeps_length, keeps_occurrences}

    offsets_lem :
        (random : Bool)
        → let offsets = (if random then shuffle (iota 0 per_strip) else iota 0 per_strip) in
          (length offsets ≡ per_strip)
          × ((b : ℕ) → occurrences b offsets ≡ one_if (within 0 per_strip b))
    offsets_lem false = (length-iota 0 per_strip, λ b. occurrences-iota b 0 per_strip)
    offsets_lem true = (
      keeps_length (iota 0 per_strip) ∙ length-iota 0 per_strip,
      λ b. keeps_occurrences b (iota 0 per_strip) ∙ occurrences-iota b 0 per_strip,
    )

    offsets-Fits : Fits (layout args) (access_offset shuffle args) args.nthreads
    offsets-Fits = record {
      size = (offsets_lem args.op_random).0;
      rearranged = (offsets_lem args.op_random).1;
      positive = strip_positive;
      fits = block_fits;
    }

    all_hits : ℕ → ℕ
    all_hits b = sum_from 0 args.nthreads (λ i.
        sum_from 0 (layout args).stripe_count
          (hits (layout args) (access_offset shuffle args) args.nthreads offsets-Fits b i))

    hits_lem :
        (q r : ℕ)
        → r < per_stripe
        → all_hits (q * per_stripe + r)
          ≡ one_if (ltb q (layout args).stripe_count && ltb r (args.nthreads * per_strip))
    unfolding all_hits
    hits_lem q r inside =
        sum-workers per_strip r (within 0 (layout args).stripe_count q) _ args.nthreads 0 (λ i lt.
          sum-hits per_stripe per_strip (i * per_strip) (strip_inside i (omega (arith, lt))) q r
            inside (layout args).stripe_count 0)
        ∙ by_range (layout args).stripe_count (0 * per_strip) (args.nthreads * per_strip)
            (omega arith)
      where
        by_range :
            (count first all : ℕ)
            → first ≡ 0
            → (if within 0 count q then one_if (within first all r) else 0)
              ≡ one_if (ltb q count && ltb r all)
        by_range count first all e = ground arith

    blocks_lem :
        (b : ℕ)
        → all_hits b
          ≡ one_if (
              ltb (b / per_stripe) (layout args).stripe_count
              && ltb (b % per_stripe) (args.nthreads * per_strip))
    blocks_lem b =
        let nonempty : 0 < per_stripe = omega (arith, strip_positive, strips_fit, threads_cover) in
        ap all_hits (omega (arith, mod-add-div' b per_stripe))
        ∙ hits_lem (b / per_stripe) (b % per_stripe) (mod-lt b nonempty)
      where
        threads_cover : per_strip ≤ args.nthreads * per_strip
        threads_cover = omega (arith, mul-le-mul_right per_strip some_thread)

  module _ (shuffle : List ℕ → List ℕ) (shuffles : IsShuffle shuffle) where
    blocks_done :
        (xs : List ℕ) × (accessed_blocks shuffle args ≡ some xs)
        × ((b : ℕ)
            → occurrences b xs
              ≡ one_if (
                  ltb (b / per_stripe) (layout args).stripe_count
                  && ltb (b % per_stripe) (args.nthreads * per_strip)))
    unfolding accessed_blocks all_hits
    blocks_done =
        let (xs, run, counts) =
          workers_done (layout args) (access_offset shuffle args) args.nthreads
            (offsets-Fits shuffle shuffles) args.nthreads 0 (omega arith) in
        (xs, run, λ b. counts b ∙ blocks_lem shuffle shuffles b)

-- Which block numbers the workers access, from the sizes alone.
abbrev pub is_accessed : Arguments → ℕ → Bool
is_accessed args b =
    ltb (b / (layout args).blocks_in_stripe) (layout args).stripe_count
    && ltb (b % (layout args).blocks_in_stripe) (args.nthreads * (layout args).blocks_in_strip_unit)

-- On accepted arguments whose total size is a 64-bit number the workers access, with every shuffle of
-- the offsets, each block at most once, over all threads: once if it lies in a whole stripe of the
-- total and below the threads' strips within its stripe, else not at all. No index of the vector of
-- offsets is out of bounds and no block number wraps.
pub accessed_once :
    (shuffle : List ℕ → List ℕ) (args : Arguments)
    → IsShuffle shuffle
    → check_arguments args ≡ accepted
    → args.total_size < 2 ^ 64
    → (xs : List ℕ) × (accessed_blocks shuffle args ≡ some xs)
      × ((b : ℕ)
          → occurrences b xs
            ≡ one_if (
                ltb (b / (layout args).blocks_in_stripe) (layout args).stripe_count
                && ltb
                    (b % (layout args).blocks_in_stripe)
                    (args.nthreads * (layout args).blocks_in_strip_unit)))
accessed_once shuffle args shuffles checked small =
    blocks_done args ((check-Accepts args).0 checked) small shuffle shuffles
