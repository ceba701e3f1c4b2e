-- ===== src/Pmem2Bench/Bytes.antt =====
-- What a sequence of block writes leaves at each address.
use native.Mathlib.Nat.{mod-eq_of_lt, mul-le-mul_right, add-mul}
use spack_playground.Prelude.{
  ℕ, suc, ◌+◌, ◌*◌, ◌^◌, ◌<◌, ◌≤◌, ◌≡◌, refl, ap, ◌∙◌, ◌⊎◌, inl, inr, Bool, true, false, some, List,
  [], ◌∷◌, arith, ltb, leb, ◌==◌, if◌then◌else◌, length, All,
}
use spack_playground.Prelude.Occurrences.{occurrences}
use spack_playground.Prelude.Family.{one_if}
use spack_playground.PrettyBytes.{Text}
use spack_playground.Pmem2Bench.{Job, Memory, byte_at, store, access_block, access_blocks}

module _ (content : Text) (wide : ℕ) (same : length content ≡ wide) where
  store-byte :
      (mem : Memory) (b q r : ℕ)
      → r < wide
      → store mem (b * wide) content (q * wide + r)
        ≡ (if b == q then byte_at content r else mem (q * wide + r))
  store-byte mem b q r inside = elim (order b q) [
    | inl e ↦ by_same (b * wide) (q * wide) (ap (λ t. t * wide) e) e
    | inr (inl lt) ↦
        let apart : suc b * wide ≤ q * wide = mul-le-mul_right wide lt in
        by_range (b * wide) (q * wide) (inl (omega (arith, apart, add-mul b 1 wide))) (inl lt)
    | inr (inr lt) ↦
        let apart : suc q * wide ≤ b * wide = mul-le-mul_right wide lt in
        by_range (b * wide) (q * wide) (inr (omega (arith, apart, add-mul q 1 wide))) (inr lt)
  ]
    where
      order : (a b : ℕ) → (a ≡ b) ⊎ ((a < b) ⊎ (b < a))
      order a b = ground arith

      by_same :
          (bw qw : ℕ)
          → bw ≡ qw
          → b ≡ q
          → store mem bw content (qw + r) ≡ (if b == q then byte_at content r else mem (qw + r))
      by_same bw qw e f =
          let low : leb bw (qw + r) ≡ true = ground (arith, e) in
          let high : ltb (qw + r) (bw + length content) ≡ true = ground (arith, e, same) in
          let here : (b == q) ≡ true = ground (arith, f) in
          rw (low, high, here) (ap (byte_at content) (omega (arith, e)))

      by_range :
          (bw qw : ℕ)
          → (bw + wide ≤ qw) ⊎ (qw + wide ≤ bw)
          → (b < q) ⊎ (q < b)
          → store mem bw content (qw + r) ≡ (if b == q then byte_at content r else mem (qw + r))
      by_range bw qw apart lt = ground (arith, same)

  module _ (job : Job) (wide_is : job.arguments.block_size ≡ wide) (size : ℕ)
      (in_words : size ≤ 2 ^ 64) (writes : job.arguments.op_write ≡ true)
      (wet : job.dry_run ≡ false) where
    access_written :
        (b : ℕ) (mem : Memory)
        → 0 < wide
        → (b + 1) * wide ≤ size
        → access_block job size content b mem ≡ some (store mem (b * wide) content)
    unfolding access_block
    access_written b mem positive le =
        let ends : b * wide + wide ≤ size = omega (arith, le, add-mul b 1 wide) in
        let fits : b * wide < 2 ^ 64 = omega (arith, ends, positive, in_words) in
        let inside : leb (b * wide + wide) size ≡ true = ground (arith, ends) in
        rw (access_block, wide_is, mod-eq_of_lt fits, wet, inside, writes) refl

    -- A block that is written at least once holds the content, any other what it held.
    pub blocks_written :
        (bs : List ℕ) (mem : Memory)
        → 0 < wide
        → All (λ b. (b + 1) * wide ≤ size) bs
        → (mem' : Memory) × (access_blocks job size content bs mem ≡ some mem')
          × ((q r : ℕ)
              → r < wide
              → mem' (q * wide + r)
                ≡ (if ltb 0 (occurrences q bs) then byte_at content r else mem (q * wide + r)))
    unfolding access_blocks occurrences
    blocks_written [] mem positive all = (mem, refl, λ q r lt. refl)
    blocks_written (b ∷ bs) mem positive (le, all) =
        let (mem', run, bytes) = blocks_written bs (store mem (b * wide) content) positive all in
        (
          mem',
          rw (access_written b mem positive le, access_blocks) run,
          λ q r lt. bytes q r lt ∙ by_count q r (occurrences q bs) (store-byte mem b q r lt),
        )
      where
        merged :
            (x y : ℕ) (here : Bool) (n : ℕ)
            → (if ltb 0 n then x else (if here then x else y))
              ≡ (if ltb 0 (one_if here + n) then x else y)
        merged x y here n = ground arith

        by_count :
            (q r n : ℕ)
            → store mem (b * wide) content (q * wide + r)
              ≡ (if b == q then byte_at content r else mem (q * wide + r))
            → (if ltb 0 n then byte_at content r else store mem (b * wide) content (q * wide + r))
              ≡ (if ltb 0 (one_if (b == q) + n) then byte_at content r else mem (q * wide + r))
        by_count q r n e =
            ap (λ x. if ltb 0 n then byte_at content r else x) e
            ∙ merged (byte_at content r) (mem (q * wide + r)) (b == q) n
