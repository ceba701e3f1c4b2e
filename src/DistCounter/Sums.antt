-- ===== src/DistCounter/Sums.antt =====
-- The counters add up to the transactions.
use native.Mathlib.Nat.{mod-eq_of_lt}
use spack_playground.Prelude.{
  ℕ, zero, suc, ◌+◌, ◌*◌, ◌^◌, ◌%◌, ◌≤◌, ◌<◌, ◌≡◌, refl, sym, ap, ◌∙◌, subst, Bool, true, false,
  arith, ◌==◌, ==_iff, if◌then◌else◌,
}
use spack_playground.Prelude.Family.{update, sum_first, sum_first-update, sum_first_const}
use spack_playground.DistCounter.{
  running, ended, Run, num_rounds, Step, starts, counts, ends, Reach, start, next, Joined,
  printed_sum,
}

-- A member is no larger than the sum.
member_bound : (n : ℕ) (f : ℕ → ℕ) (i : ℕ) → i < n → f i ≤ sum_first n f
unfolding sum_first
member_bound zero f i h = elim h [ ]
member_bound (suc n) f i h = ground (arith, member_bound n f i)

sum_bound : (n c : ℕ) (f : ℕ → ℕ) → ((i : ℕ) → f i ≤ c) → sum_first n f ≤ n * c
unfolding sum_first
sum_bound zero c f h = omega arith
sum_bound (suc n) c f h = let last : f n ≤ c = h n in let others = sum_bound n c f h in grind arith

record IsSummed (n m : ℕ) (s : Run) : Type 0 where
  pub total : sum_first m s.counters ≡ sum_first n s.rounds
  pub few : (i : ℕ) → s.rounds i ≤ num_rounds
  pub full : (i : ℕ) → s.worker i ≡ ended → s.rounds i ≡ num_rounds

module _ (n m : ℕ) (enough : n * num_rounds < 2 ^ 64) where
  rounds_bound : (f : ℕ → ℕ) → ((i : ℕ) → f i ≤ num_rounds) → sum_first n f < 2 ^ 64
  rounds_bound f few = omega (arith, enough, sum_bound n num_rounds f few)

  -- one more addition, to an entry and to the rounds of a worker
  count_total :
      (s : Run) (i e : ℕ)
      → IsSummed n m s
      → i < n
      → e < m
      → ((j : ℕ) → update s.rounds i (s.rounds i + 1) j ≤ num_rounds)
      → sum_first m (update s.counters e ((s.counters e + 1) % 2 ^ 64))
        ≡ sum_first n (update s.rounds i (s.rounds i + 1))
  count_total s i e is lt inside few =
      ap (λ v. sum_first m (update s.counters e v)) (mod-eq_of_lt small)
      ∙ sum_first-update m s.counters e inside
      ∙ ap (λ k. k + 1) is.total
      ∙ sym (sum_first-update n s.rounds i lt)
    where
      small : s.counters e + 1 < 2 ^ 64
      small = omega (
        arith,
        member_bound m s.counters e inside,
        is.total,
        sum_first-update n s.rounds i lt,
        rounds_bound (update s.rounds i (s.rounds i + 1)) few,
      )

  Step-IsSummed : (s s' : Run) → IsSummed n m s → Step n m s s' → IsSummed n m s'
  Step-IsSummed s _ is (starts _ i e lt at inside free) = record {
    total = is.total;
    few = is.few;
    full = λ j. full_at j (i == j);
  }
    where
      full_at :
          (j : ℕ) (t : Bool)
          → (if t then running e else s.worker j) ≡ ended
          → s.rounds j ≡ num_rounds
      full_at j true g = absurd (cc g)
      full_at j false g = is.full j g
  Step-IsSummed s _ is (counts _ i e lt inside at less) = record {
    total = count_total s i e is lt inside (λ j. few_at j (i == j));
    few = λ j. few_at j (i == j);
    full = λ j. full_at j (i == j) refl;
  }
    where
      few_at : (j : ℕ) (t : Bool) → (if t then s.rounds i + 1 else s.rounds j) ≤ num_rounds
      few_at j true = omega arith
      few_at j false = is.few j

      full_at :
          (j : ℕ) (t : Bool)
          → (i == j) ≡ t
          → s.worker j ≡ ended
          → (if t then s.rounds i + 1 else s.rounds j) ≡ num_rounds
      full_at j true f g = absurd (cc (sym g ∙ ap s.worker (sym ((==_iff i j).0 f)) ∙ at))
      full_at j false f g = is.full j g
  Step-IsSummed s _ is (ends _ i e lt at done) = record {
    total = is.total;
    few = is.few;
    full = λ j. full_at j (i == j) refl;
  }
    where
      full_at :
          (j : ℕ) (t : Bool)
          → (i == j) ≡ t
          → (if t then ended else s.worker j) ≡ ended
          → s.rounds j ≡ num_rounds
      full_at j true f g = ap s.rounds (sym ((==_iff i j).0 f)) ∙ done
      full_at j false f g = is.full j g

  Reach-IsSummed : (s : Run) → Reach n m s → IsSummed n m s
  Reach-IsSummed _ start = record {
    total =
        sum_first_const m 0 (λ e. 0) (λ i lt. refl)
        ∙ (let e : m * 0 ≡ n * 0 = omega arith in e)
        ∙ sym (sum_first_const n 0 (λ i. 0) (λ i lt. refl));
    few = λ i. omega arith;
    full = λ i e. absurd (cc e);
  }
  Reach-IsSummed _ (next s s' reach step) = Step-IsSummed s s' (Reach-IsSummed s reach) step

  printed-total : (k : ℕ) (f : ℕ → ℕ) → sum_first k f < 2 ^ 64 → printed_sum k f ≡ sum_first k f
  unfolding printed_sum sum_first
  printed-total zero f small = refl
  printed-total (suc k) f small =
      ap (λ v. (v + f k) % 2 ^ 64) (printed-total k f (omega arith))
      ∙ mod-eq_of_lt (let b : sum_first k f + f k < 2 ^ 64 = omega arith in b)
      ∙ omega arith

  -- However the transactions of the workers interleave, and whichever free entries they get: at any moment,
  -- and so after a crash, the sum of the entries is the number of transactions.
  pub Reach-sum : (s : Run) → Reach n m s → printed_sum m s.counters ≡ sum_first n s.rounds
  Reach-sum s reach =
      let is = Reach-IsSummed s reach in
      printed-total m s.counters
        (subst (λ v. v < 2 ^ 64) (sym is.total) (rounds_bound s.rounds is.few))
      ∙ is.total

  -- Once `main` has joined its `n` workers the printed sum is `n` times 1000.
  pub Reach-full_sum :
      (s : Run) → Reach n m s → Joined n s → printed_sum m s.counters ≡ n * num_rounds
  Reach-full_sum s reach joined =
      Reach-sum s reach
      ∙ sum_first_const n num_rounds s.rounds
          (λ i lt. (Reach-IsSummed s reach).full i (joined i lt))
