-- ===== src/Counters/Plain.antt =====
-- Without the lock additions are lost, but never all of them.
use spack_playground.Prelude.{
  ℕ, ◌+◌, ◌≤◌, ◌<◌, ◌≡◌, ap, subst, Bool, true, false, arith, ◌==◌, if◌then◌else◌,
}
use spack_playground.Prelude.Family.{
  update, one_if, count_first, count_first-update, count_first_full,
}
use spack_playground.Counters.{
  Phase, idle, locked, logged, got, wrote, unlocked, committed, Threads, PlainStep, logs, reads,
  writes, commits, Reach, start, next, Joined,
}
use spack_playground.Counters.Locked.{added}

-- What a phase has read lies between the first value and the number of additions.
abbrev Between : ℕ → ℕ → Phase → Type 0
Between low high idle = Unit {0}
Between low high locked = Unit {0}
Between low high (logged old) = Unit {0}
Between low high (got old v) = (low ≤ v) × (v ≤ high)
Between low high (wrote old) = Unit {0}
Between low high (unlocked old) = Unit {0}
Between low high committed = Unit {0}

record IsBounded (n c : ℕ) (s : Threads) : Type 0 where
  pub low : c ≤ s.counter
  pub high : s.counter ≤ c + count_first added n s.phase
  pub reading : (i : ℕ) → Between c (c + count_first added n s.phase) (s.phase i)
  pub larger : (i : ℕ) → added (s.phase i) ≡ true → c < s.counter

Between-wider :
    (low high more : ℕ) (p : Phase) → high ≤ more → Between low high p → Between low more p
Between-wider low high more idle le b = tt
Between-wider low high more locked le b = tt
Between-wider low high more (logged old) le b = tt
Between-wider low high more (got old v) le b = (b.0, omega (arith, b.1))
Between-wider low high more (wrote old) le b = tt
Between-wider low high more (unlocked old) le b = tt
Between-wider low high more committed le b = tt

moved :
    (n c : ℕ) (s : Threads) (i v : ℕ) (p : Phase)
    → i < n
    → IsBounded n c s
    → c ≤ v
    → v + one_if (added (s.phase i)) ≤ c + count_first added n s.phase + one_if (added p)
    → one_if (added (s.phase i)) ≤ one_if (added p)
    → Between c (c + count_first added n s.phase) p
    → ((j : ℕ) → added (s.phase j) ≡ true → c < v)
    → (added p ≡ true → c < v)
    → IsBounded n c (record { counter = v; holder = s.holder; phase = update s.phase i p })
moved n c s i v p lt is low sum grows fresh others own = record {
  low = low;
  high = omega (arith, counts, sum);
  reading = λ j. reading_at j (i == j);
  larger = λ j. larger_at j (i == j);
}
  where
    counts :
        count_first added n (update s.phase i p) + one_if (added (s.phase i))
        ≡ count_first added n s.phase + one_if (added p)
    counts = count_first-update added n s.phase i p lt

    wider : c + count_first added n s.phase ≤ c + count_first added n (update s.phase i p)
    wider = omega (arith, counts, grows)

    reading_at :
        (j : ℕ) (t : Bool)
        → Between c (c + count_first added n (update s.phase i p)) (if t then p else s.phase j)
    reading_at j true = Between-wider c _ _ p wider fresh
    reading_at j false = Between-wider c _ _ (s.phase j) wider (is.reading j)

    larger_at : (j : ℕ) (t : Bool) → added (if t then p else s.phase j) ≡ true → c < v
    larger_at j true = own
    larger_at j false = others j

module _ (n c : ℕ) where
  Step-IsBounded : (s s' : Threads) → IsBounded n c s → PlainStep n s s' → IsBounded n c s'
  Step-IsBounded s _ is (logs _ i lt at) =
      let old = ap (λ q. one_if (added q)) at in
      moved n c s i s.counter (logged s.counter) lt is is.low (omega (arith, is.high, old))
        (omega (arith, old)) tt is.larger (λ e. absurd (cc e))
  Step-IsBounded s _ is (reads _ i u lt at) =
      let old = ap (λ q. one_if (added q)) at in
      moved n c s i s.counter (got u s.counter) lt is is.low (omega (arith, is.high, old))
        (omega (arith, old)) (is.low, is.high) is.larger (λ e. absurd (cc e))
  Step-IsBounded s _ is (writes _ i u v lt at small) =
      let old = ap (λ q. one_if (added q)) at in
      let (low, high) =
        subst (λ q. Between c (c + count_first added n s.phase) q) at (is.reading i) in
      moved n c s i (v + 1) (wrote u) lt is (omega arith) (omega (arith, old)) (omega (arith, old))
        tt (λ j e. omega arith) (λ e. omega arith)
  Step-IsBounded s _ is (commits _ i u lt at) =
      let old = ap (λ q. one_if (added q)) at in
      moved n c s i s.counter committed lt is is.low (omega (arith, is.high, old))
        (omega (arith, old)) tt is.larger (λ e. is.larger i (ap added at))

  Reach-IsBounded : (s : Threads) → Reach (PlainStep n) c s → IsBounded n c s
  Reach-IsBounded _ start = record {
    low = omega arith;
    high = omega arith;
    reading = λ i. tt;
    larger = λ i e. absurd (cc e);
  }
  Reach-IsBounded _ (next s s' reach step) = Step-IsBounded s s' (Reach-IsBounded s reach) step

  -- Once `main` of ppm_ch14_1 has joined its threads the counter is larger by 1 at least, and by their
  -- number at most.
  pub Reach-bounded :
      (s : Threads)
      → 0 < n
      → Reach (PlainStep n) c s
      → Joined n s
      → (c < s.counter) × (s.counter ≤ c + n)
  Reach-bounded s threads reach joined =
      let is = Reach-IsBounded s reach in
      (
        is.larger 0 (ap added (joined 0 threads)),
        omega (arith, is.high, count_first_full added n s.phase (λ i lt. ap added (joined i lt))),
      )
