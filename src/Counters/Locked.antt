-- ===== src/Counters/Locked.antt =====
-- With the lock no addition is lost as long as nothing crashes.
use spack_playground.Prelude.{
  ℕ, ◌+◌, ◌<◌, ◌≡◌, refl, sym, ap, ◌∙◌, subst, Bool, true, false, Option, none, some, arith, ◌==◌,
  ==_iff, if◌then◌else◌,
}
use spack_playground.Prelude.Family.{
  update, one_if, count_first, count_first-update, count_first_full, count_first_none,
}
use spack_playground.Counters.{
  Phase, idle, locked, logged, got, wrote, unlocked, committed, Threads, LockStep, locks, logs,
  reads, writes, unlocks, commits, Reach, start, next, Joined,
}

-- The phases with the mutex, and those behind the addition.
abbrev pub critical : Phase → Bool
critical idle = false
critical locked = true
critical (logged old) = true
critical (got old v) = true
critical (wrote old) = true
critical (unlocked old) = false
critical committed = false

abbrev pub added : Phase → Bool
added idle = false
added locked = false
added (logged old) = false
added (got old v) = false
added (wrote old) = true
added (unlocked old) = true
added committed = true

-- A phase that has read the counter has its present value.
abbrev Current : Phase → ℕ → Type 0
Current idle c = Unit {0}
Current locked c = Unit {0}
Current (logged old) c = Unit {0}
Current (got old v) c = v ≡ c
Current (wrote old) c = Unit {0}
Current (unlocked old) c = Unit {0}
Current committed c = Unit {0}

-- The counter counts the additions; only the holder of the mutex is in the body.
record IsCounted (n c : ℕ) (s : Threads) : Type 0 where
  pub counted : s.counter ≡ c + count_first added n s.phase
  pub alone : (i : ℕ) → critical (s.phase i) ≡ true → s.holder ≡ some i
  pub current : (i : ℕ) → Current (s.phase i) s.counter

-- One thread enters a phase, and nobody else is in the body or reads an old value.
moved :
    (n c : ℕ) (s : Threads) (i v : ℕ) (h : Option ℕ) (p : Phase)
    → i < n
    → IsCounted n c s
    → v + one_if (added (s.phase i)) ≡ s.counter + one_if (added p)
    → (critical p ≡ true → h ≡ some i)
    → Current p v
    → ((j : ℕ) → (i == j) ≡ false → critical (s.phase j) ≡ true → (h ≡ some j) × (v ≡ s.counter))
    → IsCounted n c (record { counter = v; holder = h; phase = update s.phase i p })
moved n c s i v h p lt is sum own fresh others = record {
  counted = omega (arith, count_first-update added n s.phase i p lt, is.counted, sum);
  alone = λ j. alone_at j (i == j) refl;
  current = λ j. current_at j (i == j) refl;
}
  where
    alone_at :
        (j : ℕ) (t : Bool)
        → (i == j) ≡ t
        → critical (if t then p else s.phase j) ≡ true
        → h ≡ some j
    alone_at j true e f = own f ∙ ap some ((==_iff i j).0 e)
    alone_at j false e f = (others j e f).0

    of_phase :
        (j : ℕ) (q : Phase) → q ≡ s.phase j → (i == j) ≡ false → Current q s.counter → Current q v
    of_phase j idle e f g = tt
    of_phase j locked e f g = tt
    of_phase j (logged old) e f g = tt
    of_phase j (got old w) e f g = g ∙ sym (others j f (ap critical (sym e))).1
    of_phase j (wrote old) e f g = tt
    of_phase j (unlocked old) e f g = tt
    of_phase j committed e f g = tt

    current_at : (j : ℕ) (t : Bool) → (i == j) ≡ t → Current (if t then p else s.phase j) v
    current_at j true e = fresh
    current_at j false e = of_phase j (s.phase j) refl e (is.current j)

module _ (n c : ℕ) where
  -- the others where the mutex is free, and where this thread holds it
  none_inside :
      (s : Threads) (i j : ℕ) (C : Type 0)
      → IsCounted n c s
      → s.holder ≡ none
      → critical (s.phase j) ≡ true
      → C
  none_inside s i j C is free inside = absurd (cc (sym free ∙ is.alone j inside))

  only_one :
      (s : Threads) (i j : ℕ) (C : Type 0)
      → IsCounted n c s
      → critical (s.phase i) ≡ true
      → (i == j) ≡ false
      → critical (s.phase j) ≡ true
      → C
  only_one s i j C is inside other inside_too =
      absurd (apart (same (sym (is.alone i inside) ∙ is.alone j inside_too)))
    where
      same : {a b : ℕ} → some a ≡ some b → a ≡ b
      same e = cc

      apart : i ≡ j → ⊥
      apart e = ground arith

  Step-IsCounted : (s s' : Threads) → IsCounted n c s → LockStep n s s' → IsCounted n c s'
  Step-IsCounted s _ is (locks _ i lt at free) =
      moved n c s i s.counter (some i) locked lt is (ap (λ p. s.counter + one_if (added p)) at)
        (λ e. refl) tt (λ j other inside. none_inside s i j _ is free inside)
  Step-IsCounted s _ is (logs _ i lt at) =
      moved n c s i s.counter s.holder (logged s.counter) lt is
        (ap (λ p. s.counter + one_if (added p)) at) (λ e. is.alone i (ap critical at)) tt
        (λ j other inside. only_one s i j _ is (ap critical at) other inside)
  Step-IsCounted s _ is (reads _ i old lt at) =
      moved n c s i s.counter s.holder (got old s.counter) lt is
        (ap (λ p. s.counter + one_if (added p)) at) (λ e. is.alone i (ap critical at)) refl
        (λ j other inside. only_one s i j _ is (ap critical at) other inside)
  Step-IsCounted s _ is (writes _ i old v lt at small) =
      moved n c s i (v + 1) s.holder (wrote old) lt is
        (omega (
          arith,
          ap (λ p. one_if (added p)) at,
          subst (λ p. Current p s.counter) at (is.current i),
        ))
        (λ e. is.alone i (ap critical at)) tt
        (λ j other inside. only_one s i j _ is (ap critical at) other inside)
  Step-IsCounted s _ is (unlocks _ i old lt at) =
      moved n c s i s.counter none (unlocked old) lt is (ap (λ p. s.counter + one_if (added p)) at)
        (λ e. absurd (cc e)) tt
        (λ j other inside. only_one s i j _ is (ap critical at) other inside)
  Step-IsCounted s _ is (commits _ i old lt at) =
      moved n c s i s.counter s.holder committed lt is (ap (λ p. s.counter + one_if (added p)) at)
        (λ e. absurd (cc e)) tt (λ j other inside. (is.alone j inside, refl))

  Reach-IsCounted : (s : Threads) → Reach (LockStep n) c s → IsCounted n c s
  Reach-IsCounted _ start = record {
    counted = omega (arith, count_first_none added n (λ i. idle) (λ i lt. refl));
    alone = λ i e. absurd (cc e);
    current = λ i. tt;
  }
  Reach-IsCounted _ (next s s' reach step) = Step-IsCounted s s' (Reach-IsCounted s reach) step

  -- Once `main` of ppm_ch14_2 has joined its threads, without a crash, the counter is larger by their
  -- number.
  pub Reach-counted : (s : Threads) → Reach (LockStep n) c s → Joined n s → s.counter ≡ c + n
  Reach-counted s reach joined =
      (Reach-IsCounted s reach).counted
      ∙ ap (λ k. c + k) (count_first_full added n s.phase (λ i lt. ap added (joined i lt)))
