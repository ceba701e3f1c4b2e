-- ===== src/Counters/Lost.antt =====
-- The lock is released before the transaction ends: a crash takes back additions that were committed.
use spack_playground.Prelude.{
  ℕ, zero, suc, ◌+◌, ◌<◌, ◌≡◌, refl, sym, ap, ◌∙◌, ◌⊎◌, inl, inr, Bool, true, false, Option, none,
  some, List, [], ◌∷◌, arith, ◌==◌, ==_iff, if◌then◌else◌,
}
use spack_playground.Prelude.Family.{update, one_if}
use spack_playground.Prelude.Occurrences.{occurrences}
use spack_playground.Counters.{
  Phase, idle, locked, logged, got, wrote, committed, Threads, new_threads, take_lock, log_counter,
  read_counter, write_counter, leave_body, commit, LockStep, locks, logs, reads, writes, unlocks,
  commits, int_max, Reach, start, next, undo, recovered,
}

-- The body of the transaction in a thread that is alone.
abbrev pub body : ℕ → Threads → Threads
body i s =
    leave_body i s.counter (
      write_counter i s.counter s.counter
        (read_counter i s.counter (log_counter i (take_lock i s))))

pub body-Reach :
    (n c i : ℕ) (s : Threads)
    → i < n
    → s.phase i ≡ idle
    → s.holder ≡ none
    → s.counter < int_max
    → Reach (LockStep n) c s
    → Reach (LockStep n) c (body i s)
body-Reach n c i s lt at free small reach =
    next s4 (body i s)
      (next s3 s4
        (next s2 s3
          (next s1 s2 (next s s1 reach (locks s i lt at free)) (logs s1 i lt (here s.phase locked)))
          (reads s2 i s.counter lt (here s1.phase (logged s.counter))))
        (writes s3 i s.counter s.counter lt (here s2.phase (got s.counter s.counter)) small))
      (unlocks s4 i s.counter lt (here s3.phase (wrote s.counter)))
  where
    s1 : Threads
    s1 = take_lock i s

    s2 : Threads
    s2 = log_counter i s1

    s3 : Threads
    s3 = read_counter i s.counter s2

    s4 : Threads
    s4 = write_counter i s.counter s.counter s3

    found : (i == i) ≡ true
    found = ground arith

    here : (f : ℕ → Phase) (p : Phase) → update f i p i ≡ p
    here f p = ap (λ t. if t then p else f i) found

-- where one value stands in all undo logs that there are
recovered-order :
    (c : ℕ) (phase : ℕ → Phase) (order : List ℕ) (v : ℕ)
    → ((j : ℕ) → (undo (phase j) ≡ none) ⊎ (undo (phase j) ≡ some c))
    → undo (phase 0) ≡ some c
    → (v ≡ c) ⊎ (0 < occurrences 0 order)
    → recovered order phase v ≡ c
unfolding recovered occurrences
recovered-order c phase [] v held began (inl same) = same
recovered-order c phase [] v held began (inr found) = absurd (omega arith)
recovered-order c phase (i ∷ order) v held began reached =
    recovered-order c phase order (chosen (undo (phase i))) held began (by_log (held i))
  where
    chosen : Option ℕ → ℕ
    chosen o = elim o [ none ↦ v | some old ↦ old ]

    first : (phase i ≡ phase 0) → undo (phase i) ≡ some c
    first e = ap undo e ∙ began

    by_start :
        undo (phase i) ≡ none
        → (t : Bool) → (i == 0) ≡ t
        → (v ≡ c) ⊎ (0 < one_if t + occurrences 0 order)
        → (v ≡ c) ⊎ (0 < occurrences 0 order)
    by_start e t f (inl same) = inl same
    by_start e true f (inr found) = absurd (cc (sym e ∙ first (ap phase ((==_iff i 0).0 f))))
    by_start e false f (inr found) = inr (omega arith)

    by_log :
        (undo (phase i) ≡ none) ⊎ (undo (phase i) ≡ some c)
        → (chosen (undo (phase i)) ≡ c) ⊎ (0 < occurrences 0 order)
    by_log (inr e) = inl (ap chosen e)
    by_log (inl e) = elim (by_start e (i == 0) refl reached) [
      | inl same ↦ inl (ap chosen e ∙ same)
      | inr found ↦ inr found
    ]

module _ (n c : ℕ) where
  -- Thread 0 has left its body and thread 1 has committed.
  abbrev pub overtaken : Threads
  overtaken = commit 1 (body 1 (body 0 (new_threads c)))

  -- Threads of ppm_ch14_2 reach a state in which the counter has both additions and one of them is
  -- committed, and from which recovery gives the first value, in whatever order it visits the threads.
  pub overtaken_lost :
      (order : List ℕ)
      → 1 < n
      → c + 1 < int_max
      → 0 < occurrences 0 order
      → Reach (LockStep n) c overtaken
        × (overtaken.counter ≡ c + 2)
        × (overtaken.phase 1 ≡ committed)
        × (recovered order overtaken.phase overtaken.counter ≡ c)
  overtaken_lost order several small visited = (
    next (body 1 (body 0 (new_threads c))) overtaken
        (body-Reach n c 1 (body 0 (new_threads c)) several refl refl small
          (body-Reach n c 0 (new_threads c) (omega arith) refl refl (omega arith) start))
        (commits (body 1 (body 0 (new_threads c))) 1 (c + 1) several refl),
    omega arith,
    refl,
    recovered-order c overtaken.phase order overtaken.counter logs_of refl (inr visited),
  )
    where
      logs_of : (j : ℕ) → (undo (overtaken.phase j) ≡ none) ⊎ (undo (overtaken.phase j) ≡ some c)
      logs_of zero = inr refl
      logs_of (suc zero) = inl refl
      logs_of (suc (suc j)) = inl (rw (first, second) refl)
        where
          first : (0 == suc (suc j)) ≡ false
          first = ground arith

          second : (1 == suc (suc j)) ≡ false
          second = ground arith
