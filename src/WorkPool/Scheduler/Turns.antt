-- ===== src/WorkPool/Scheduler/Turns.antt =====
-- The rounds of the scheduler lose and repeat no unit.
use native.Mathlib.Nat.{mod-lt, mod-eq_of_lt}
use spack_playground.Prelude.{
  ℕ, zero, suc, ◌+◌, ◌-◌, ◌%◌, ◌<◌, ◌≡◌, refl, sym, ap, ◌∙◌, ◌↔◌, Bool, true, false, Option, none,
  some, List, [], ◌∷◌, ◌++◌, append_assoc, arith, ltb, ◌==◌, if◌then◌else◌,
}
use spack_playground.Prelude.Family.{update, sum_first, sum_first-change, sum_first_congr}
use spack_playground.Prelude.Occurrences.{occurrences, occurrences-append}
use spack_playground.WorkPool.{Pool, new_pool, push, pop, pop_from}
use spack_playground.WorkPool.Scheduler.{
  Pools, target, pop_at, turn_with, turn, listed, Farm, pushes, turns, Reach, start, next,
  pool_index,
}

-- A thief takes from another of the pools.
pub target_inside : (n r : ℕ) → 1 < n → (0 < target n r) × (target n r < n)
target_inside n r several = by_test (n == 2) (λ e. ground arith)
  where
    bounded : (m : ℕ) → m < n - 1 → m + 1 < n
    bounded m lt = omega arith

    by_test :
        (t : Bool)
        → (t ≡ true → n ≡ 2)
        → let k : ℕ = if t then 1 else r % (n - 1) + 1 in (0 < k) × (k < n)
    by_test true two = (omega arith, several)
    by_test false two =
        (omega arith, bounded (r % (n - 1)) (mod-lt r (let b : 0 < n - 1 = omega arith in b)))

in_pools : ℕ → ℕ → Pools → ℕ
in_pools n u pools = sum_first n (λ i. occurrences u (pools i).units)

pop_counts :
    (u : ℕ) (p : Pool)
    → occurrences u p.units ≡ occurrences u (listed (pop p).0) + occurrences u (pop p).1.units
unfolding pop pop_from occurrences
pop_counts u p = by_units p.units refl
  where
    by_units :
        (us : List ℕ)
        → us ≡ p.units
        → occurrences u us
          ≡ occurrences u (listed (pop_from us p).0) + occurrences u (pop_from us p).1.units
    by_units [] e = ap (occurrences u) e ∙ omega arith
    by_units (x ∷ us) e = omega arith

replaced :
    (n u i : ℕ) (p : Pool) (pools : Pools)
    → i < n
    → in_pools n u (update pools i p) + occurrences u (pools i).units
      ≡ in_pools n u pools + occurrences u p.units
unfolding in_pools
replaced n u i p pools lt =
    ap (λ s. s + occurrences u (pools i).units)
      (sum_first_congr n (λ j. occurrences u (update pools i p j).units)
        (update (λ j. occurrences u (pools j).units) i (occurrences u p.units))
        (λ j. by_test j (i == j)))
    ∙ sum_first-change n (λ j. occurrences u (pools j).units) i (occurrences u p.units) lt
  where
    by_test :
        (j : ℕ) (t : Bool)
        → occurrences u (if t then p else pools j).units
          ≡ (if t then occurrences u p.units else occurrences u (pools j).units)
    by_test j true = refl
    by_test j false = refl

pop_at_counts :
    (n u i : ℕ) (pools : Pools)
    → i < n
    → in_pools n u pools
      ≡ occurrences u (listed (pop_at i pools).0) + in_pools n u (pop_at i pools).1
pop_at_counts n u i pools lt =
    omega (arith, replaced n u i (pop (pools i)).1 pools lt, pop_counts u (pools i))

turn_counts :
    (n u r : ℕ) (pools : Pools)
    → 0 < n
    → in_pools n u pools
      ≡ occurrences u (listed (turn n r pools).0) + in_pools n u (turn n r pools).1
unfolding occurrences
turn_counts n u r pools some_pool = by_first (pop_at 0 pools) (pop_at_counts n u 0 pools some_pool)
  where
    by_several :
        (t : Bool) (left : Pools)
        → ltb 1 n ≡ t
        → in_pools n u left
          ≡ occurrences u (listed (if t then pop_at (target n r) left else (none, left)).0)
            + in_pools n u (if t then pop_at (target n r) left else (none, left)).1
    by_several true left e =
        pop_at_counts n u (target n r) left (target_inside n r (ground arith)).1
    by_several false left e = omega arith

    by_first :
        (first : Option ℕ × Pools)
        → in_pools n u pools ≡ occurrences u (listed first.0) + in_pools n u first.1
        → in_pools n u pools
          ≡ occurrences u (listed (turn_with n r first).0) + in_pools n u (turn_with n r first).1
    by_first (some v, left) e = e
    by_first (none, left) e = omega (arith, e, by_several (ltb 1 n) left refl)

in_new_pools : (n u : ℕ) → in_pools n u (λ i. new_pool) ≡ 0
unfolding in_pools sum_first occurrences
in_new_pools zero u = refl
in_new_pools (suc n) u = omega (arith, in_new_pools n u)

-- However pushes and rounds interleave, with stealing from any pool: of the times that a unit was pushed it
-- has been run as often as it is not waiting in one of the pools, so no push is lost or run twice.
pub Reach-conserved :
    (n : ℕ) (s : Farm)
    → 0 < n
    → Reach n s
    → (u : ℕ)
    → occurrences u s.pushed
      ≡ occurrences u s.ran + sum_first n (λ i. occurrences u (s.pools i).units)
unfolding in_pools push occurrences
Reach-conserved n _ some_pool start u = omega (arith, in_new_pools n u)
Reach-conserved n _ some_pool (next s _ reach (pushes _ i v lt)) u = omega (
  arith,
  Reach-conserved n s some_pool reach u,
  occurrences-append u s.pushed (v ∷ []),
  occurrences-append u (s.pools i).units (v ∷ []),
  replaced n u i (push v (s.pools i)) s.pools lt,
)
Reach-conserved n _ some_pool (next s _ reach (turns _ r)) u = omega (
  arith,
  Reach-conserved n s some_pool reach u,
  occurrences-append u s.ran (listed (turn n r s.pools).0),
  turn_counts n u r s.pools some_pool,
)

pop_front : (p : Pool) → listed (pop p).0 ++ (pop p).1.units ≡ p.units
unfolding pop pop_from
pop_front p = by_units p.units refl
  where
    by_units :
        (us : List ℕ) → us ≡ p.units → listed (pop_from us p).0 ++ (pop_from us p).1.units ≡ p.units
    by_units [] e = refl
    by_units (x ∷ us) e = e

pub turn_alone : (r : ℕ) (pools : Pools) → turn 1 r pools ≡ pop_at 0 pools
turn_alone r pools = by_first (pop_at 0 pools)
  where
    by_first : (first : Option ℕ × Pools) → turn_with 1 r first ≡ first
    by_first (some u, left) = refl
    by_first (none, left) = refl

-- With one pool, as `main` has it, the units run in the order in which they were pushed.
pub Reach-in_order : (s : Farm) → Reach 1 s → s.ran ++ (s.pools 0).units ≡ s.pushed
unfolding push
Reach-in_order _ start = refl
Reach-in_order _ (next s _ reach (pushes _ zero u lt)) =
    sym (append_assoc s.ran (s.pools 0).units (u ∷ []))
    ∙ ap (λ l. l ++ u ∷ []) (Reach-in_order s reach)
Reach-in_order _ (next s _ reach (pushes _ (suc i) u lt)) = absurd (omega arith)
Reach-in_order _ (next s _ reach (turns _ r)) =
    ap (λ t. (s.ran ++ listed t.0) ++ (t.1 0).units) (turn_alone r s.pools)
    ∙ append_assoc s.ran (listed (pop (s.pools 0)).0) (pop (s.pools 0)).1.units
    ∙ ap (λ l. s.ran ++ l) (pop_front (s.pools 0))
    ∙ Reach-in_order s reach

-- The index of every pool of scheduler `i` is inside exactly for the first scheduler.
pub pool_index_inside : (n i : ℕ) → i < n → ((j : ℕ) → j < n → pool_index n i j < n) ↔ (i ≡ 0)
pool_index_inside n i lt = (
  λ inside. omega (arith, inside (n - 1) (omega arith), mod-eq_of_lt lt),
  λ first j low. omega (arith, mod-eq_of_lt lt),
)
