-- ===== src/WorkPool/Examples.antt =====
-- Two pushes and a pop.
use spack_playground.Prelude.{ℕ, ◌+◌, ◌≤◌, ◌≡◌, refl, Bool, true, List, [], ◌∷◌, arith, ltb, length}
use spack_playground.Prelude.Family.{one_if, sum_first, update}
use spack_playground.Prelude.Occurrences.{occurrences}
use spack_playground.WorkPool.{
  Pool, new_pool, push, pop, pop_from, pushes, pops, Reach, start, next,
}
use spack_playground.WorkPool.Members.{Reach-IsValid}
use spack_playground.WorkPool.Scheduler
use spack_playground.WorkPool.Scheduler.{
  Pools, Farm, new_farm, turn, listed, turns, loop, pool_index,
}
use spack_playground.WorkPool.Scheduler.Turns.{Reach-conserved}
use spack_playground.WorkPool.Scheduler.Rounds.{loop_drains}

abbrev popped : Pool
popped = (pop (push 8 (push 7 new_pool))).1

popped-Reach : Reach popped
unfolding push
popped-Reach =
    next (push 8 (push 7 new_pool)) popped
      (next (push 7 new_pool) (push 8 (push 7 new_pool))
        (next new_pool (push 7 new_pool) start (pushes new_pool 7 refl))
        (pushes (push 7 new_pool) 8 refl))
      (pops (push 8 (push 7 new_pool)))

Reach-IsValid_example : occurrences 7 popped.units ≡ one_if (popped.in_pool 7)
Reach-IsValid_example = Reach-IsValid popped popped-Reach 7

-- A unit in the second of two pools, and the round in which it is stolen.
abbrev loaded : Farm
loaded = record { pools = update (λ i. new_pool) 1 (push 7 new_pool); pushed = 7 ∷ []; ran = [] }

abbrev stolen : Farm
stolen = record {
  pools = (turn 2 5 loaded.pools).1;
  pushed = 7 ∷ [];
  ran = listed (turn 2 5 loaded.pools).0;
}

stolen_seven : stolen.ran ≡ 7 ∷ []
unfolding push pop pop_from
stolen_seven = refl

stolen-Reach : Scheduler.Reach 2 stolen
stolen-Reach =
    Scheduler.next loaded stolen
      (Scheduler.next new_farm loaded Scheduler.start (Scheduler.pushes new_farm 1 7 (omega arith)))
      (turns loaded 5)

Reach-conserved_example :
    occurrences 7 stolen.pushed
    ≡ occurrences 7 stolen.ran + sum_first 2 (λ i. occurrences 7 (stolen.pools i).units)
Reach-conserved_example = Reach-conserved 2 stolen (omega arith) stolen-Reach 7

abbrev queued : Farm
queued = record { pools = update (λ i. new_pool) 0 (push 7 new_pool); pushed = 7 ∷ []; ran = [] }

loop_drains_example :
    let end : List ℕ × Pools × Bool = loop 1 (λ i. 4) (λ i. ltb 0 i) (λ j p. p) 2 0 queued.pools in
    (end.0 ≡ (queued.pools 0).units) × ((end.1 0).units ≡ []) × (end.2 ≡ true)
loop_drains_example =
    loop_drains (λ i. 4) (λ i. ltb 0 i) 1 0 queued.pools one_unit (λ j lt. ground arith) refl
  where
    one_unit : length (queued.pools 0).units ≤ 2
    one_unit = unfold push in omega arith
