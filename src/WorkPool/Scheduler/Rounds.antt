-- ===== src/WorkPool/Scheduler/Rounds.antt =====
-- The loop of the scheduler with the one pool that `main` gives it.
use spack_playground.Prelude.{
  ℕ, zero, suc, ◌+◌, ◌≤◌, ◌<◌, ◌≡◌, refl, sym, ap, ◌∙◌, subst, Bool, true, false, Option, List, [],
  ◌∷◌, ◌++◌, arith, if◌then◌else◌, length,
}
use spack_playground.WorkPool.{Pool, pop, pop_from}
use spack_playground.WorkPool.Scheduler.{Pools, pop_at, listed, loop}
use spack_playground.WorkPool.Scheduler.Turns.{turn_alone}

front : List ℕ → List ℕ
front [] = []
front (u ∷ us) = u ∷ []

back : List ℕ → List ℕ
back [] = []
back (u ∷ us) = us

front-back : (us : List ℕ) → front us ++ back us ≡ us
unfolding front back
front-back [] = refl
front-back (u ∷ us) = refl

length-back : (us : List ℕ) (k : ℕ) → length us ≤ k + 1 → length (back us) ≤ k
unfolding back
length-back [] k few = omega arith
length-back (u ∷ us) k few = omega arith

no_back : (us : List ℕ) → length us ≤ 1 → (front us ≡ us) × (back us ≡ [])
unfolding front back
no_back [] few = (refl, refl)
no_back (u ∷ []) few = (refl, refl)
no_back (u ∷ (v ∷ us)) few = absurd (omega arith)

popped : (p : Pool) → (listed (pop p).0 ≡ front p.units) × ((pop p).1.units ≡ back p.units)
unfolding pop pop_from front back
popped p = by_units p.units refl
  where
    by_units :
        (us : List ℕ)
        → us ≡ p.units
        → (listed (pop_from us p).0 ≡ front us) × ((pop_from us p).1.units ≡ back us)
    by_units [] e = (refl, sym e)
    by_units (x ∷ us) e = (refl, refl)

module _ (rand : ℕ → ℕ) (stops : ℕ → Bool) where
  abbrev alone : ℕ → ℕ → Pools → List ℕ × Pools × Bool
  alone = loop 1 rand stops (λ j p. p)

  abbrev after_turn : ℕ → ℕ → Bool → Option ℕ × Pools → List ℕ × Pools × Bool
  after_turn fuel i stop (u, left) =
      let (us, end, stopped) = alone fuel (i + 1) left in
      if stop then (listed u, left, true) else (listed u ++ us, end, stopped)

  alone_turn :
      (fuel i : ℕ) (stop : Bool) (pools : Pools)
      → stops i ≡ stop
      → alone (suc fuel) i pools ≡ after_turn fuel i stop (pop_at 0 pools)
  unfolding loop
  alone_turn fuel i stop pools e =
      ap (after_turn fuel i (stops i)) (turn_alone (rand i) pools)
      ∙ ap (λ b. after_turn fuel i b (pop_at 0 pools)) e

  -- Alone with one pool the loop runs the waiting units in their order and ends in the round in which it
  -- has to stop, where this round comes late enough.
  pub loop_drains :
      (k i : ℕ) (pools : Pools)
      → length (pools 0).units ≤ k + 1
      → ((j : ℕ) → j < k → stops (i + j) ≡ false)
      → stops (i + k) ≡ true
      → let end : List ℕ × Pools × Bool = loop 1 rand stops (λ j p. p) (suc k) i pools in
        (end.0 ≡ (pools 0).units) × ((end.1 0).units ≡ []) × (end.2 ≡ true)
  loop_drains zero i pools few going stop =
      let run =
        alone_turn 0 i true pools (ap stops (let e : i ≡ i + 0 = omega arith in e) ∙ stop) in
      let (first, last) = no_back (pools 0).units (omega arith) in
      let (taken, left) = popped (pools 0) in
      (
        ap (λ r. r.0) run ∙ taken ∙ first,
        ap (λ r. (r.1 0).units) run ∙ left ∙ last,
        ap (λ r. r.2) run,
      )
  loop_drains (suc k) i pools few going stop =
      let run =
        alone_turn (suc k) i false pools
          (ap stops (let e : i ≡ i + 0 = omega arith in e) ∙ going 0 (omega arith)) in
      let (taken, left) = popped (pools 0) in
      let (all, none_left, ended) =
        loop_drains k (i + 1) (pop_at 0 pools).1
          (subst (λ us. length us ≤ k + 1) (sym left)
            (length-back (pools 0).units (k + 1) (omega arith)))
          (λ j lt.
            ap stops (let e : i + 1 + j ≡ i + suc j = omega arith in e)
            ∙ going (suc j) (omega arith))
          (ap stops (let e : i + 1 + k ≡ i + suc k = omega arith in e) ∙ stop) in
      (
        ap (λ r. r.0) run
            ∙ ap (λ us. listed (pop (pools 0)).0 ++ us) (all ∙ left)
            ∙ ap (λ l. l ++ back (pools 0).units) taken
            ∙ front-back (pools 0).units,
        ap (λ r. (r.1 0).units) run ∙ none_left,
        ap (λ r. r.2) run ∙ ended,
      )
