-- ===== src/WorkPool.antt =====
-- targets/apps/thallium_custom_schedulers_and_pools/main.cpp: `MyUnit` and `MyPool`. A unit is its
-- address; the mutex makes each method one step.
pub mod Members
pub mod Scheduler
mod Examples
use spack_playground.Prelude.{
  ℕ, zero, suc, ◌+◌, ◌≡◌, Bool, true, false, Option, none, some, List, [], ◌∷◌, ◌++◌, ◌==◌,
  if◌then◌else◌, length,
}
use spack_playground.Prelude.Family.{update}

-- The deque `units_`, and the flag `inPool_` of every unit.
pub record Pool : Type 0 where
  pub units : List ℕ
  pub in_pool : ℕ → Bool

abbrev pub new_pool : Pool
new_pool = record { units = []; in_pool = λ u. false }

abbrev pub get_size : Pool → ℕ
get_size p = length p.units

unfoldable pub push : ℕ → Pool → Pool
push u p = record { units = p.units ++ u ∷ []; in_pool = update p.in_pool u true }

-- `none` is the null pointer.
unfoldable pub pop_from : List ℕ → Pool → Option ℕ × Pool
pop_from [] p = (none, p)
pop_from (u ∷ us) p = (some u, record { units = us; in_pool = update p.in_pool u false })

unfoldable pub pop : Pool → Option ℕ × Pool
unfolding pop_from
pop p = pop_from p.units p

-- `std::find` and `erase`; the result is `none` where the unit is not found.
unfoldable pub erase_found : ℕ → List ℕ → Option (List ℕ)
erase_found u [] = none
erase_found u (x ∷ xs) =
    let rest = erase_found u xs in
    if x == u then some xs else elim rest [ none ↦ none | some ys ↦ some (x ∷ ys) ]

unfoldable pub remove : ℕ → Pool → Pool
unfolding erase_found
remove u p = elim (erase_found u p.units) [
  | none ↦ p
  | some us ↦ record { units = us; in_pool = update p.in_pool u false }
]

-- The calls that Argobots makes: a unit that is pushed is in no pool.
pub data Step : Pool → Pool → Type 0 where
  pushes : (p : Pool) (u : ℕ) → p.in_pool u ≡ false → Step p (push u p)
  pops : (p : Pool) → Step p (pop p).1
  removes : (p : Pool) (u : ℕ) → Step p (remove u p)

pub data Reach : Pool → Type 0 where
  start : Reach new_pool
  next : (p p' : Pool) → Reach p → Step p p' → Reach p'
