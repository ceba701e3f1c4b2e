-- ===== src/WorkPool/Scheduler.antt =====
-- targets/apps/thallium_custom_schedulers_and_pools/main.cpp: `MyScheduler`, and what `main` makes. What
-- `rand_r` and `has_to_stop` return, and what running units and other threads do, are parameters.
pub mod Turns
pub mod Rounds
use spack_playground.Prelude.{
  ℕ, zero, suc, ◌+◌, ◌-◌, ◌%◌, ◌<◌, ◌≡◌, Bool, true, false, Option, none, some, List, [], ◌∷◌, ◌++◌,
  ltb, ◌==◌, if◌then◌else◌,
}
use spack_playground.Prelude.Family.{update}
use spack_playground.WorkPool.{Pool, new_pool, push, pop}

abbrev pub Pools : Type 0
Pools = ℕ → Pool

-- The pool to steal from, of `n` pools; `r` is what `rand_r` returns.
abbrev pub target : ℕ → ℕ → ℕ
target n r = if n == 2 then 1 else r % (n - 1) + 1

-- `get_pool(i).pop`
abbrev pub pop_at : ℕ → Pools → Option ℕ × Pools
pop_at i pools = ((pop (pools i)).0, update pools i (pop (pools i)).1)

abbrev pub steal : ℕ → ℕ → Pools → Option ℕ × Pools
steal n r pools = if ltb 1 n then pop_at (target n r) pools else (none, pools)

-- What the body of the loop takes and runs, `none` for nothing.
abbrev pub turn_with : ℕ → ℕ → Option ℕ × Pools → Option ℕ × Pools
turn_with n r (some u, pools) = (some u, pools)
turn_with n r (none, pools) = steal n r pools

abbrev pub turn : ℕ → ℕ → Pools → Option ℕ × Pools
turn n r pools = turn_with n r (pop_at 0 pools)

abbrev pub listed : Option ℕ → List ℕ
listed none = []
listed (some u) = u ∷ []

module _ (n : ℕ) (rand : ℕ → ℕ) (stops : ℕ → Bool) (others : ℕ → Pools → Pools) where
  -- The loop of `run` from round `i`: the units that it runs, the pools, and whether it has stopped when
  -- the fuel is used up. `others i` is what happens to the pools before round `i`.
  unfoldable pub loop : ℕ → ℕ → Pools → List ℕ × Pools × Bool
  loop zero i pools = ([], pools, false)
  loop (suc fuel) i pools =
      let (u, left) = turn n (rand i) (others i pools) in
      let (us, end, stopped) = loop fuel (i + 1) left in
      if stops i then (listed u, left, true) else (listed u ++ us, end, stopped)

-- The pools, the units that were pushed to them and those that were run, both in their order.
pub record Farm : Type 0 where
  pub pools : Pools
  pub pushed : List ℕ
  pub ran : List ℕ

abbrev pub new_farm : Farm
new_farm = record { pools = λ i. new_pool; pushed = []; ran = [] }

-- Pushes by any thread between the rounds of the scheduler.
pub data Step (n : ℕ) : Farm → Farm → Type 0 where
  pushes :
      (s : Farm) (i u : ℕ)
      → i < n
      → Step n s (record {
        pools = update s.pools i (push u (s.pools i));
        pushed = s.pushed ++ u ∷ [];
        ran = s.ran;
      })
  turns :
      (s : Farm) (r : ℕ)
      → Step n s (record {
        pools = (turn n r s.pools).1;
        pushed = s.pushed;
        ran = s.ran ++ listed (turn n r s.pools).0;
      })

pub data Reach (n : ℕ) : Farm → Type 0 where
  start : Reach n new_farm
  next : (s s' : Farm) → Reach n s → Step n s s' → Reach n s'

-- The index that `main` reads for the pool `j` of scheduler `i`.
abbrev pub pool_index : ℕ → ℕ → ℕ → ℕ
pool_index n i j = j + i % n

-- The stream that `main` gives thread `i` to.
abbrev pub stream_of : ℕ → ℕ → ℕ
stream_of n i = i % n
