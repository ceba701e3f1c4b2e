-- ===== src/Records.antt =====
-- targets/apps/ppm_ch12_38_out_of_order_bug/main.cpp: a counter of records and ten records, each with a
-- name that is written before the record is marked. `rand`, `snprintf` and the pool are parameters.
pub mod Rounds
pub mod Crash
mod Examples
use spack_playground.Prelude.{
  ℕ, zero, suc, ◌+◌, ◌*◌, ◌≡◌, Bool, true, false, List, [], ◌∷◌, ◌++◌, if◌then◌else◌, length,
}
use spack_playground.Medium.{Op, store, publish, stores, persist}

-- `header_t` at the begin; `record_t` is a name of 63 bytes and the byte `valid`.
abbrev pub counter_at : ℕ
counter_at = 0

abbrev pub name_at : ℕ → ℕ
name_at i = 64 + 64 * i

abbrev pub valid_at : ℕ → ℕ
valid_at i = name_at i + 63

-- The transaction that makes both objects, which are zero elsewhere.
abbrev pub init_ops : List Op
init_ops = publish ((counter_at, 0) ∷ (valid_at 0, 0) ∷ []) ∷ []

-- `coin i` is whether `rand` is even in round `i`; `text i` is what `snprintf` writes, with its zero.
module _ (coin : ℕ → Bool) (text : ℕ → List ℕ) where
  -- The two branches of the test.
  abbrev pub named_ops : ℕ → List Op
  named_ops i = (stores (name_at i) (text i) ++ persist (name_at i) 63) ++ store (valid_at i) 2 ∷ []

  abbrev pub mark_ops : ℕ → List Op
  mark_ops i = if coin i then named_ops i else store (valid_at i) 1 ∷ []

  -- The body of the loop; the counter is `i` before `counter++`.
  abbrev pub round_ops : ℕ → List Op
  round_ops i = store counter_at (i + 1) ∷ (mark_ops i ++ persist (valid_at i) 1)

  -- So many rounds from round `i` on.
  unfoldable pub loop_ops : ℕ → ℕ → List Op
  loop_ops zero i = []
  loop_ops (suc n) i = round_ops i ++ loop_ops n (i + 1)

  abbrev pub main_ops : List Op
  main_ops = init_ops ++ (store counter_at 0 ∷ (loop_ops 10 0 ++ persist counter_at 4))
