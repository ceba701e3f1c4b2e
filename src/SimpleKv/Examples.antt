-- ===== src/SimpleKv/Examples.antt =====
-- A table of two buckets whose keys are numbers.
use spack_playground.Prelude.{ℕ, ◌≡◌, ◌⊎◌, true, arith, ◌==◌, ==_iff}
use spack_playground.Effects.{bad_alloc, done, threw}
use spack_playground.SimpleKv.{Key, Room, SimpleKv, new_kv, put}
use spack_playground.SimpleKv.Laws.{IsValid, Writes, new_kv-IsValid}
use spack_playground.SimpleKv.Runs.{IsFull, put-Writes}

abbrev number_key : Key ℕ
number_key = record { same = ◌==◌; same_iff = ==_iff; hash = λ k. k }

abbrev ample : Room
ample = record { first = true; second = true; third = true }

abbrev two_buckets : SimpleKv ℕ ℕ
two_buckets = new_kv 2

two_buckets-IsValid : IsValid number_key two_buckets
two_buckets-IsValid = (new_kv-IsValid {V = ℕ} number_key 2 (omega arith)).0

put-Writes_example :
    ((kv' : SimpleKv ℕ ℕ) × (put number_key ample 5 70 two_buckets ≡ done tt kv')
      × Writes number_key two_buckets kv' 5 70)
    ⊎ ((put number_key ample 5 70 two_buckets ≡ threw bad_alloc two_buckets) × IsFull ample)
put-Writes_example = put-Writes number_key two_buckets two_buckets-IsValid 5 70 ample
