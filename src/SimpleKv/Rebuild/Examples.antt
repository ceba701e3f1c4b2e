-- ===== src/SimpleKv/Rebuild/Examples.antt =====
-- An object with one stored pair, and the theorems at it.
use spack_playground.Prelude.{ℕ, ◌≡◌, refl, ◌⊎◌, true, false, some, [], ◌∷◌, arith, ◌==◌, ==_iff}
use spack_playground.Effects.{bad_alloc, done, threw}
use spack_playground.SimpleKv.{Key, Room, Lookup, found, absent}
use spack_playground.SimpleKv.Runs.{IsFull}
use spack_playground.SimpleKv.Rebuild.{Runtime, rebuild, get, put}
use spack_playground.SimpleKv.Rebuild.Keys.{index_of, entered-Agrees}
use spack_playground.SimpleKv.Slots.{slot-replicate}
use spack_playground.SimpleKv.Rebuild.Restart.{IsRuntime, rebuild-get}
use spack_playground.SimpleKv.Rebuild.Put.{stored_pair, Puts, put-Puts}
use spack_playground.SimpleKv.Rebuild.Bug.{half_put-surfaces}

abbrev number_key : Key ℕ
number_key = record { same = ◌==◌; same_iff = ==_iff; hash = λ k. k }

abbrev full_buckets : Room
full_buckets = record { first = true; second = true; third = false }

abbrev one_pair : Runtime ℕ ℕ
one_pair = record {
  buckets = ((4, 0) ∷ []) ∷ [];
  stored = record { values = 70 ∷ []; keys = 4 ∷ [] };
}

one_pair-IsRuntime : IsRuntime number_key one_pair
unfolding index_of
one_pair-IsRuntime = record {
  some_bucket = omega arith;
  paired = refl;
  agrees =
      entered-Agrees number_key ([] ∷ []) [] 4 [] (omega arith)
        (λ k. slot-replicate number_key 1 k (omega arith)) refl;
}

rebuild-get_example :
    (r' : Runtime ℕ ℕ) × (rebuild number_key 1 one_pair.stored ≡ some r')
    × (r'.stored ≡ one_pair.stored)
    × IsRuntime number_key r'
    × ((k : ℕ) → get number_key r' k ≡ get number_key one_pair k)
rebuild-get_example = rebuild-get number_key one_pair one_pair-IsRuntime

put-Puts_example :
    ((r' : Runtime ℕ ℕ) × (put number_key full_buckets 5 80 one_pair ≡ done tt r')
      × Puts number_key one_pair one_pair-IsRuntime 5 80 r')
    ⊎ (((put number_key full_buckets 5 80 one_pair ≡ threw bad_alloc one_pair)
          × IsFull full_buckets)
        ⊎ ((put number_key full_buckets 5 80 one_pair
              ≡ threw bad_alloc (stored_pair number_key one_pair one_pair-IsRuntime 5 80))
            × (full_buckets.third ≡ false)))
put-Puts_example = put-Puts number_key one_pair one_pair-IsRuntime 5 80 full_buckets

half_put-surfaces_example :
    (half : Runtime ℕ ℕ) × (put number_key full_buckets 5 80 one_pair ≡ threw bad_alloc half)
    × (get number_key half 5 ≡ absent)
    × ((r' : Runtime ℕ ℕ) × (rebuild number_key 1 half.stored ≡ some r')
        × (get number_key r' 5 ≡ found 80))
unfolding get spack_playground.SimpleKv.get
half_put-surfaces_example =
    half_put-surfaces number_key full_buckets one_pair one_pair-IsRuntime 5 80 refl refl refl refl
