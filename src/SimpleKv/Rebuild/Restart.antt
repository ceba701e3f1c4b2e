-- ===== src/SimpleKv/Rebuild/Restart.antt =====
-- A restart rebuilds the buckets and shows the same map.
use spack_playground.Prelude.{◌<◌, ◌≡◌, refl, sym, ap, ◌∙◌, some, arith, length}
use spack_playground.SimpleKv.{Key}
use spack_playground.SimpleKv.Laws.{IsValid, read_slot, get-slot}
use spack_playground.SimpleKv.Rebuild.{Runtime, as_kv, rebuild, get}
use spack_playground.SimpleKv.Rebuild.Keys.{index_of-lt, index_of_unshared, Agrees, load-Agrees}

module _ {K V : Type 0} (key : Key K) where
  -- The object is in step with the persistent vectors.
  pub record IsRuntime (r : Runtime K V) : Type 0 where
    pub some_bucket : 0 < length r.buckets
    pub paired : length r.stored.values ≡ length r.stored.keys
    pub agrees : Agrees key r.buckets r.stored.keys

  pub IsRuntime-IsValid : (r : Runtime K V) → IsRuntime r → IsValid key (as_kv r)
  IsRuntime-IsValid r is = record {
    some_bucket = is.some_bucket;
    bounded = λ k i e.
        omega (arith, is.paired, index_of-lt key k r.stored.keys i (sym (is.agrees k) ∙ e));
    unshared = λ k j i e f.
        index_of_unshared key k j r.stored.keys i (sym (is.agrees k) ∙ e) (sym (is.agrees j) ∙ f);
  }

  -- The constructor never reads out of bounds. A restart shows every key the value that it had
  -- before, and the object is in step again.
  pub rebuild-get :
      (r : Runtime K V)
      → IsRuntime r
      → (r' : Runtime K V) × (rebuild key (length r.buckets) r.stored ≡ some r')
        × (r'.stored ≡ r.stored)
        × IsRuntime r'
        × ((k : K) → get key r' k ≡ get key r k)
  unfolding rebuild get
  rebuild-get r is =
      let (buckets, run, same, agrees) =
        load-Agrees key (length r.buckets) r.stored.keys is.some_bucket in
      let r' : Runtime K V = record { buckets = buckets; stored = r.stored } in
      let some_bucket : 0 < length buckets = omega (arith, is.some_bucket, same) in
      (
        r',
        rw (is.paired, run, rebuild) refl,
        refl,
        record { some_bucket = some_bucket; paired = is.paired; agrees = agrees },
        λ k.
            get-slot key (as_kv r') k some_bucket
            ∙ ap (read_slot r.stored.values) (agrees k ∙ sym (is.agrees k))
            ∙ sym (get-slot key (as_kv r) k is.some_bucket),
      )
