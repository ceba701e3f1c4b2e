-- ===== src/SimpleKv/Rebuild/Bug.antt =====
-- What an insertion leaves that threw behind the commit of its transaction.
use spack_playground.Prelude.{
  ℕ, ◌<◌, ◌≡◌, refl, sym, ap, ◌∙◌, Option, none, some, List, [], ◌∷◌, ◌++◌, arith, if◌then◌else◌,
  length, length-append, true, false,
}
use spack_playground.Effects.{bad_alloc, threw}
use spack_playground.SimpleKv.{Key, Room, found, absent, read_value}
use spack_playground.SimpleKv.Slots.{slot, or_else, bucket_of}
use spack_playground.SimpleKv.Laws.{read_slot, get-slot, read_value-append_last}
use spack_playground.SimpleKv.Rebuild.{Persistent, Runtime, as_kv, rebuild, get, put}
use spack_playground.SimpleKv.Rebuild.Keys.{index_of, index_of-append_last, load-Agrees}
use spack_playground.SimpleKv.Rebuild.Restart.{IsRuntime}
use spack_playground.SimpleKv.Rebuild.Put.{stored_pair, half_run}

module _ {V : Type 0} where
  read_slot_absent : (values : List V) (o : Option ℕ) → read_slot values o ≡ absent → o ≡ none
  unfolding read_value
  read_slot_absent values none e = refl
  read_slot_absent values (some i) e = ground arith

module _ {K V : Type 0} (key : Key K) where
  pub rebuild_shows :
      (n : ℕ) (p : Persistent K V)
      → 0 < n
      → length p.values ≡ length p.keys
      → (r' : Runtime K V) × (rebuild key n p ≡ some r')
        × ((k : K) → get key r' k ≡ read_slot p.values (index_of key k p.keys))
  unfolding rebuild get
  rebuild_shows n p positive paired =
      let (buckets, run, same, agrees) = load-Agrees key n p.keys positive in
      let r' : Runtime K V = record { buckets = buckets; stored = p } in
      (
        r',
        rw (paired, run, rebuild) refl,
        λ k.
            get-slot key (as_kv r') k (omega (arith, positive, same))
            ∙ ap (read_slot p.values) (agrees k),
      )

  no_slot :
      (r : Runtime K V)
      → IsRuntime key r
      → (k : K) → get key r k ≡ absent
      → slot key r.buckets k ≡ none
  unfolding get
  no_slot r is k missing =
      read_slot_absent r.stored.values (slot key r.buckets k)
        (sym (get-slot key (as_kv r) k is.some_bucket) ∙ missing)

  -- the pair that is stored and not entered
  stored_pair-surfaces :
      (r : Runtime K V) (is : IsRuntime key r) (k : K) (v : V)
      → get key r k ≡ absent
      → (get key (stored_pair key r is k v) k ≡ absent)
        × ((r' : Runtime K V) × (rebuild key (length r.buckets) (stored_pair key r is k v).stored
              ≡ some r')
            × (get key r' k ≡ found v))
  unfolding get or_else
  stored_pair-surfaces r is k v missing =
      let values : List V = r.stored.values ++ v ∷ [] in
      let empty_slot = no_slot r is k missing in
      let at_end : index_of key k (r.stored.keys ++ k ∷ []) ≡ some (length r.stored.values) =
        index_of-append_last key k k r.stored.keys
        ∙ at_last (index_of key k r.stored.keys) (sym (is.agrees k) ∙ empty_slot) in
      let (r', run, shows) =
        rebuild_shows (length r.buckets) (stored_pair key r is k v).stored is.some_bucket (
          omega (
            arith,
            is.paired,
            length-append r.stored.values (v ∷ []),
            length-append r.stored.keys (k ∷ []),
          )) in
      (
        get-slot key (as_kv (stored_pair key r is k v)) k is.some_bucket
            ∙ ap (read_slot values) empty_slot,
        (
          r',
          run,
          shows k ∙ ap (read_slot values) at_end ∙ read_value-append_last r.stored.values v,
        ),
      )
    where
      at_last :
          (o : Option ℕ)
          → o ≡ none
          → or_else o (if key.same k k then some (length r.stored.keys) else none)
            ≡ some (length r.stored.values)
      at_last o e = rw (e, (key.same_iff k k).1 refl, or_else) (ap some (sym is.paired))

  -- Where the last allocation of `put` fails and the two of its transaction do not, `put` of a new key
  -- throws, and `get` still finds nothing under the key. After a restart it finds the value: the call that
  -- reported a failure has taken effect.
  pub half_put-surfaces :
      (room : Room) (r : Runtime K V)
      → IsRuntime key r
      → (k : K) (v : V) → get key r k ≡ absent
      → room.first ≡ true
      → room.second ≡ true
      → room.third ≡ false
      → (half : Runtime K V) × (put key room k v r ≡ threw bad_alloc half)
        × (get key half k ≡ absent)
        × ((r' : Runtime K V) × (rebuild key (length r.buckets) half.stored ≡ some r')
            × (get key r' k ≡ found v))
  half_put-surfaces room r is k v missing first second full =
      let (b, here, e) = bucket_of key r.buckets k is.some_bucket in
      let (still, again) = stored_pair-surfaces r is k v missing in
      (
        stored_pair key r is k v,
        half_run key r is k v room b here (sym e ∙ no_slot r is k missing) first second full,
        still,
        again,
      )
