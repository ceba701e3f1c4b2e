-- ===== src/SimpleKv/Rebuild.antt =====
-- targets/apps/ppm_ch11_5_simplekv_rebuild/simplekv_rebuild.hpp: keys and values are persistent, the
-- buckets are volatile and rebuilt by the constructor.
pub mod Keys
pub mod Restart
pub mod Put
pub mod Bug
pub mod Commands
mod Examples
use spack_playground.Prelude.{
  ℕ, zero, suc, ◌+◌, ◌-◌, Bool, true, false, not, Option, none, some, List, [], ◌∷◌, ◌++◌, ltb,
  if◌then◌else◌, length, get_elem?, set, replicate,
}
use spack_playground.Effects.{
  bad_alloc, Outcome, done, threw, fault, or_fault, and_then, transaction,
}
use spack_playground.SimpleKv.{Key, Room, Bucket, SimpleKv, Lookup, index, find}
use spack_playground.SimpleKv

-- `struct simple_kv_persistent`
pub record Persistent (K V : Type 0) : Type 0 where
  pub values : List V
  pub keys : List K

-- `class simple_kv_runtime`; its field `data` is `stored`.
pub record Runtime (K V : Type 0) : Type 0 where
  pub buckets : List (Bucket K)
  pub stored : Persistent K V

module _ {K V : Type 0} where
  -- the part of the object that `get` reads, which is a `simple_kv`
  abbrev pub as_kv : Runtime K V → SimpleKv K V
  as_kv r = record { buckets = r.buckets; values = r.stored.values }

  -- The two transactions of `put`; the second may throw behind its first `emplace_back`.
  unfoldable pub assign_stored : ℕ → V → Runtime K V → Outcome (Runtime K V) (Unit {0})
  assign_stored i v r =
      if ltb i (length r.stored.values)
      then done tt (record r { stored = record (r.stored) { values = set r.stored.values i v } })
      else fault

  unfoldable pub append_stored : Room → K → V → Runtime K V → Outcome (Runtime K V) (Unit {0})
  append_stored room k v r =
      if not room.first
      then threw bad_alloc r
      else let longer : Persistent K V = record {
        values = r.stored.values ++ v ∷ [];
        keys = r.stored.keys;
      } in
        if not room.second
        then threw bad_alloc (record r { stored = longer })
        else done tt (record r {
          stored = record { values = longer.values; keys = r.stored.keys ++ k ∷ [] };
        })

module _ {K : Type 0} (key : Key K) where
  -- `buckets[index].emplace_back(...)`
  unfoldable pub enter : List (Bucket K) → K → ℕ → Option (List (Bucket K))
  enter buckets k i = elim (get_elem? buckets (index key buckets k)) [
    | none ↦ none
    | some b ↦ some (set buckets (index key buckets k) (b ++ (k, i) ∷ []))
  ]

  -- The loop of the constructor, for `rounds` more values from `i` on.
  unfoldable pub load_from : ℕ → ℕ → List K → List (Bucket K) → Option (List (Bucket K))
  load_from zero i keys buckets = some buckets
  load_from (suc rounds) i keys buckets = elim (get_elem? keys i) [
    | none ↦ none
    | some k ↦ elim (enter buckets k i) [
      | none ↦ none
      | some buckets' ↦ load_from rounds (i + 1) keys buckets'
    ]
  ]

module _ {K V : Type 0} (key : Key K) where
  -- The constructor, for `n` buckets; `none` is an index out of bounds.
  unfoldable pub rebuild : ℕ → Persistent K V → Option (Runtime K V)
  unfolding enter load_from
  rebuild n p = elim (load_from key (length p.values) 0 p.keys (replicate n [])) [
    | none ↦ none
    | some buckets ↦ some (record { buckets = buckets; stored = p })
  ]

  unfoldable pub get : Runtime K V → K → Lookup V
  get r k = SimpleKv.get key (as_kv r) k

  -- The last statement of `put`, outside of the transaction: it may throw too.
  unfoldable pub enter_last : Room → K → Runtime K V → Outcome (Runtime K V) (Unit {0})
  unfolding enter
  enter_last room k r =
      if not room.third
      then threw bad_alloc r
      else or_fault (enter key r.buckets k (length r.stored.values - 1))
          (λ buckets. done tt (record r { buckets = buckets }))

  -- What `put` does with the result of the search.
  unfoldable pub write_entry :
      Room → K → V → Runtime K V → Option ℕ → Outcome (Runtime K V) (Unit {0})
  unfolding assign_stored append_stored enter_last
  write_entry room k v r (some i) = transaction (assign_stored i v) r
  write_entry room k v r none =
      and_then (transaction (append_stored room k v) r) (λ _ r'. enter_last room k r')

  unfoldable pub put : Room → K → V → Runtime K V → Outcome (Runtime K V) (Unit {0})
  unfolding write_entry
  put room k v r =
      or_fault (get_elem? r.buckets (index key r.buckets k))
        (λ b. write_entry room k v r (find key k b))
