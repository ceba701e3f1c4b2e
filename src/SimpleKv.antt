-- ===== src/SimpleKv.antt =====
-- targets/apps/ppm_ch11_4_simplekv/simplekv.hpp and
-- targets/apps/ppm_ch11_5_simplekv_rebuild/simplekv_rebuild.hpp: a hash table from keys to indices of
-- a value vector. The array of N buckets is a list of length N.
pub mod Slots
pub mod Laws
pub mod Runs
pub mod Rebuild
pub mod Command
mod Examples
use spack_playground.Prelude.{
  ℕ, zero, suc, ◌+◌, ◌-◌, ◌%◌, ◌≡◌, ◌↔◌, Bool, true, false, not, Option, none, some, List, [], ◌∷◌,
  ◌++◌, ltb, if◌then◌else◌, length, get_elem?, set, replicate,
}
use spack_playground.Effects.{
  Exception, bad_alloc, Outcome, done, threw, fault, or_fault, and_then, transaction,
}

-- `std::string` with its equality, and `std::hash` of which nothing but its result is used.
pub record Key (K : Type 0) : Type 0 where
  pub same : K → K → Bool
  pub same_iff : (a b : K) → (same a b ≡ true) ↔ (a ≡ b)
  pub hash : K → ℕ

-- Whether the allocations that an insertion makes succeed, in their order.
pub record Room : Type 0 where
  pub first : Bool
  pub second : Bool
  pub third : Bool

-- `get` throws `out_of_range` where it finds nothing; `undefined` is an index out of bounds.
pub data Lookup (V : Type 0) : Type 0 where
  found : V → Lookup V
  absent : Lookup V
  undefined : Lookup V

abbrev pub Bucket : Type 0 → Type 0
Bucket K = List (K × ℕ)

-- `class simple_kv`
pub record SimpleKv (K V : Type 0) : Type 0 where
  pub buckets : List (Bucket K)
  pub values : List V

module _ {K : Type 0} (key : Key K) where
  -- `std::hash<std::string>{}(key) % N`
  abbrev pub index : List (Bucket K) → K → ℕ
  index buckets k = key.hash k % length buckets

  -- The loop over a bucket.
  unfoldable pub find : K → Bucket K → Option ℕ
  find k [] = none
  find k ((j, i) ∷ b) = if key.same j k then some i else find k b

module _ {V : Type 0} where
  -- `values[i]` for reading
  unfoldable pub read_value : List V → ℕ → Lookup V
  read_value values i = elim (get_elem? values i) [ none ↦ undefined | some v ↦ found v ]

module _ {K V : Type 0} where
  abbrev pub new_kv : ℕ → SimpleKv K V
  new_kv n = record { buckets = replicate n []; values = [] }

  -- The transaction of `put` on an entry that was found.
  unfoldable pub assign : ℕ → V → SimpleKv K V → Outcome (SimpleKv K V) (Unit {0})
  assign i v kv =
      if ltb i (length kv.values) then done tt (record kv { values = set kv.values i v }) else fault

module _ {K V : Type 0} (key : Key K) where
  unfoldable pub get : SimpleKv K V → K → Lookup V
  unfolding find read_value
  get kv k = elim (get_elem? kv.buckets (index key kv.buckets k)) [
    | none ↦ undefined
    | some b ↦ elim (find key k b) [ none ↦ absent | some i ↦ read_value kv.values i ]
  ]

  -- The transaction of `put` on a key that was not found: either `emplace_back` may throw.
  unfoldable pub append_entry : Room → K → V → SimpleKv K V → Outcome (SimpleKv K V) (Unit {0})
  append_entry room k v kv =
      if not room.first
      then threw bad_alloc kv
      else let longer = kv.values ++ v ∷ [] in
        if not room.second
        then threw bad_alloc (record kv { values = longer })
        else or_fault (get_elem? kv.buckets (index key kv.buckets k)) (λ b. done tt (record {
          buckets = set kv.buckets (index key kv.buckets k) (b ++ (k, length longer - 1) ∷ []);
          values = longer;
        }))

  -- What `put` does with the result of the search.
  unfoldable pub write_entry :
      Room → K → V → SimpleKv K V → Option ℕ → Outcome (SimpleKv K V) (Unit {0})
  unfolding assign append_entry
  write_entry room k v kv (some i) = transaction (assign i v) kv
  write_entry room k v kv none = transaction (append_entry room k v) kv

  unfoldable pub put : Room → K → V → SimpleKv K V → Outcome (SimpleKv K V) (Unit {0})
  unfolding find write_entry
  put room k v kv =
      or_fault (get_elem? kv.buckets (index key kv.buckets k))
        (λ b. write_entry room k v kv (find key k b))
