-- ===== src/SimpleKv/Runs.antt =====
-- The runs of `put`: which allocation fails decides what it returns.
use spack_playground.Prelude.{
  ℕ, ◌-◌, ◌<◌, ◌≡◌, refl, ap, ◌∙◌, ◌⊎◌, inl, inr, true, false, Option, none, some, [], ◌∷◌, ◌++◌,
  arith, lt→ltb, length, get_elem?, set, Bool-cases, Option-cases, length-append,
}
use spack_playground.Effects.{bad_alloc, Outcome, done, threw, transaction, settle}
use spack_playground.SimpleKv.{
  Key, Room, Bucket, SimpleKv, index, find, assign, append_entry, write_entry, put,
}
use spack_playground.SimpleKv.Slots.{bucket_of}
use spack_playground.SimpleKv.Laws.{IsValid, Writes, appended, assign-Writes, append-Writes}

-- one of the allocations of an insertion fails
abbrev pub IsFull : Room → Type 0
IsFull room = (room.first ≡ false) ⊎ (room.second ≡ false)

module _ {K V : Type 0} (key : Key K) where
  module _ (kv : SimpleKv K V) (valid : IsValid key kv) (k : K) (v : V) where
    open valid use {some_bucket, bounded}

    module _ (b : Bucket K) (here : get_elem? kv.buckets (index key kv.buckets k) ≡ some b)
        (missing : find key k b ≡ none) where
      append_entry_done :
          (room : Room)
          → room.first ≡ true
          → room.second ≡ true
          → append_entry key room k v kv ≡ done tt (appended key kv valid k v b)
      unfolding append_entry
      append_entry_done room first second =
          let last : length (kv.values ++ v ∷ []) - 1 ≡ length kv.values =
            omega (arith, length-append kv.values (v ∷ [])) in
          rw (append_entry, first, second, here, last) refl

      first_full :
          (room : Room) → room.first ≡ false → append_entry key room k v kv ≡ threw bad_alloc kv
      unfolding append_entry
      first_full room full = rw (full, append_entry) refl

      second_full :
          (room : Room)
          → room.first ≡ true
          → room.second ≡ false
          → append_entry key room k v kv
            ≡ threw bad_alloc (record kv { values = kv.values ++ v ∷ [] })
      unfolding append_entry
      second_full room first full = rw (first, full, append_entry) refl

      append_entry_run :
          (room : Room)
          → (transaction (append_entry key room k v) kv ≡ done tt (appended key kv valid k v b))
            ⊎ ((transaction (append_entry key room k v) kv ≡ threw bad_alloc kv) × IsFull room)
      unfolding append_entry
      append_entry_run room = elim (Bool-cases room.first) [
        | inr full ↦ inr (ap (settle kv) (first_full room full), inl full)
        | inl first ↦ elim (Bool-cases room.second) [
          | inr full ↦ inr (ap (settle kv) (second_full room first full), inr full)
          | inl second ↦ inl (ap (settle kv) (append_entry_done room first second))
        ]
      ]

    run_none :
        {o : Outcome (SimpleKv K V) (Unit {0})} (room : Room)
        → transaction (append_entry key room k v) kv ≡ o
        → write_entry key room k v kv none ≡ o
    unfolding write_entry
    run_none room e = e

    put_run :
        (room : Room) (b : Bucket K) (o : Option ℕ)
        → get_elem? kv.buckets (index key kv.buckets k) ≡ some b
        → find key k b ≡ o
        → put key room k v kv ≡ write_entry key room k v kv o
    unfolding put
    put_run room b o here e = rw (here, put) (ap (write_entry key room k v kv) e)

    assign_done :
        (i : ℕ)
        → i < length kv.values
        → assign i v kv ≡ done tt (record kv { values = set kv.values i v })
    unfolding assign
    assign_done i lt = rw (assign, lt→ltb i (length kv.values) lt) refl

    assign_run :
        (room : Room) (i : ℕ)
        → i < length kv.values
        → write_entry key room k v kv (some i) ≡ done tt (record kv { values = set kv.values i v })
    unfolding write_entry
    assign_run room i lt = ap (settle kv) (assign_done i lt)

    -- `put` makes the key map to the value and changes no other key; or, where one of its two allocations
    -- failed, it throws `bad_alloc` and the table is as before.
    pub put-Writes :
        (room : Room)
        → ((kv' : SimpleKv K V) × (put key room k v kv ≡ done tt kv') × Writes key kv kv' k v)
          ⊎ ((put key room k v kv ≡ threw bad_alloc kv) × IsFull room)
    put-Writes room =
        let (b, here, e) = bucket_of key kv.buckets k some_bucket in
        elim (Option-cases (find key k b)) [
          | inl missing ↦ elim (append_entry_run b here missing room) [
            | inl run ↦ inl (
              appended key kv valid k v b,
              put_run room b none here missing ∙ run_none room run,
              append-Writes key kv valid k v b here missing,
            )
            | inr (full, why) ↦ inr (put_run room b none here missing ∙ run_none room full, why)
          ]
          | inr (i, hit) ↦ inl (
            record kv { values = set kv.values i v },
            put_run room b (some i) here hit ∙ assign_run room i (bounded k i (e ∙ hit)),
            assign-Writes key kv valid k v i (e ∙ hit),
          )
        ]
