-- ===== src/SimpleKv/Rebuild/Put.antt =====
-- `put` of the runtime object, with every way in which its allocations can fail.
use spack_playground.Prelude.{
  ℕ, ◌-◌, ◌<◌, ◌≡◌, refl, ap, ◌∙◌, ◌⊎◌, inl, inr, true, false, Option, none, some, [], ◌∷◌, ◌++◌,
  arith, lt→ltb, if◌then◌else◌, length, get_elem?, set, Bool-cases, Option-cases, length-append,
  length-set,
}
use spack_playground.Effects.{bad_alloc, Outcome, done, threw, settle, and_then, or_fault}
use spack_playground.SimpleKv.{Key, Room, Bucket, index, find}
use spack_playground.SimpleKv.Slots.{slot, bucket_of, entered}
use spack_playground.SimpleKv.Laws.{Writes, assign-Writes, append-Writes}
use spack_playground.SimpleKv.Runs.{IsFull}
use spack_playground.SimpleKv.Rebuild.{
  Runtime, as_kv, assign_stored, append_stored, enter, enter_last, write_entry, put,
}
use spack_playground.SimpleKv.Rebuild.Keys.{entered-Agrees}
use spack_playground.SimpleKv.Rebuild.Restart.{IsRuntime, IsRuntime-IsValid}

module _ {K V : Type 0} (key : Key K) (r : Runtime K V) (is : IsRuntime key r) (k : K) (v : V) where
  open is use {some_bucket, paired, agrees}

  abbrev assigned : ℕ → Runtime K V
  assigned i = record r { stored = record (r.stored) { values = set r.stored.values i v } }

  abbrev pub stored_pair : Runtime K V
  stored_pair = record r {
    stored = record { values = r.stored.values ++ v ∷ []; keys = r.stored.keys ++ k ∷ [] };
  }

  abbrev entered_pair : Bucket K → Runtime K V
  entered_pair b = record {
    buckets = entered key r.buckets k b (length r.stored.values);
    stored = record { values = r.stored.values ++ v ∷ []; keys = r.stored.keys ++ k ∷ [] };
  }

  -- What `put` of `v` under `k` makes of the object.
  pub record Puts (r' : Runtime K V) : Type 0 where
    pub runtime : IsRuntime key r'
    pub writes : Writes key (as_kv r) (as_kv r') k v

  assigned-Puts : (i : ℕ) → slot key r.buckets k ≡ some i → Puts (assigned i)
  assigned-Puts i at_k = record {
    runtime = record {
      some_bucket = some_bucket;
      paired = length-set r.stored.values i v ∙ paired;
      agrees = agrees;
    };
    writes = assign-Writes key (as_kv r) (IsRuntime-IsValid key r is) k v i at_k;
  }

  entered_pair-Puts :
      (b : Bucket K)
      → get_elem? r.buckets (index key r.buckets k) ≡ some b
      → find key k b ≡ none
      → Puts (entered_pair b)
  entered_pair-Puts b here missing =
      let writes = append-Writes key (as_kv r) (IsRuntime-IsValid key r is) k v b here missing in
      record {
        runtime = record {
          some_bucket = writes.valid.some_bucket;
          paired = omega (
            arith,
            paired,
            length-append r.stored.values (v ∷ []),
            length-append r.stored.keys (k ∷ []),
          );
          agrees = λ j.
              ap (λ t. slot key (entered key r.buckets k b t) j) paired
              ∙ entered-Agrees key r.buckets r.stored.keys k b some_bucket agrees here j;
        };
        writes = writes;
      }

  assign_stored_run :
      (room : Room) (i : ℕ)
      → i < length r.stored.values
      → write_entry key room k v r (some i) ≡ done tt (assigned i)
  unfolding write_entry
  assign_stored_run room i lt = ap (settle r) assigns
    where
      assigns : assign_stored i v r ≡ done tt (assigned i)
      assigns = rw (assign_stored, lt→ltb i (length r.stored.values) lt) refl

  -- The stages of an insertion: which allocation fails decides what is left.
  stored_run :
      (room : Room)
      → room.first ≡ true
      → room.second ≡ true
      → append_stored room k v r ≡ done tt stored_pair
  unfolding append_stored
  stored_run room first second = rw (append_stored, first, second) refl

  full_run :
      (room : Room)
      → (room.first ≡ false) ⊎ ((room.first ≡ true) × (room.second ≡ false))
      → settle r (append_stored room k v r) ≡ threw bad_alloc r
  unfolding append_stored
  full_run room (inl full) = ap (settle r) (first_full full)
    where
      first_full : room.first ≡ false → append_stored room k v r ≡ threw bad_alloc r
      first_full e = rw (e, append_stored) refl
  full_run room (inr (first, full)) = ap (settle r) (second_full first full)
    where
      second_full :
          room.first ≡ true
          → room.second ≡ false
          → append_stored room k v r
            ≡ threw bad_alloc
                (record r { stored = record (r.stored) { values = r.stored.values ++ v ∷ [] } })
      second_full e f = rw (e, f, append_stored) refl

  enter_run :
      (b : Bucket K) (i : ℕ)
      → get_elem? r.buckets (index key r.buckets k) ≡ some b
      → enter key r.buckets k i ≡ some (entered key r.buckets k b i)
  unfolding enter
  enter_run b i here = rw (here, enter) refl

  last_run :
      (room : Room) (b : Bucket K)
      → get_elem? r.buckets (index key r.buckets k) ≡ some b
      → enter_last key room k stored_pair
        ≡ (if room.third then done tt (entered_pair b) else threw bad_alloc stored_pair)
  unfolding enter_last
  last_run room b here =
      let last : length (r.stored.values ++ v ∷ []) - 1 ≡ length r.stored.values =
        omega (arith, length-append r.stored.values (v ∷ [])) in
      elim (Bool-cases room.third) [
        | inl third ↦
            rw (enter_last, third)
              (ap (λ o. or_fault o (λ buckets. done tt (record stored_pair { buckets = buckets })))
                (ap (enter key r.buckets k) last ∙ enter_run b (length r.stored.values) here))
        | inr full ↦ rw (enter_last, full) refl
      ]

  -- Where only the last allocation fails, a pair of a new key is stored and not entered.
  pub half_run :
      (room : Room) (b : Bucket K)
      → get_elem? r.buckets (index key r.buckets k) ≡ some b
      → find key k b ≡ none
      → room.first ≡ true
      → room.second ≡ true
      → room.third ≡ false
      → put key room k v r ≡ threw bad_alloc stored_pair
  unfolding write_entry put
  half_run room b here missing first second full =
      let next =
        λ (o : Outcome (Runtime K V) (Unit {0})). and_then o (λ _ r'. enter_last key room k r') in
      rw (here, put) (ap (write_entry key room k v r) missing)
      ∙ ap (λ o. next (settle r o)) (stored_run room first second)
      ∙ last_run room b here
      ∙ ap (λ t. if t then done tt (entered_pair b) else threw bad_alloc stored_pair) full

  append_run :
      (room : Room) (b : Bucket K)
      → get_elem? r.buckets (index key r.buckets k) ≡ some b
      → ((write_entry key room k v r none ≡ threw bad_alloc r) × IsFull room)
        ⊎ ((write_entry key room k v r none ≡ done tt (entered_pair b))
            ⊎ ((write_entry key room k v r none ≡ threw bad_alloc stored_pair)
                × (room.third ≡ false)))
  unfolding write_entry
  append_run room b here =
      let next =
        λ (o : Outcome (Runtime K V) (Unit {0})). and_then o (λ _ r'. enter_last key room k r') in
      elim (Bool-cases room.first) [
        | inr full ↦ inl (ap next (full_run room (inl full)), inl full)
        | inl first ↦ elim (Bool-cases room.second) [
          | inr full ↦ inl (ap next (full_run room (inr (first, full))), inr full)
          | inl second ↦
              let stored = ap (λ o. next (settle r o)) (stored_run room first second) in
              elim (Bool-cases room.third) [
                | inl third ↦ inr (
                    inl (
                      stored
                      ∙ last_run room b here
                      ∙ ap
                          (λ t. if t then done tt (entered_pair b) else threw bad_alloc stored_pair)
                          third))
                | inr full ↦ inr (
                    inr (
                      stored
                          ∙ last_run room b here
                          ∙ ap
                              (λ t.
                                if t then done tt (entered_pair b) else threw bad_alloc stored_pair)
                              full,
                      full,
                    ))
              ]
        ]
      ]

  put_run :
      (room : Room) (b : Bucket K) (o : Option ℕ)
      → get_elem? r.buckets (index key r.buckets k) ≡ some b
      → find key k b ≡ o
      → put key room k v r ≡ write_entry key room k v r o
  unfolding put
  put_run room b o here e = rw (here, put) (ap (write_entry key room k v r) e)

  -- `put` has three ends. It maps the key to the value, changes no other key and keeps the object
  -- in step; or, where one of the two allocations of its transaction failed, it throws `bad_alloc`
  -- with nothing changed; or, where the last allocation failed, it throws `bad_alloc` behind the
  -- commit: key and value are stored at the end of the persistent vectors and the volatile buckets do
  -- not know of them.
  pub put-Puts :
      (room : Room)
      → ((r' : Runtime K V) × (put key room k v r ≡ done tt r') × Puts r')
        ⊎ (((put key room k v r ≡ threw bad_alloc r) × IsFull room)
            ⊎ ((put key room k v r ≡ threw bad_alloc stored_pair) × (room.third ≡ false)))
  put-Puts room =
      let (b, here, e) = bucket_of key r.buckets k some_bucket in
      elim (Option-cases (find key k b)) [
        | inl missing ↦
            let start = put_run room b none here missing in
            elim (append_run room b here) [
              | inl (full, why) ↦ inr (inl (start ∙ full, why))
              | inr (inl run) ↦ inl (entered_pair b, start ∙ run, entered_pair-Puts b here missing)
              | inr (inr (half, why)) ↦ inr (inr (start ∙ half, why))
            ]
        | inr (i, hit) ↦
            let at_k = e ∙ hit in
            let lt : i < length r.stored.values = (IsRuntime-IsValid key r is).bounded k i at_k in
            inl (
              assigned i,
              put_run room b (some i) here hit ∙ assign_stored_run room i lt,
              assigned-Puts i at_k,
            )
      ]
