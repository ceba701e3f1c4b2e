-- ===== src/SimpleKv/Command/Processes.antt =====
-- Processes one after the other on one pool: what one puts, later ones get.
use spack_playground.Prelude.{
  ◌≡◌, refl, ap, ◌∙◌, ◌⊎◌, inl, inr, Bool, true, false, Option, none, some, [], ◌∷◌, if◌then◌else◌,
  arith, Option-cases, get_elem?-is_some,
}
use spack_playground.Effects.{Exception}
use spack_playground.SimpleKv.{
  Key, Room, SimpleKv, Lookup, found, absent, undefined, new_kv, get, put, read_value,
}
use spack_playground.SimpleKv.Slots.{slot}
use spack_playground.SimpleKv.Laws.{IsValid, read_slot, get-slot, new_kv-IsValid}
use spack_playground.SimpleKv.Runs.{IsFull, put-Writes}
use spack_playground.SimpleKv.Command.{
  Text, get_text, put_text, Line, answer, failure, Root, Process, kv_buckets, process, print,
  stored, command, main,
}

module _ {V : Type 0} (key : Key Text) where
  abbrev pub IsRoot : Root V → Type 0
  IsRoot none = Unit {0}
  IsRoot (some kv) = IsValid key kv

  -- the table of a root: an empty one where none is stored
  abbrev pub table : Root V → SimpleKv Text V
  table none = new_kv kv_buckets
  table (some kv) = kv

  pub table-IsValid : (r : Root V) → IsRoot r → IsValid key (table r)
  table-IsValid none is = (new_kv-IsValid key kv_buckets (omega arith)).0
  table-IsValid (some kv) is = is

  -- the line that answers a `get`
  abbrev pub reply : Lookup V → Line V
  reply (found v) = answer v
  reply absent = failure
  reply undefined = failure

  -- `get` of a well-formed table reads no index out of bounds.
  pub get-defined :
      (kv : SimpleKv Text V) (k : Text)
      → IsValid key kv
      → (get key kv k ≡ absent) ⊎ ((v : V) × (get key kv k ≡ found v))
  unfolding read_value
  get-defined kv k valid = elim (Option-cases (slot key kv.buckets k)) [
    | inl e ↦ inl (get-slot key kv k valid.some_bucket ∙ ap (read_slot kv.values) e)
    | inr (i, e) ↦
        let (v, at) = get_elem?-is_some kv.values i (valid.bounded k i e) in
        inr (
          v,
          get-slot key kv k valid.some_bucket
              ∙ ap (read_slot kv.values) e
              ∙ ap (λ o. elim o as (λ _. Lookup V) [ none ↦ undefined | some w ↦ found w ]) at,
        )
  ]

  module _ (stoi : Text → Option V) (room : Room) (close : Exception) where
    put_command :
        (k t : Text) (v : V) (kv : SimpleKv Text V)
        → stoi t ≡ some v
        → command key stoi room put_text (k ∷ t ∷ []) kv ≡ stored (put key room k v kv)
    unfolding command
    put_command k t v kv e =
        ap
          (λ o. elim o as (λ _. Option (Process V)) [
            | none ↦ process (failure ∷ []) 0 (some kv)
            | some w ↦ stored (put key room k w kv)
          ])
          e

    -- What the process of a `put` and that of a `get` do to the root.
    main-put :
        (r : Root V) (program path k t : Text) (v : V)
        → stoi t ≡ some v
        → main key stoi room close true (some r) r (program ∷ path ∷ put_text ∷ k ∷ t ∷ [])
          ≡ stored (put key room k v (table r))
    unfolding main
    main-put none program path k t v e = put_command k t v (new_kv kv_buckets) e
    main-put (some kv) program path k t v e = put_command k t v kv e

    main-get :
        (r : Root V) (program path k : Text)
        → main key stoi room close true (some r) r (program ∷ path ∷ get_text ∷ k ∷ [])
          ≡ print (get key (table r) k) (table r)
    unfolding main
    main-get none program path k = refl
    main-get (some kv) program path k = refl

    get_prints :
        (r : Root V) (program path k : Text)
        → IsRoot r
        → main key stoi room close true (some r) r (program ∷ path ∷ get_text ∷ k ∷ [])
          ≡ process (reply (get key (table r) k) ∷ []) 0 (some (table r))
    get_prints r program path k is =
        main-get r program path k ∙ elim (get-defined (table r) k (table-IsValid r is)) [
          | inl e ↦ rw e refl
          | inr (v, e) ↦ rw e refl
        ]

  -- Where the pool opens with a well-formed table or none, and there is memory for the table, a
  -- process that puts a number under a key ends with 0. It has made the key map to the value, which
  -- the processes that get a key print, each other key being as before; or, where the put found no
  -- memory, it has reported a failure and every key is as before.
  pub main-remembers :
      (stoi : Text → Option V) (room : Room) (close : Exception) (r : Root V)
      (program path k t : Text) (v : V)
      → IsRoot r
      → stoi t ≡ some v
      → (r' : Root V) × IsRoot r'
        × (((main key stoi room close true (some r) r (program ∷ path ∷ put_text ∷ k ∷ t ∷ [])
                ≡ process [] 0 r')
              × ((j : Text)
                  → main key stoi room close true (some r') r' (program ∷ path ∷ get_text ∷ j ∷ [])
                    ≡ process
                        ((if key.same k j then answer v else reply (get key (table r) j)) ∷ [])
                        0
                        r'))
            ⊎ (IsFull room
                × (main key stoi room close true (some r) r (program ∷ path ∷ put_text ∷ k ∷ t ∷ [])
                    ≡ process (failure ∷ []) 0 r')
                × ((j : Text)
                    → main key stoi room close true
                        (some r')
                        r'
                        (program ∷ path ∷ get_text ∷ j ∷ [])
                      ≡ process (reply (get key (table r) j) ∷ []) 0 r')))
  main-remembers stoi room close r program path k t v is e =
      let valid = table-IsValid r is in
      elim (put-Writes key (table r) valid k v room) [
        | inl (kv', run, writes) ↦ (
          some kv',
          writes.valid,
          inl (
            main-put stoi room close r program path k t v e ∙ ap stored run,
            λ j.
                get_prints stoi room close (some kv') program path j writes.valid
                ∙ ap (λ l. process (l ∷ []) 0 (some kv'))
                    (ap reply (writes.reads j) ∙ by_test (key.same k j) (get key (table r) j)),
          ),
        )
        | inr (full, why) ↦ (
          some (table r),
          valid,
          inr (
            why,
            main-put stoi room close r program path k t v e ∙ ap stored full,
            λ j. get_prints stoi room close (some (table r)) program path j valid,
          ),
        )
      ]
    where
      by_test :
          (b : Bool) (l : Lookup V)
          → reply (if b then found v else l) ≡ (if b then answer v else reply l)
      by_test true l = refl
      by_test false l = refl
