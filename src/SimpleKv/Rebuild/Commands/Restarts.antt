-- ===== src/SimpleKv/Rebuild/Commands/Restarts.antt =====
-- The commands against a finite map, and what a restart shows after them.
use spack_playground.Prelude.{
  ℕ, ◌≡◌, refl, sym, ap, ◌∙◌, ◌⊎◌, inl, inr, true, false, Option, none, some, List, [], ◌∷◌, ◌++◌,
  if◌then◌else◌, arith, Bool-cases, length, length-append,
}
use spack_playground.Prelude.Texts.{same_text}
use spack_playground.SimpleKv.{Key, Room, Lookup, found, absent, read_value}
use spack_playground.SimpleKv.Slots.{or_else}
use spack_playground.SimpleKv.Laws.{
  read_slot, get-slot, read_value-append_last, read_value-append_left,
}
use spack_playground.SimpleKv.Command.{
  Text, get_text, put_text, Line, usage, answer, failure, kv_buckets,
}
use spack_playground.SimpleKv.Runs.{IsFull}
use spack_playground.SimpleKv.Rebuild.{Persistent, Runtime, as_kv, rebuild, get}
use spack_playground.SimpleKv.Rebuild.Keys.{index_of, index_of-append_last, index_of-lt}
use spack_playground.SimpleKv.Rebuild.Restart.{IsRuntime, rebuild-get}
use spack_playground.SimpleKv.Rebuild.Put.{stored_pair}
use spack_playground.SimpleKv.Rebuild.Bug.{rebuild_shows}
use spack_playground.SimpleKv.Rebuild.Commands.{exit_text, Input, Session}

module _ {I V : Type 0} (cin : Input I V) (key : Key Text) where
  abbrev pub Map : Type 0
  Map = Text → Lookup V

  abbrev pub update : Map → Text → V → Map
  update f k v j = if key.same k j then found v else f j

  -- What is read at `i`, and what is left of the input.
  abbrev pub Reads : I → Option Text → I → Type 0
  Reads i w i' = cin.word i ≡ (w, i')

  abbrev pub Counts : I → Option V → I → Type 0
  Counts i n i' = cin.number i ≡ (n, i')

  -- A restart on what is stored shows the map.
  abbrev pub Shows : Option (Persistent Text V) → Map → Type 0
  Shows none g = ⊥
  Shows (some p) g =
      (r : Runtime Text V) × (rebuild key kv_buckets p ≡ some r) × ((j : Text) → get key r j ≡ g j)

  module _ (room : ℕ → Room) where
    -- What the commands do to the map: the lines that are printed and the map that a restart shows. A
    -- put fails only where an allocation does.
    pub data Runs : I → Map → List (Line V) → Map → Type 0 where
      ends : {i i' : I} {f : Map} → Reads i none i' → Runs i f [] f
      leaves : {i i' : I} {f : Map} → Reads i (some exit_text) i' → Runs i f [] f
      gets :
          {i i₁ i₂ : I} {f g : Map} {ls : List (Line V)} {k : Text} {v : V}
          → Reads i (some get_text) i₁
          → Reads i₁ (some k) i₂
          → f k ≡ found v
          → Runs i₂ f ls g
          → Runs i f (answer v ∷ ls) g
      misses :
          {i i₁ i₂ : I} {f : Map} {k : Text}
          → Reads i (some get_text) i₁
          → Reads i₁ (some k) i₂
          → f k ≡ absent
          → Runs i f (failure ∷ []) f
      puts :
          {i i₁ i₂ i₃ : I} {f g : Map} {ls : List (Line V)} {k : Text} {v : V}
          → Reads i (some put_text) i₁
          → Reads i₁ (some k) i₂
          → Counts i₂ (some v) i₃
          → Runs i₃ (update f k v) ls g
          → Runs i f ls g
      put_fails :
          {i i₁ i₂ i₃ : I} {f g : Map} {k : Text} {v : V}
          → Reads i (some put_text) i₁
          → Reads i₁ (some k) i₂
          → Counts i₂ (some v) i₃
          → (n : ℕ) → IsFull (room n) ⊎ ((room n).third ≡ false)
          → ((j : Text) → (g j ≡ f j) ⊎ ((key.same k j ≡ true) × (g j ≡ found v)))
          → Runs i f (failure ∷ []) g
      unknown :
          {i i' : I} {op : Text} {f g : Map} {ls : List (Line V)}
          → Reads i (some op) i'
          → same_text op get_text ≡ false
          → same_text op put_text ≡ false
          → same_text op exit_text ≡ false
          → Runs i' f ls g
          → Runs i f (usage ∷ ls) g
      gets_nothing :
          {i i₁ i₂ : I} {f g : Map} {ls : List (Line V)}
          → Reads i (some get_text) i₁
          → Reads i₁ none i₂
          → Runs i₂ f ls g
          → Runs i f (usage ∷ ls) g
      puts_nothing :
          {i i₁ i₂ : I} {f g : Map} {ls : List (Line V)}
          → Reads i (some put_text) i₁
          → Reads i₁ none i₂
          → Runs i₂ f ls g
          → Runs i f (usage ∷ ls) g
      puts_no_number :
          {i i₁ i₂ i₃ : I} {f g : Map} {ls : List (Line V)} {k : Text}
          → Reads i (some put_text) i₁
          → Reads i₁ (some k) i₂
          → Counts i₂ none i₃
          → Runs i₃ f ls g
          → Runs i f (usage ∷ ls) g

    abbrev pub Explained : Option (Session V) → I → Map → Type 0
    Explained o i f =
        (s : Session V) × (o ≡ some s) × ((g : Map) × Runs i f s.lines g × Shows s.root g)

  module _ (r : Runtime Text V) (is : IsRuntime key r) (ten : length r.buckets ≡ kv_buckets) where
    pub kept-Shows : Shows (some r.stored) (get key r)
    kept-Shows =
        let (r', run, same, valid, shown) = rebuild-get key r is in
        (r', ap (λ n. rebuild key n r.stored) (sym ten) ∙ run, shown)

    -- a put that threw behind its commit
    pub half-Shows :
        (k : Text) (v : V)
        → (g : Map) × Shows (some (stored_pair key r is k v).stored) g
          × ((j : Text) → (g j ≡ get key r j) ⊎ ((key.same k j ≡ true) × (g j ≡ found v)))
    unfolding or_else get
    half-Shows k v =
        let p = (stored_pair key r is k v).stored in
        let (r', run, shows) = rebuild_shows key kv_buckets p (omega arith) (
          omega (
            arith,
            is.paired,
            length-append r.stored.values (v ∷ []),
            length-append r.stored.keys (k ∷ []),
          )) in
        (
          get key r',
          (r', run, λ j. refl),
          λ j. by_index j (index_of key j r.stored.keys) (Bool-cases (key.same k j)) refl (
              shows j
              ∙ ap (read_slot (r.stored.values ++ v ∷ []))
                  (index_of-append_last key k j r.stored.keys)),
        )
      where
        before : (j : Text) → get key r j ≡ read_slot r.stored.values (index_of key j r.stored.keys)
        before j =
            get-slot key (as_kv r) j is.some_bucket ∙ ap (read_slot r.stored.values) (is.agrees j)

        by_index :
            (j : Text) (o : Option ℕ)
            → (key.same k j ≡ true) ⊎ (key.same k j ≡ false)
            → index_of key j r.stored.keys ≡ o
            → {l : Lookup V}
            → l
              ≡ read_slot (r.stored.values ++ v ∷ []) (
                  or_else
                    (index_of key j r.stored.keys)
                    (if key.same k j then some (length r.stored.keys) else none))
            → (l ≡ get key r j) ⊎ ((key.same k j ≡ true) × (l ≡ found v))
        by_index j (some n) same e at = inl (
            at
            ∙ ap
                (λ o.
                  read_slot (r.stored.values ++ v ∷ [])
                    (or_else o (if key.same k j then some (length r.stored.keys) else none)))
                e
            ∙ read_value-append_left r.stored.values n v
                (omega (arith, is.paired, index_of-lt key j r.stored.keys n e))
            ∙ sym (before j ∙ ap (read_slot r.stored.values) e))
        by_index j none (inl same) e at = inr (
          same,
          at
              ∙ ap
                  (λ o.
                    read_slot (r.stored.values ++ v ∷ [])
                      (or_else o (if key.same k j then some (length r.stored.keys) else none)))
                  e
              ∙ ap
                  (λ b.
                    read_slot (r.stored.values ++ v ∷ [])
                      (if b then some (length r.stored.keys) else none))
                  same
              ∙ ap (read_value (r.stored.values ++ v ∷ [])) (sym is.paired)
              ∙ read_value-append_last r.stored.values v,
        )
        by_index j none (inr other) e at = inl (
            at
            ∙ ap
                (λ o.
                  read_slot (r.stored.values ++ v ∷ [])
                    (or_else o (if key.same k j then some (length r.stored.keys) else none)))
                e
            ∙ ap
                (λ b.
                  read_slot (r.stored.values ++ v ∷ [])
                    (if b then some (length r.stored.keys) else none))
                other
            ∙ sym (before j ∙ ap (read_slot r.stored.values) e))
