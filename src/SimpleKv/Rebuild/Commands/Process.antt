-- ===== src/SimpleKv/Rebuild/Commands/Process.antt =====
-- A whole process on what an earlier one left in the pool.
use spack_playground.Prelude.{
  ℕ, ◌<◌, ◌≤◌, ◌≡◌, refl, ap, ◌∙◌, true, false, Option, none, some, List, [], ◌∷◌, arith, ltb,
  length,
}
use spack_playground.Effects.{Exception}
use spack_playground.SimpleKv.{Key, Room, Bucket, absent}
use spack_playground.SimpleKv.Laws.{read_slot, get-slot}
use spack_playground.SimpleKv.Command.{Text, Line, usage, returned, kv_buckets}
use spack_playground.SimpleKv.Rebuild.{Persistent, Runtime, as_kv, rebuild, get}
use spack_playground.SimpleKv.Rebuild.Keys.{index_of, load-Agrees}
use spack_playground.SimpleKv.Rebuild.Commands.{
  Input, Root, Session, line, command_loop, serve, try_block, main,
}
use spack_playground.SimpleKv.Rebuild.Commands.Restarts.{Map, Runs, Shows}
use spack_playground.SimpleKv.Rebuild.Commands.Rounds.{Serves}
use spack_playground.SimpleKv.Rebuild.Commands.Loop.{loop-Explained}

some_buckets : 0 < kv_buckets
some_buckets = omega arith

module _ {I V : Type 0} (cin : Input I V) (key : Key Text) where
  -- Keys and values are paired in the pool, where there is an object.
  abbrev pub IsStored : Root V → Type 0
  IsStored none = Unit {0}
  IsStored (some p) = length p.values ≡ length p.keys

  -- the map that is stored: the value at the first position of the key
  abbrev pub stored_map : Root V → Map cin key
  stored_map none j = absent
  stored_map (some p) j = read_slot p.values (index_of key j p.keys)

  module _ (room : ℕ → Room) (close : Exception) (k : ℕ) (i : I) (enough : cin.left i < k) where
    -- A session behind the first line, which shows the commands.
    abbrev pub Served : Option (Session V) → Map cin key → Type 0
    Served o f =
        (s : Session V) × (o ≡ some s)
        × ((ls : List (Line V)) × (g : Map cin key) × (s.lines ≡ usage ∷ ls)
            × Runs cin key room i f ls g
            × Shows cin key s.root g)

    rebuilt-Serves :
        (p : Persistent Text V) (f : Map cin key)
        → length p.values ≡ length p.keys
        → ((j : Text) → stored_map (some p) j ≡ f j)
        → (r : Runtime Text V) × (rebuild key kv_buckets p ≡ some r) × Serves cin key r f
    unfolding rebuild get
    rebuilt-Serves p f paired is_map =
        let (buckets, loaded, ten, agrees) = load-Agrees key kv_buckets p.keys some_buckets in
        let r : Runtime Text V = record { buckets = buckets; stored = p } in
        (
          r,
          rw (paired, loaded, rebuild) refl,
          record {
            is = record { some_bucket = positive buckets ten; paired = paired; agrees = agrees };
            ten = ten;
            shows = λ j.
                get-slot key (as_kv r) j (positive buckets ten)
                ∙ ap (read_slot p.values) (agrees j)
                ∙ is_map j;
          },
        )
      where
        positive : (buckets : List (Bucket Text)) → length buckets ≡ kv_buckets → 0 < length buckets
        positive buckets e = omega arith

    serve-Served :
        (p : Persistent Text V) (f : Map cin key)
        → length p.values ≡ length p.keys
        → ((j : Text) → stored_map (some p) j ≡ f j)
        → Served (serve cin key room k i p) f
    unfolding serve
    serve-Served p f paired is_map =
        let (r, made, serves) = rebuilt-Serves p f paired is_map in
        let (s, run, (g, runs, shows)) = loop-Explained cin key room k i r f serves enough in
        (
          record s { lines = usage ∷ s.lines },
          ap
                (λ o. elim o as (λ _. Option (Session V)) [
                  | none ↦ none
                  | some r' ↦ line usage (command_loop cin key room k i r')
                ])
                made
              ∙ ap (line usage) run,
          (s.lines, g, refl, runs, shows),
        )

    try-Served :
        (root : Root V)
        → IsStored root
        → Served (try_block cin key room true k i root) (stored_map root)
    unfolding try_block index_of
    try-Served none is =
        serve-Served (record { values = []; keys = [] }) (stored_map none) refl (λ j. refl)
    try-Served (some p) is = serve-Served p (stored_map (some p)) is (λ j. refl)

    -- Where the pool opens, what it stores has a key for each value, and there is memory for the
    -- object, a process with its argument ends with 0 once its input is read. What it prints is what
    -- the commands do to the stored map, and the map after them is what the next process finds: a put
    -- fails only where an allocation does, and has then taken effect on its own key or not at all.
    pub main-Served :
        (root : Root V) (argc : ℕ)
        → IsStored root
        → 2 ≤ argc
        → (s : Session V) × (main cin key room close argc true (some root) root k i
            ≡ some (s, returned 0))
          × ((ls : List (Line V)) × (g : Map cin key) × (s.lines ≡ usage ∷ ls)
              × Runs cin key room i (stored_map root) ls g
              × Shows cin key s.root g)
    unfolding main
    main-Served root argc is named =
        let (s, run, more) = try-Served root is in
        let at_least : ltb argc 2 ≡ false = ground arith in (s, rw (main, at_least, run) refl, more)
