-- ===== src/SimpleKv/Rebuild/Commands/Loop.antt =====
-- The command loop of the rebuilt table ends, and the map explains it.
use spack_playground.Prelude.{
  ℕ, zero, suc, ◌<◌, ◌≡◌, refl, sym, ap, ◌∙◌, inl, inr, true, Option, none, some, [], ◌∷◌, arith,
  Bool-cases,
}
use spack_playground.Prelude.Texts.{same_text, same_text_sound}
use spack_playground.SimpleKv.{Key, Room}
use spack_playground.SimpleKv.Command.{Text, get_text, put_text, usage, answer, failure}
use spack_playground.SimpleKv.Command.Processes.{get-defined}
use spack_playground.SimpleKv.Rebuild.{Runtime, as_kv, get}
use spack_playground.SimpleKv.Rebuild.Restart.{IsRuntime-IsValid}
use spack_playground.SimpleKv.Rebuild.Put.{stored_pair, put-Puts}
use spack_playground.SimpleKv.Rebuild.Commands.{
  exit_text, Input, line, answered, after_put, get_command, put_number, put_command, command,
  command_loop,
}
use spack_playground.SimpleKv.Rebuild.Commands.Restarts.{
  Map, update, Reads, ends, leaves, gets, misses, puts, put_fails, unknown, gets_nothing,
  puts_nothing, puts_no_number, Explained, half-Shows,
}
use spack_playground.SimpleKv.Rebuild.Commands.Rounds.{
  Serves, Puts-Serves, round_word, picks_get, picks_put, picks_exit, picks_none, stops, same_run,
  shorter, no_longer, number_shorter, round, Rest, with_word,
}

module _ {I V : Type 0} (cin : Input I V) (key : Key Text) where
  module _ (room : ℕ → Room) where
    module _ (k : ℕ) (rest : Rest cin key room k) (r : Runtime Text V) (f : Map cin key)
        (serves : Serves cin key r f) (i i₁ : I) (enough : cin.left i < suc k) where
      explain_get :
          Reads cin key i (some get_text) i₁
          → (w : Option Text × I) → cin.word i₁ ≡ w
          → Explained cin key room (get_command cin key room (round cin key room k) w i₁ r) i f
      unfolding get
      explain_get reads (none, i₂) e =
          let less = shorter cin key room i i₁ get_text reads in
          let (s, run, (g, runs, shows)) =
            rest i₂ r f serves (omega (arith, no_longer cin key room i₁ i₂ none e)) in
          (
            record s { lines = usage ∷ s.lines },
            ap (line usage) run,
            (g, gets_nothing reads e runs, shows),
          )
      explain_get reads (some j, i₂) e =
          elim (get-defined key (as_kv r) j (IsRuntime-IsValid key r serves.is)) [
            | inl missing ↦
                same_run cin key room
                  (ap (λ l. answered cin key room l (round cin key room k) i₂ r) missing)
                  (stops cin key room (failure ∷ []) i r f serves
                    (misses reads e (sym (serves.shows j) ∙ missing)))
            | inr (v, hit) ↦
                let less = shorter cin key room i i₁ get_text reads in
                let (s, run, (g, runs, shows)) =
                  rest i₂ r f serves (omega (arith, no_longer cin key room i₁ i₂ (some j) e)) in
                (
                  record s { lines = answer v ∷ s.lines },
                  ap (λ l. answered cin key room l (round cin key room k) i₂ r) hit
                      ∙ ap (line (answer v)) run,
                  (g, gets reads e (sym (serves.shows j) ∙ hit) runs, shows),
                )
          ]

      explain_number :
          (i₂ : I) (j : Text)
          → Reads cin key i (some put_text) i₁
          → Reads cin key i₁ (some j) i₂
          → (n : Option V × I) → cin.number i₂ ≡ n
          → Explained cin key room (put_number cin key room k (round cin key room k) j n r) i f
      explain_number i₂ j reads names (none, i₃) e =
          let less = shorter cin key room i i₁ put_text reads in
          let (s, run, (g, runs, shows)) = rest i₃ r f serves (
            omega (
              arith,
              shorter cin key room i₁ i₂ j names,
              number_shorter cin key room i₂ i₃ none e,
            )) in
          (
            record s { lines = usage ∷ s.lines },
            ap (line usage) run,
            (g, puts_no_number reads names e runs, shows),
          )
      explain_number i₂ j reads names (some v, i₃) e =
          elim (put-Puts key r serves.is j v (room k)) [
            | inl (r', did, what) ↦
                let less = shorter cin key room i i₁ put_text reads in
                let (s, run, (g, runs, shows)) =
                  rest i₃ r' (update cin key f j v) (Puts-Serves cin key r r' f serves j v what) (
                    omega (
                      arith,
                      shorter cin key room i₁ i₂ j names,
                      number_shorter cin key room i₂ i₃ (some v) e,
                    )) in
                (
                  s,
                  ap (λ o. after_put cin key room o (round cin key room k i₃)) did ∙ run,
                  (g, puts reads names e runs, shows),
                )
            | inr (inl (full, why)) ↦
                same_run cin key room
                  (ap (λ o. after_put cin key room o (round cin key room k i₃)) full)
                  (stops cin key room (failure ∷ []) i r f serves
                    (put_fails reads names e k (inl why) (λ l. inl refl)))
            | inr (inr (half, why)) ↦
                let (g, shows, each) = half-Shows cin key r serves.is serves.ten j v in
                (
                  record {
                    lines = failure ∷ [];
                    root = some (stored_pair key r serves.is j v).stored;
                  },
                  ap (λ o. after_put cin key room o (round cin key room k i₃)) half,
                  (
                    g,
                    put_fails reads names e k (inr why) (λ l. elim (each l) [
                      | inl same ↦ inl (same ∙ serves.shows l)
                      | inr new ↦ inr new
                    ]),
                    shows,
                  ),
                )
          ]

      explain_put :
          Reads cin key i (some put_text) i₁
          → (w : Option Text × I) → cin.word i₁ ≡ w
          → Explained cin key room (put_command cin key room k (round cin key room k) w i₁ r) i f
      explain_put reads (none, i₂) e =
          let less = shorter cin key room i i₁ put_text reads in
          let (s, run, (g, runs, shows)) =
            rest i₂ r f serves (omega (arith, no_longer cin key room i₁ i₂ none e)) in
          (
            record s { lines = usage ∷ s.lines },
            ap (line usage) run,
            (g, puts_nothing reads e runs, shows),
          )
      explain_put reads (some j, i₂) e = explain_number i₂ j reads e (cin.number i₂) refl

      explain_word :
          (op : Text)
          → Reads cin key i (some op) i₁
          → Explained cin key room (command cin key room k (round cin key room k) op i₁ r) i f
      explain_word op reads = elim (Bool-cases (same_text op get_text)) [
        | inl e ↦
            same_run cin key room (picks_get cin key room k i₁ r op e)
              (explain_get (names get_text e) (cin.word i₁) refl)
        | inr e ↦ elim (Bool-cases (same_text op put_text)) [
          | inl h ↦
              same_run cin key room (picks_put cin key room k i₁ r op e h)
                (explain_put (names put_text h) (cin.word i₁) refl)
          | inr h ↦ elim (Bool-cases (same_text op exit_text)) [
            | inl g ↦
                same_run cin key room (picks_exit cin key room k i₁ r op e h g)
                  (stops cin key room [] i r f serves (leaves (names exit_text g)))
            | inr g ↦
                let less = shorter cin key room i i₁ op reads in
                let (s, run, (m, runs, shows)) = rest i₁ r f serves (omega arith) in
                (
                  record s { lines = usage ∷ s.lines },
                  picks_none cin key room k i₁ r op e h g ∙ ap (line usage) run,
                  (m, unknown reads e h g runs, shows),
                )
          ]
        ]
      ]
        where
          names : (word : Text) → same_text op word ≡ true → Reads cin key i (some word) i₁
          names word e = reads ∙ ap (λ w. (some w, i₁)) (same_text_sound op word e)

    explain_round : (k : ℕ) → Rest cin key room k → Rest cin key room (suc k)
    explain_round k rest i r f serves enough =
        same_run cin key room (round_word cin key room k i r) (by_word (cin.word i) refl)
      where
        by_word :
            (w : Option Text × I)
            → cin.word i ≡ w
            → Explained cin key room (with_word cin key room k r w) i f
        by_word (none, i') e = stops cin key room [] i r f serves (ends e)
        by_word (some op, i') e = explain_word k rest r f serves i i' enough op e

    -- With more rounds than input is left the command loop ends. What it prints is what the commands
    -- do to a finite map, and a restart on what it leaves shows the map after them: a put that was
    -- refused has taken effect on its own key or not at all.
    pub loop-Explained :
        (k : ℕ) (i : I) (r : Runtime Text V) (f : Map cin key)
        → Serves cin key r f
        → cin.left i < k
        → Explained cin key room (command_loop cin key room k i r) i f
    loop-Explained zero i r f serves enough = elim enough [ ]
    loop-Explained (suc k) i r f serves enough =
        explain_round k (loop-Explained k) i r f serves enough
