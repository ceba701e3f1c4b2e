-- ===== src/SimpleKv/Rebuild/Commands/Rounds.antt =====
-- One round of the command loop, and what the object keeps to between two rounds.
use spack_playground.Prelude.{
  ℕ, suc, ◌<◌, ◌≤◌, ◌≡◌, refl, ap, ◌∙◌, subst, true, false, Option, none, some, List, [],
  if◌then◌else◌, length,
}
use spack_playground.Prelude.Texts.{same_text}
use spack_playground.SimpleKv.{Key, Room, found}
use spack_playground.SimpleKv.Command.{Text, get_text, put_text, Line, usage, kv_buckets}
use spack_playground.SimpleKv.Rebuild.{Runtime, get}
use spack_playground.SimpleKv.Rebuild.Restart.{IsRuntime}
use spack_playground.SimpleKv.Rebuild.Put.{Puts}
use spack_playground.SimpleKv.Rebuild.Commands.{
  exit_text, Input, Session, line, over, Round, get_command, put_command, command, command_loop,
}
use spack_playground.SimpleKv.Rebuild.Commands.Restarts.{
  Map, update, Reads, Counts, Runs, Shows, Explained, kept-Shows,
}

module _ {I V : Type 0} (cin : Input I V) (key : Key Text) where
  -- The object is in step with the stored vectors and shows the map.
  pub record Serves (r : Runtime Text V) (f : Map cin key) : Type 0 where
    pub is : IsRuntime key r
    pub ten : length r.buckets ≡ kv_buckets
    pub shows : (j : Text) → get key r j ≡ f j

  pub over-Shows :
      (r : Runtime Text V) (f : Map cin key) → Serves r f → Shows cin key (some r.stored) f
  over-Shows r f serves =
      let (r', run, shown) = kept-Shows cin key r serves.is serves.ten in
      (r', run, λ j. shown j ∙ serves.shows j)

  pub Puts-Serves :
      (r r' : Runtime Text V) (f : Map cin key) (serves : Serves r f) (k : Text) (v : V)
      → Puts key r serves.is k v r'
      → Serves r' (update cin key f k v)
  unfolding get
  Puts-Serves r r' f serves k v did = record {
    is = did.runtime;
    ten = did.writes.buckets ∙ serves.ten;
    shows =
        λ j. did.writes.reads j ∙ ap (λ l. if key.same k j then found v else l) (serves.shows j);
  }

  module _ (room : ℕ → Room) where
    abbrev pub round : ℕ → Round cin key room
    round k = command_loop cin key room k

    -- The rounds that are left explain themselves.
    abbrev pub Rest : ℕ → Type 0
    Rest k =
        (i : I) (r : Runtime Text V) (f : Map cin key)
        → Serves r f
        → cin.left i < k
        → Explained cin key room (round k i r) i f

    -- What one round does with the word that it reads.
    abbrev pub with_word : ℕ → Runtime Text V → Option Text × I → Option (Session V)
    with_word k r (none, i') = over [] r
    with_word k r (some op, i') = command cin key room k (round k) op i' r

    pub round_word :
        (k : ℕ) (i : I) (r : Runtime Text V) → round (suc k) i r ≡ with_word k r (cin.word i)
    unfolding command_loop
    round_word k i r = by_word (cin.word i)
      where
        by_word :
            (w : Option Text × I)
            → ◌≡◌ {A = Option (Session V)}
                (elim w.0 [
                  | none ↦ over [] r
                  | some op ↦ command cin key room k (round k) op w.1 r
                ])
                (with_word k r w)
        by_word (none, i') = refl
        by_word (some op, i') = refl

    -- The three commands and the rest of the words.
    pub picks_get :
        (k : ℕ) (i : I) (r : Runtime Text V) (op : Text)
        → same_text op get_text ≡ true
        → command cin key room k (round k) op i r
          ≡ get_command cin key room (round k) (cin.word i) i r
    unfolding command
    picks_get k i r op e = rw (e, command) refl

    pub picks_put :
        (k : ℕ) (i : I) (r : Runtime Text V) (op : Text)
        → same_text op get_text ≡ false
        → same_text op put_text ≡ true
        → command cin key room k (round k) op i r
          ≡ put_command cin key room k (round k) (cin.word i) i r
    unfolding command
    picks_put k i r op e f = rw (e, f, command) refl

    pub picks_exit :
        (k : ℕ) (i : I) (r : Runtime Text V) (op : Text)
        → same_text op get_text ≡ false
        → same_text op put_text ≡ false
        → same_text op exit_text ≡ true
        → command cin key room k (round k) op i r ≡ over [] r
    unfolding command
    picks_exit k i r op e f g = rw (e, f, g, command) refl

    pub picks_none :
        (k : ℕ) (i : I) (r : Runtime Text V) (op : Text)
        → same_text op get_text ≡ false
        → same_text op put_text ≡ false
        → same_text op exit_text ≡ false
        → command cin key room k (round k) op i r ≡ line usage (round k i r)
    unfolding command
    picks_none k i r op e f g = rw (e, f, g, command) refl

    pub stops :
        (ls : List (Line V)) (i : I) (r : Runtime Text V) (f : Map cin key)
        → Serves r f
        → Runs cin key room i f ls f
        → Explained cin key room (over ls r) i f
    stops ls i r f serves runs =
        (record { lines = ls; root = some r.stored }, refl, (f, runs, over-Shows r f serves))

    pub same_run :
        {o o' : Option (Session V)} {i : I} {f : Map cin key}
        → o ≡ o'
        → Explained cin key room o' i f
        → Explained cin key room o i f
    same_run e (s, run, more) = (s, e ∙ run, more)

    pub shorter : (i i' : I) (w : Text) → Reads cin key i (some w) i' → cin.left i' < cin.left i
    shorter i i' w e =
        subst (λ t. cin.left t < cin.left i) (ap (λ p. p.1) e) (cin.word_left i w (ap (λ p. p.0) e))

    pub no_longer : (i i' : I) (w : Option Text) → Reads cin key i w i' → cin.left i' ≤ cin.left i
    no_longer i i' w e = subst (λ t. cin.left t ≤ cin.left i) (ap (λ p. p.1) e) (cin.word_left_le i)

    pub number_shorter :
        (i i' : I) (n : Option V) → Counts cin key i n i' → cin.left i' ≤ cin.left i
    number_shorter i i' n e =
        subst (λ t. cin.left t ≤ cin.left i) (ap (λ p. p.1) e) (cin.number_left i)
