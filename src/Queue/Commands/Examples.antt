-- ===== src/Queue/Commands/Examples.antt =====
-- A session on a queue of two values, and the theorem at it.
use spack_playground.Prelude.{
  ℕ, ◌<◌, ◌≡◌, ◌⊎◌, refl, inl, inr, Option, List, [], ◌∷◌, arith, length,
}
use spack_playground.Heap.{bump}
use spack_playground.Queue.{Queue, new_queue}
use spack_playground.Queue.Refines.{Holds}
use spack_playground.Queue.Commands.{Text, push_text, pop_text, show_text, Input, command_loop}
use spack_playground.Queue.Commands.Loop.{Explained, loop-Explained}

-- words, each followed by a number
abbrev tokens : List (Text × ℕ)
tokens = (push_text, 7) ∷ (show_text, 0) ∷ (pop_text, 0) ∷ (pop_text, 0) ∷ []

abbrev Typed : Type 0
Typed = ℕ × List (Text × ℕ)

abbrev next_word : Typed → Text × Typed
next_word (n, []) = ([], (n, []))
next_word (n, (w, m) ∷ ts) = (w, (m, ts))

next_word_less : (i : Typed) → ((next_word i).0 ≡ []) ⊎ (length (next_word i).1.1 < length i.1)
next_word_less (n, []) = inl refl
next_word_less (n, (w, m) ∷ ts) = inr (omega arith)

abbrev keyboard : Input Typed ℕ
keyboard = record {
  word = next_word;
  number = λ i. (i.0, i);
  left = λ i. length i.1;
  word_left = next_word_less;
  number_left = λ i. omega arith;
}

abbrev empty : Queue ℕ
empty = new_queue (λ a. Option.none)

empty-Holds : Holds empty []
empty-Holds = ([], record { starts = refl; ends = refl; chain = tt }, refl)

loop-Explained_example :
    Explained keyboard
      (bump 5)
      (command_loop keyboard (bump 5) 9 5 (0, tokens) empty)
      (0, tokens)
      []
loop-Explained_example =
    loop-Explained keyboard (bump 5) 9 5 (0, tokens) empty [] empty-Holds (omega arith)
      (omega arith)
