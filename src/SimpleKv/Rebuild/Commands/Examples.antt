-- ===== src/SimpleKv/Rebuild/Commands/Examples.antt =====
-- A process on a pool without an object that puts a key and gets two.
use spack_playground.Prelude.{
  ℕ, ◌<◌, ◌≤◌, ◌≡◌, subst, true, Option, none, some, List, [], ◌∷◌, arith, length,
}
use spack_playground.Prelude.Texts.{same_text, same_text_refl, same_text_sound}
use spack_playground.Effects.{out_of_range}
use spack_playground.SimpleKv.{Key, Room}
use spack_playground.SimpleKv.Command.{Text, Line, get_text, put_text, usage, returned}
use spack_playground.SimpleKv.Rebuild.Commands.{exit_text, Input, Session, main}
use spack_playground.SimpleKv.Rebuild.Commands.Restarts.{Map, Runs, Shows}
use spack_playground.SimpleKv.Rebuild.Commands.Process.{stored_map, main-Served}

abbrev text_key : Key Text
text_key = record {
  same = same_text;
  same_iff =
      λ a b. (same_text_sound a b, λ e. subst (λ c. same_text a c ≡ true) e (same_text_refl a));
  hash = length;
}

-- words; a number is the length of its word
abbrev next_word : List Text → Option Text × List Text
next_word [] = (none, [])
next_word (w ∷ ws) = (some w, ws)

abbrev next_number : List Text → Option ℕ × List Text
next_number [] = (none, [])
next_number (w ∷ ws) = (some (length w), ws)

next_word_less :
    (i : List Text) (w : Text) → (next_word i).0 ≡ some w → length (next_word i).1 < length i
next_word_less [] w e = absurd (cc e)
next_word_less (v ∷ i) w e = omega arith

next_word_le : (i : List Text) → length (next_word i).1 ≤ length i
next_word_le [] = omega arith
next_word_le (v ∷ i) = omega arith

next_number_le : (i : List Text) → length (next_number i).1 ≤ length i
next_number_le [] = omega arith
next_number_le (v ∷ i) = omega arith

abbrev keyboard : Input (List Text) ℕ
keyboard = record {
  word = next_word;
  number = next_number;
  left = length;
  word_left = next_word_less;
  word_left_le = next_word_le;
  number_left = next_number_le;
}

abbrev ample : ℕ → Room
ample n = record { first = true; second = true; third = true }

abbrev typed : List Text
typed = put_text ∷ exit_text ∷ exit_text ∷ get_text ∷ exit_text ∷ get_text ∷ put_text ∷ []

main-Served_example :
    (s : Session ℕ) × (main keyboard text_key ample out_of_range 2 true (some none) none 8 typed
      ≡ some (s, returned 0))
    × ((ls : List (Line ℕ)) × (g : Map keyboard text_key) × (s.lines ≡ usage ∷ ls)
        × Runs keyboard text_key ample typed (stored_map keyboard text_key none) ls g
        × Shows keyboard text_key s.root g)
main-Served_example =
    main-Served keyboard text_key ample out_of_range 8 typed (omega arith) none 2 tt (omega arith)
