-- ===== src/Versioning/Examples.antt =====
-- Three slots, two of them taken, and a full array.
use spack_playground.Prelude.{
  ℕ, ◌≡◌, refl, ◌⊎◌, inl, inr, true, false, some, List, [], ◌∷◌, arith, ltb,
}
use spack_playground.Versioning.{
  Order, Versions, lower_bound, copy_to, insert, DiskOp, CrashLeaves, persisted, insert_steps,
  insert_ops,
}
use spack_playground.Versioning.Crash.{IsValid, Reads, insert-sorted, crash_atomic}

ltb_asymmetric : (a b : ℕ) → ltb a b ≡ true → ltb b a ≡ false
ltb_asymmetric a b e = ground arith

ltb_transitive : (a b c : ℕ) → ltb a b ≡ false → ltb b c ≡ false → ltb a c ≡ false
ltb_transitive a b c e f = ground arith

abbrev numbers : Order ℕ
numbers = record { less = ltb; asymmetric = ltb_asymmetric; transitive = ltb_transitive }

abbrev two_taken : Versions ℕ
two_taken = record {
  first = record { entries = 10 ∷ 30 ∷ 7 ∷ []; size = 2 };
  second = record { entries = 10 ∷ 0 ∷ 0 ∷ []; size = 1 };
  current = 0;
}

abbrev all_taken : Versions ℕ
all_taken = record {
  first = record { entries = 10 ∷ 30 ∷ 50 ∷ []; size = 3 };
  second = record { entries = 10 ∷ 30 ∷ 0 ∷ []; size = 2 };
  current = 0;
}

abbrev torn : Versions ℕ
torn = record two_taken { second = record { entries = 10 ∷ 20 ∷ 0 ∷ []; size = 1 } }

two_taken-IsValid : IsValid numbers 3 two_taken
two_taken-IsValid = record {
  one_of_two = omega arith;
  first_slots = refl;
  second_slots = refl;
  fits = omega arith;
  sorted = ((refl, tt), (tt, tt));
}

all_taken-IsValid : IsValid numbers 3 all_taken
all_taken-IsValid = record {
  one_of_two = omega arith;
  first_slots = refl;
  second_slots = refl;
  fits = omega arith;
  sorted = ((refl, (refl, tt)), ((refl, tt), (tt, tt)));
}

insert-sorted_example :
    (b : Versions ℕ) × (insert numbers two_taken 20 ≡ some b)
    × Reads numbers 3 two_taken two_taken-IsValid (10 ∷ 20 ∷ 30 ∷ []) b
insert-sorted_example = insert-sorted numbers 3 two_taken two_taken-IsValid 20 (omega arith)

abbrev twenty_steps : List (DiskOp ℕ)
twenty_steps = insert_steps two_taken (record { entries = 10 ∷ 20 ∷ 30 ∷ []; size = 3 })

twenty_run : insert_ops numbers two_taken 20 ≡ some twenty_steps
unfolding insert_ops lower_bound copy_to
twenty_run = refl

-- The crash is between the stores to the working copy and their `persist`.
torn_left : CrashLeaves (persisted two_taken) twenty_steps torn
torn_left = inr (inl (inl refl, refl, refl))

crash_atomic_example :
    Reads numbers 3 two_taken two_taken-IsValid (10 ∷ 30 ∷ []) torn
    ⊎ Reads numbers 3 two_taken two_taken-IsValid (10 ∷ 20 ∷ 30 ∷ []) torn
crash_atomic_example =
    crash_atomic numbers 3 two_taken two_taken-IsValid 20 twenty_steps torn (omega arith) twenty_run
      torn_left
