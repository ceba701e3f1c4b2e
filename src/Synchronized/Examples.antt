-- ===== src/Synchronized/Examples.antt =====
-- Runs of the methods on three objects, and an instance of each theorem with hypotheses.
use spack_playground.Prelude.{
  ◌⊎◌, true, false, some, ℕ, ◌*◌, ◌≡◌, refl, none, [], ◌∷◌, arith, ◌==◌, if◌then◌else◌,
}
use spack_playground.Prelude.Family.{update}
use spack_playground.Synchronized.{
  Store, ran, waits, misuse, value_of, put_value, put_holder, lock, lock_all, unlock_all, under,
  get, assign_value, swap,
}
use spack_playground.Synchronized.Guards.{
  World, new_world, guard_of, set_owns, unlock_guard, guard_write, Reach, start, next, synchronizes,
  unlocks, writes,
}
use spack_playground.Synchronized.Guards.Excludes.{GuardStep-excludes, WroteUnlocked}
use spack_playground.Synchronized.Values.{swap-exchanges}

-- object 2 is locked by thread 7; the others are free
abbrev objects : Store ℕ
objects a = record { value = 10 * a; holder = if a == 2 then some 7 else none }

abbrev moved : ℕ → ℕ
moved v = 0

waits_for_holder : get moved 1 2 objects ≡ waits
unfolding under lock_all lock
waits_for_holder = refl

locks_twice : get moved 7 2 objects ≡ misuse
unfolding under lock_all lock
locks_twice = refl

swap-exchanges_example :
    (s' : Store ℕ) × (swap moved 1 0 3 objects ≡ ran tt s')
    × ((c : ℕ)
        → value_of s' c ≡ (
            if 0 == c
            then value_of objects 3
            else if 3 == c
            then value_of objects 0
            else value_of objects c))
    × ((c : ℕ) → (s' c).holder ≡ (objects c).holder)
swap-exchanges_example = swap-exchanges moved 1 objects 0 3 refl refl

abbrev written : Store ℕ
written = unlock_all (3 ∷ []) (put_value (put_holder objects 3 (some 1)) 3 99)

assigned : assign_value moved 1 3 99 objects ≡ ran tt written
unfolding under lock_all lock unlock_all
assigned = refl

-- Thread 1 makes a unique guard of object 2 and unlocks it; thread 7 then makes a guard of object 2.
abbrev made : World ℕ
made = record {
  store = put_holder (new_world (λ a. 10 * a)).store 2 (some 1);
  guards = update (new_world (λ a. 10 * a)).guards 0 (some (guard_of 1 2 true));
}

abbrev unlocked : World ℕ
unlocked = unlock_guard 0 (guard_of 1 2 true) made

abbrev taken : World ℕ
taken = record {
  store = put_holder unlocked.store 2 (some 7);
  guards = update unlocked.guards 1 (some (guard_of 7 2 false));
}

takes : lock 7 2 unlocked.store ≡ ran tt taken.store
unfolding lock
takes = refl

makes : lock 1 2 (new_world (λ a. 10 * a)).store ≡ ran tt made.store
unfolding lock
makes = refl

taken-Reach : Reach moved (λ a. 10 * a) taken
taken-Reach =
    next 7 unlocked taken
      (next 1 made unlocked
        (next 1 (new_world (λ a. 10 * a)) made start (synchronizes 0 2 true made.store refl makes))
        (unlocks 0 (guard_of 1 2 true) refl refl refl refl))
      (synchronizes 1 2 false taken.store refl takes)

GuardStep-excludes_example :
    ((guard_write (set_owns (guard_of 1 2 true) false) 99 taken).store 2 ≡ taken.store 2)
    ⊎ WroteUnlocked 1 2 taken (guard_write (set_owns (guard_of 1 2 true) false) 99 taken)
GuardStep-excludes_example =
    GuardStep-excludes moved (λ a. 10 * a) 1 7 2 taken
      (guard_write (set_owns (guard_of 1 2 true) false) 99 taken) taken-Reach refl (ground arith)
      (writes 0 (set_owns (guard_of 1 2 true) false) 99 refl refl)
