-- ===== src/Synchronized/Guards.antt =====
-- targets/libraries/synchronized_value/include/synchronized_value/synchronized_value.hpp: the guards of the
-- objects. A `LockGuardPtr` holds the mutex for its whole life; a `UniqueLockPtr` is a `std::unique_lock`, with
-- `unlock` and `lock`, and gives access to the value all the same.
pub mod Owners
pub mod Excludes
use spack_playground.Prelude.{
  ℕ, ◌≡◌, ◌≢◌, refl, sym, ap, ◌∙◌, ◌⊎◌, inl, inr, Bool, true, false, Option, none, some, List, [],
  ◌∷◌, ◌==◌, ==_iff, if◌then◌else◌, Bool-cases, arith, subst,
}
use spack_playground.Prelude.Family.{update}
use spack_playground.Synchronized.{Store, Cell, ran, put_value, put_holder, lock, Step}
use spack_playground.Synchronized.Locks.{among, lock_all-Locked}
use spack_playground.Synchronized.Writes.{put_value_apart, put_holder_apart, put_value_holder}
use spack_playground.Synchronized.Exclusion.{Step-keeps}

-- The object, the thread that uses the guard, whether it is a `UniqueLockPtr`, and `owns_lock`.
pub record Guard : Type 0 where
  pub object : ℕ
  pub thread : ℕ
  pub is_unique : Bool
  pub owns : Bool

pub record World (T : Type 0) : Type 0 where
  pub store : Store T
  pub guards : ℕ → Option Guard

abbrev pub guard_of : ℕ → ℕ → Bool → Guard
guard_of i a unique = record { object = a; thread = i; is_unique = unique; owns = true }

abbrev pub set_owns : Guard → Bool → Guard
set_owns k owning = record {
  object = k.object;
  thread = k.thread;
  is_unique = k.is_unique;
  owns = owning;
}

module _ {T : Type 0} where
  -- Objects that nobody has locked, and no guards.
  abbrev pub new_world : (ℕ → T) → World T
  new_world values = record {
    store = λ a. record { value = values a; holder = none };
    guards = λ g. none;
  }

  -- `unlock` of a guard that owns its mutex; the others throw.
  abbrev pub unlock_guard : ℕ → Guard → World T → World T
  unlock_guard g k w = record {
    store = put_holder w.store k.object none;
    guards = update w.guards g (some (set_owns k false));
  }

  -- The destructor.
  abbrev pub release : ℕ → Guard → World T → World T
  release g k w = record {
    store = if k.owns then put_holder w.store k.object none else w.store;
    guards = update w.guards g none;
  }

  -- `*guard = v`; nothing asks `owns_lock`.
  abbrev pub guard_write : Guard → T → World T → World T
  guard_write k v w = record { store = put_value w.store k.object v; guards = w.guards }

  -- A call of thread `i`. The free function `synchronize` locks its objects one after the other and makes
  -- a unique guard of each.
  pub data GuardStep (moved : T → T) (i : ℕ) (w : World T) : World T → Type 1 where
    calls :
        (s' : Store T)
        → Step moved i w.store s'
        → GuardStep moved i w (record { store = s'; guards = w.guards })
    synchronizes :
        (g a : ℕ) (unique : Bool) (s' : Store T)
        → w.guards g ≡ none
        → lock i a w.store ≡ ran tt s'
        → GuardStep moved i w
            (record { store = s'; guards = update w.guards g (some (guard_of i a unique)) })
    unlocks :
        (g : ℕ) (k : Guard)
        → w.guards g ≡ some k
        → k.thread ≡ i
        → k.is_unique ≡ true
        → k.owns ≡ true
        → GuardStep moved i w (unlock_guard g k w)
    relocks :
        (g : ℕ) (k : Guard) (s' : Store T)
        → w.guards g ≡ some k
        → k.thread ≡ i
        → k.is_unique ≡ true
        → k.owns ≡ false
        → lock i k.object w.store ≡ ran tt s'
        → GuardStep moved i w
            (record { store = s'; guards = update w.guards g (some (set_owns k true)) })
    releases :
        (g : ℕ) (k : Guard)
        → w.guards g ≡ some k
        → k.thread ≡ i
        → GuardStep moved i w (release g k w)
    writes :
        (g : ℕ) (k : Guard) (v : T)
        → w.guards g ≡ some k
        → k.thread ≡ i
        → GuardStep moved i w (guard_write k v w)

  pub data Reach (moved : T → T) (values : ℕ → T) : World T → Type 1 where
    start : Reach moved values (new_world values)
    next :
        (i : ℕ) (w w' : World T)
        → Reach moved values w
        → GuardStep moved i w w'
        → Reach moved values w'
