-- ===== src/Synchronized.antt =====
-- targets/libraries/synchronized_value/include/synchronized_value/synchronized_value.hpp: values behind a
-- mutex each. An object is its address in a store; a thread is a number.
pub mod Locks
pub mod Writes
pub mod Exclusion
pub mod Guards
pub mod Values
mod Examples
use spack_playground.Prelude.{
  ℕ, ◌≡◌, Bool, true, false, ◌||◌, Option, none, some, List, [], ◌∷◌, ◌==◌, if◌then◌else◌,
}

-- `SynchronizedValueImpl`: the value, and the thread that holds the mutex.
pub record Cell (T : Type 0) : Type 0 where
  pub value : T
  pub holder : Option ℕ

abbrev pub Store : Type 0 → Type 0
Store T = ℕ → Cell T

-- A call runs, waits for another thread, or is misuse: a thread that locks a mutex it holds.
pub data Attempt (S A : Type 0) : Type 0 where
  ran : A → S → Attempt S A
  waits : Attempt S A
  misuse : Attempt S A

module _ {T : Type 0} where
  abbrev pub value_of : Store T → ℕ → T
  value_of s a = (s a).value

  abbrev pub put_value : Store T → ℕ → T → Store T
  put_value s a v c = if a == c then record (s c) { value = v } else s c

  abbrev pub put_holder : Store T → ℕ → Option ℕ → Store T
  put_holder s a h c = if a == c then record (s c) { holder = h } else s c

  -- The constructors; a new object is not locked.
  abbrev pub construct : T → Cell T
  construct v = record { value = v; holder = none }

  unfoldable pub lock : ℕ → ℕ → Store T → Attempt (Store T) (Unit {0})
  lock i a s = elim (s a).holder [
    | none ↦ ran tt (put_holder s a (some i))
    | some j ↦ if j == i then misuse else waits
  ]

  -- `std::lock`, `std::scoped_lock` and `std::lock_guard`: all mutexes or none.
  unfoldable pub lock_all : ℕ → List ℕ → Store T → Attempt (Store T) (Unit {0})
  unfolding lock
  lock_all i [] s = ran tt s
  lock_all i (a ∷ objs) s = elim (lock i a s) [
    | ran _ s' ↦ lock_all i objs s'
    | waits ↦ waits
    | misuse ↦ misuse
  ]

  unfoldable pub unlock_all : List ℕ → Store T → Store T
  unlock_all [] s = s
  unlock_all (a ∷ objs) s = unlock_all objs (put_holder s a none)

  -- A block under a lock on all these objects, which its end releases.
  unfoldable pub under :
      {A : Type 0} → ℕ → List ℕ → (Store T → A × Store T) → Store T → Attempt (Store T) A
  unfolding lock_all unlock_all
  under i objs body s = elim (lock_all i objs s) [
    | ran _ s' ↦ ran (body s').0 (unlock_all objs (body s').1)
    | waits ↦ waits
    | misuse ↦ misuse
  ]

-- The methods, called by thread `i`. `moved` is what is left of a value that was moved from.
module _ {T : Type 0} (moved : T → T) (i : ℕ) where
  abbrev pub get : ℕ → Store T → Attempt (Store T) T
  get a = under i (a ∷ []) (λ s. (value_of s a, s))

  abbrev pub copy_construct : ℕ → Store T → Attempt (Store T) (Cell T)
  copy_construct b = under i (b ∷ []) (λ s. (construct (value_of s b), s))

  abbrev pub move_construct : ℕ → Store T → Attempt (Store T) (Cell T)
  move_construct b =
      under i (b ∷ []) (λ s. (construct (value_of s b), put_value s b (moved (value_of s b))))

  abbrev pub assign_value : ℕ → T → Store T → Attempt (Store T) (Unit {0})
  assign_value a v = under i (a ∷ []) (λ s. (tt, put_value s a v))

  unfoldable pub assign : ℕ → ℕ → Store T → Attempt (Store T) (Unit {0})
  unfolding under
  assign a b s =
      if b == a
      then ran tt s
      else under i (a ∷ b ∷ []) (λ s'. (tt, put_value s' a (value_of s' b))) s

  unfoldable pub move_assign : ℕ → ℕ → Store T → Attempt (Store T) (Unit {0})
  unfolding under
  move_assign a b s =
      if b == a
      then ran tt s
      else under i (a ∷ b ∷ [])
          (λ s'. (tt, put_value (put_value s' a (value_of s' b)) b (moved (value_of s' b)))) s

  unfoldable pub swap : ℕ → ℕ → Store T → Attempt (Store T) (Unit {0})
  unfolding under
  swap a b s =
      if a == b
      then ran tt s
      else under i (a ∷ b ∷ [])
          (λ s'. (tt, put_value (put_value s' a (value_of s' b)) b (value_of s' a))) s

  -- `swap` with a plain value; the result is what `rhs` then holds.
  abbrev pub swap_value : ℕ → T → Store T → Attempt (Store T) T
  swap_value a v = under i (a ∷ []) (λ s. (value_of s a, put_value s a v))

  -- `operator<<` and `operator>>` of the value are parameters.
  abbrev pub save : {O : Type 0} → (T → O → O) → ℕ → O → Store T → Attempt (Store T) O
  save show a os = under i (a ∷ []) (λ s. (show (value_of s a) os, s))

  abbrev pub load : {I : Type 0} → (I → T → T × I) → ℕ → I → Store T → Attempt (Store T) I
  load scan a is =
      under i (a ∷ []) (λ s. let (v, rest) = scan is (value_of s a) in (rest, put_value s a v))

  -- `operator->` makes a guard for the length of one expression, which calls `f` on the value.
  abbrev pub arrow : {R : Type 0} → (T → R × T) → ℕ → Store T → Attempt (Store T) R
  arrow f a = under i (a ∷ []) (λ s. let (r, v) = f (value_of s a) in (r, put_value s a v))

  -- The free functions, which call the methods.
  abbrev pub swap_objects : ℕ → ℕ → Store T → Attempt (Store T) (Unit {0})
  swap_objects lhs rhs = swap lhs rhs

  abbrev pub swap_object : ℕ → T → Store T → Attempt (Store T) T
  swap_object lhs rhs = swap_value lhs rhs

  abbrev pub print : {O : Type 0} → (T → O → O) → ℕ → O → Store T → Attempt (Store T) O
  print show rhs os = save show rhs os

  abbrev pub scan_object : {I : Type 0} → (I → T → T × I) → ℕ → I → Store T → Attempt (Store T) I
  scan_object scan rhs is = load scan rhs is

-- The methods and operators, called by thread `i`; the free functions are such calls.
pub data Step {T : Type 0} (moved : T → T) (i : ℕ) (s : Store T) : Store T → Type 1 where
  gets : (a : ℕ) (v : T) (s' : Store T) → get moved i a s ≡ ran v s' → Step moved i s s'
  copies :
      (b : ℕ) (c : Cell T) (s' : Store T)
      → copy_construct moved i b s ≡ ran c s'
      → Step moved i s s'
  moves :
      (b : ℕ) (c : Cell T) (s' : Store T)
      → move_construct moved i b s ≡ ran c s'
      → Step moved i s s'
  assigns_value :
      (a : ℕ) (v : T) (s' : Store T) → assign_value moved i a v s ≡ ran tt s' → Step moved i s s'
  assigns : (a b : ℕ) (s' : Store T) → assign moved i a b s ≡ ran tt s' → Step moved i s s'
  moves_into : (a b : ℕ) (s' : Store T) → move_assign moved i a b s ≡ ran tt s' → Step moved i s s'
  swaps : (a b : ℕ) (s' : Store T) → swap moved i a b s ≡ ran tt s' → Step moved i s s'
  swaps_value :
      (a : ℕ) (v w : T) (s' : Store T) → swap_value moved i a v s ≡ ran w s' → Step moved i s s'
  saves :
      {O : Type 0} (show : T → O → O) (a : ℕ) (os os' : O) (s' : Store T)
      → save moved i show a os s ≡ ran os' s'
      → Step moved i s s'
  loads :
      {I : Type 0} (scan : I → T → T × I) (a : ℕ) (is rest : I) (s' : Store T)
      → load moved i scan a is s ≡ ran rest s'
      → Step moved i s s'
  arrows :
      {R : Type 0} (f : T → R × T) (a : ℕ) (r : R) (s' : Store T)
      → arrow moved i f a s ≡ ran r s'
      → Step moved i s s'
