-- ===== src/Effects.antt =====
-- Results of code that changes a state and may throw, and the transactions of libpmemobj.
use spack_playground.Prelude.{ℕ, ◌≡◌, Option, none, some}

-- The exceptions that the programs throw or catch, with `errno` in a `system_error`.
pub data Exception : Type 0 where
  out_of_range : Exception
  bad_alloc : Exception
  system_error : ℕ → Exception

-- `fault` is undefined behaviour: a null or dangling pointer, an index out of bounds.
pub data Outcome (S A : Type 0) : Type 0 where
  done : A → S → Outcome S A
  threw : Exception → S → Outcome S A
  fault : Outcome S A

module _ {S A : Type 0} where
  abbrev pub or_fault : {B : Type 0} → Option B → (B → Outcome S A) → Outcome S A
  or_fault none k = fault
  or_fault (some b) k = k b

  abbrev pub and_then : {B : Type 0} → Outcome S B → (B → S → Outcome S A) → Outcome S A
  and_then (done b s) k = k b s
  and_then (threw e s) k = threw e s
  and_then fault k = fault

  -- What is left of a body's result when its transaction ends: an exception restores the state
  -- that the transaction found.
  abbrev pub settle : S → Outcome S A → Outcome S A
  settle s (done a s') = done a s'
  settle s (threw e s') = threw e s
  settle s fault = fault

  -- `pmem::obj::transaction::run`; the exception is thrown on.
  abbrev pub transaction : (S → Outcome S A) → S → Outcome S A
  transaction body s = settle s (body s)

  pub done_injective :
      {a a' : A} {s s' : S} → ◌≡◌ {A = Outcome S A} (done a s) (done a' s') → (a ≡ a') × (s ≡ s')
  done_injective e = (cc, cc)
