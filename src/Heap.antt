-- ===== src/Heap.antt =====
-- Singly linked nodes at addresses, as `queue_node` and `ListNode::Persistent` are linked.
pub mod Chain
use spack_playground.Prelude.{
  ℕ, zero, suc, ◌+◌, ◌≤◌, ◌≡◌, ◌≢◌, Option, none, some, ◌==◌, if◌then◌else◌, arith,
}

abbrev pub Ptr : Type 0
Ptr = ℕ

abbrev pub null : Ptr
null = 0

pub record Node (A : Type 0) : Type 0 where
  pub value : A
  pub next : Ptr

module _ {A : Type 0} where
  abbrev pub node : A → Ptr → Node A
  node v q = record { value = v; next = q }

abbrev pub Heap : Type 0 → Type 0
Heap A = Ptr → Option (Node A)

module _ {A : Type 0} where
  -- `some n` fills the address, `none` gives it back
  abbrev pub write : Heap A → Ptr → Option (Node A) → Heap A
  write h p c a = if a == p then c else h a

  -- `*p`; `none` at the null pointer and at an address that holds no node
  unfoldable pub load : Heap A → Ptr → Option (Node A)
  load h p = if p == null then none else h p

  -- `p->next = q`
  unfoldable pub set_next : Heap A → Ptr → Ptr → Option (Heap A)
  unfolding load
  set_next h p q = elim (load h p) [
    | none ↦ none
    | some n ↦ some (write h p (some (node n.value q)))
  ]

-- What the programs rely on in `new`, `make_persistent` and `pmemobj_xalloc`: an address is neither
-- null nor in use.
pub record Allocator (A : Type 0) : Type 0 where
  pub alloc : Heap A → Option Ptr
  pub ne_null : (h : Heap A) (p : Ptr) → alloc h ≡ some p → p ≢ null
  pub unused : (h : Heap A) (p : Ptr) → alloc h ≡ some p → h p ≡ none

module _ {A : Type 0} where
  -- The first free address among `n` from `p`.
  unfoldable pub first_free : ℕ → Ptr → Heap A → Option Ptr
  first_free zero p h = none
  first_free (suc n) p h = elim (h p) [ none ↦ some p | some _ ↦ first_free n (p + 1) h ]

  first_free-le : (n : ℕ) (p : Ptr) (h : Heap A) (q : Ptr) → first_free n p h ≡ some q → p ≤ q
  unfolding first_free
  first_free-le zero p h q e = cc
  first_free-le (suc n) p h q e = ground (arith, first_free-le n (p + 1) h q)

  pub first_free_unused :
      (n : ℕ) (p : Ptr) (h : Heap A) (q : Ptr) → first_free n p h ≡ some q → h q ≡ none
  unfolding first_free
  first_free_unused zero p h q e = cc
  first_free_unused (suc n) p h q e = ground (arith, first_free_unused n (p + 1) h q)

  pub first_free-ne_null : (n : ℕ) (h : Heap A) (q : Ptr) → first_free n 1 h ≡ some q → q ≢ null
  first_free-ne_null n h q e = omega (arith, first_free-le n 1 h q e)

  -- An allocator with room for `n` nodes, for runs.
  abbrev pub bump : ℕ → Allocator A
  bump n = record {
    alloc = first_free n 1;
    ne_null = first_free-ne_null n;
    unused = first_free_unused n 1;
  }
