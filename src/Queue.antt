-- ===== src/Queue.antt =====
-- targets/apps/ppm_ch8_6_volatile_queue/main.cpp and
-- targets/apps/ppm_ch8_7_persistent_queue/persistent_queue.hpp: a queue of linked nodes, in
-- volatile memory and under the transactions of libpmemobj. `A` is `int`.
pub mod Refines
pub mod Commands
mod Examples
use spack_playground.Prelude.{
  ℕ, zero, suc, ◌+◌, Option, none, some, List, [], ◌∷◌, ◌==◌, if◌then◌else◌,
}
use spack_playground.Effects.{
  Exception, out_of_range, bad_alloc, Outcome, done, threw, fault, or_fault, transaction,
}
use spack_playground.Heap.{Ptr, null, Node, node, Heap, write, load, set_next, Allocator}

-- `struct queue`, with the memory that its nodes stand in
pub record Queue (A : Type 0) : Type 0 where
  pub heap : Heap A
  pub head : Ptr
  pub tail : Ptr

module _ {A : Type 0} where
  abbrev pub new_queue : Heap A → Queue A
  new_queue h = record { heap = h; head = null; tail = null }

  -- the branch on `head == nullptr`, for a node that holds the value
  unfoldable pub append_node : Heap A → Ptr → Queue A → Outcome (Queue A) (Unit {0})
  append_node h fresh q =
      if q.head == null
      then done tt (record { heap = h; head = fresh; tail = fresh })
      else or_fault (set_next h q.tail fresh)
          (λ h'. done tt (record { heap = h'; head = q.head; tail = fresh }))

  unfoldable pub push : Allocator A → A → Queue A → Outcome (Queue A) (Unit {0})
  unfolding append_node
  push mem value q = elim (mem.alloc q.heap) [
    | none ↦ threw bad_alloc q
    | some fresh ↦ append_node (write q.heap fresh (some (node value null))) fresh q
  ]

  unfoldable pub pop : Queue A → Outcome (Queue A) A
  pop q =
      if q.head == null
      then threw out_of_range q
      else or_fault (load q.heap q.head) (λ n. done n.value (record {
        heap = write q.heap q.head none;
        head = n.next;
        tail = if n.next == null then null else q.tail;
      }))

  -- The values that `show` prints, from `node` on; `none` is a fault or the end of the fuel.
  unfoldable pub show_from : ℕ → Heap A → Ptr → Option (List A)
  show_from zero h p = none
  show_from (suc k) h p = if p == null then some [] else elim (load h p) [
    | none ↦ none
    | some n ↦ elim (show_from k h n.next) [ none ↦ none | some vs ↦ some (n.value ∷ vs) ]
  ]

  abbrev pub show : ℕ → Queue A → Option (List A)
  show k q = show_from k q.heap q.head

  -- The methods of the persistent queue run each body in a transaction.
  unfoldable pub persistent_push : Allocator A → A → Queue A → Outcome (Queue A) (Unit {0})
  unfolding push
  persistent_push mem value = transaction (push mem value)

  unfoldable pub persistent_pop : Queue A → Outcome (Queue A) A
  unfolding pop
  persistent_pop = transaction pop
