-- ===== src/Queue/Examples.antt =====
-- A queue of three values, and the theorems at it.
use spack_playground.Prelude.{ℕ, refl, Option, some, [], ◌∷◌, arith}
use spack_playground.Heap.{node, write, Heap}
use spack_playground.Queue.{Queue, new_queue}
use spack_playground.Queue.Refines.{Holds}

abbrev no_nodes : Heap ℕ
no_nodes a = Option.none

abbrev two_nodes : Queue ℕ
two_nodes = record {
  heap = write (write no_nodes 1 (some (node 10 2))) 2 (some (node 20 0));
  head = 1;
  tail = 2;
}

two_nodes-Holds : Holds two_nodes (10 ∷ 20 ∷ [])
two_nodes-Holds = (
  (1, 10) ∷ (2, 20) ∷ [],
  record {
    starts = refl;
    ends = refl;
    chain = (ground arith, refl, refl, (ground arith, refl, refl, tt));
  },
  refl,
)

none-Holds : Holds (new_queue no_nodes) []
none-Holds = ([], record { starts = refl; ends = refl; chain = tt }, refl)
