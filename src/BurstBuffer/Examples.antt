-- ===== src/BurstBuffer/Examples.antt =====
-- A buffer with a waiting request and one that is being flushed, and the theorems at it.
use spack_playground.Prelude.{◌≡◌, refl, ◌⊎◌, none, some, true, false, [], ◌∷◌, arith, List, ◌++◌}
use spack_playground.Prelude.Int.{ℤ, pos, neg}
use spack_playground.Effects.{Outcome, done, threw, fault}
use spack_playground.Heap.{node, write, bump, Heap, first_free, set_next}
use spack_playground.BurstBuffer.{
  InlineWriteRequest, request, BurstBuffer, pwrite, try_enqueue_flush, flush_all,
  runtime_initialize,
}
use spack_playground.BurstBuffer.Shape.{Holds}
use spack_playground.BurstBuffer.Write.{pwrite-append}
use spack_playground.BurstBuffer.Restart.{Stores, runtime_initialize-Holds}
use spack_playground.BurstBuffer.Flush.{visit, is_finished, Flushed, flush_all-visit}
use spack_playground.BurstBuffer.Threads
use spack_playground.BurstBuffer.Threads.{
  Program, Call, put, writer_calls, start, turn, puts, WriterProceeds, FlusherProceeds,
  Runs-proceeds,
}
use spack_playground.BurstBuffer.History.{
  System, Conserved, here, next, enqueues, collect, Reach-Conserved,
}

abbrev hello : InlineWriteRequest
hello = request (b'h' ∷ b'i' ∷ []) 0

abbrev world : InlineWriteRequest
world = request (b'w' ∷ []) 5

abbrev no_nodes : Heap InlineWriteRequest
no_nodes a = none

abbrev busy : BurstBuffer
busy = record {
  heap =
      write (write (write no_nodes 1 (some (node (request [] 0) 2))) 2 (some (node world 0))) 3
        (some (node hello 0));
  active = 1;
  flushing = 3;
  tail = 2;
}

busy-Stores : Stores (record busy { tail = 77 }) (world ∷ []) (hello ∷ [])
busy-Stores = record {
  head = 1;
  mark = request [] 0;
  waiting = (2, world) ∷ [];
  moved = (3, hello) ∷ [];
  stored = record {
    starts = refl;
    chain = (ground arith, refl, refl, (ground arith, refl, refl, tt));
    flushes = refl;
    side = (ground arith, refl, refl, tt);
    apart = λ a i. ground arith;
  };
  pends = refl;
  flushes = refl;
}

busy-Holds : Holds busy (world ∷ []) (hello ∷ [])
busy-Holds = record {
  head = 1;
  mark = request [] 0;
  waiting = (2, world) ∷ [];
  moved = (3, hello) ∷ [];
  is = record {
    stored = record {
      starts = refl;
      chain = (ground arith, refl, refl, (ground arith, refl, refl, tt));
      flushes = refl;
      side = (ground arith, refl, refl, tt);
      apart = λ a i. ground arith;
    };
    ends = refl;
  };
  pends = refl;
  flushes = refl;
}

pwrite-append_example :
    ((b' : BurstBuffer) × (pwrite (bump 9) 12 (b'x' ∷ []) 7 busy ≡ done (pos 0) b')
      × Holds b' (world ∷ request (b'x' ∷ []) 7 ∷ []) (hello ∷ []))
    ⊎ ((pwrite (bump 9) 12 (b'x' ∷ []) 7 busy ≡ done (neg 12) busy)
        × (first_free 9 1 busy.heap ≡ none))
pwrite-append_example =
    pwrite-append (bump 9) 12 (b'x' ∷ []) 7 busy (world ∷ []) (hello ∷ []) busy-Holds

flush_all-visit_example :
    ((is_finished (visit collect (hello ∷ []) []) ≡ true)
      × ((b' : BurstBuffer) × (flush_all collect 2 [] busy
            ≡ done (visit collect (hello ∷ []) []) b')
          × Flushed busy b' (world ∷ [])))
    ⊎ ((is_finished (visit collect (hello ∷ []) []) ≡ false)
        × (flush_all collect 2 [] busy ≡ done (visit collect (hello ∷ []) []) busy))
flush_all-visit_example =
    flush_all-visit collect 2 busy (world ∷ []) (hello ∷ []) [] busy-Holds (omega arith)

runtime_initialize-Holds_example :
    (b' : BurstBuffer) × (runtime_initialize (bump 9) 12 5 (record busy { tail = 77 }) ≡ done tt b')
    × (b'.heap ≡ busy.heap)
    × Holds b' (world ∷ []) (hello ∷ [])
runtime_initialize-Holds_example =
    runtime_initialize-Holds (bump 9) 12 5 (record busy { tail = 77 }) (world ∷ []) (hello ∷ [])
      busy-Stores (omega arith)

abbrev fresh_pool : BurstBuffer
fresh_pool = record { heap = no_nodes; active = 0; flushing = 0; tail = 0 }

abbrev started : System
started = record { buffer = busy; accepted = hello ∷ world ∷ []; delivered = [] }

started-Conserved : Conserved started
started-Conserved = record {
  pending = world ∷ [];
  flushing = hello ∷ [];
  holds = busy-Holds;
  accounts = refl;
}

busy_refuses : try_enqueue_flush busy ≡ done false busy
unfolding try_enqueue_flush
busy_refuses = refl

Reach-Conserved_example : Conserved started
Reach-Conserved_example =
    Reach-Conserved {mem = bump 9} {errno = 12} {s = started} (omega arith) started-Conserved
      (next here (enqueues false busy busy_refuses))

-- the first call of the writer on this buffer
abbrev buffer_of : Outcome BurstBuffer ℤ → BurstBuffer
buffer_of (done r b) = b
buffer_of (threw e b) = b
buffer_of fault = busy

abbrev hello_put : BurstBuffer
hello_put = buffer_of (pwrite (bump 9) 12 (b'h' ∷ b'e' ∷ b'l' ∷ b'l' ∷ b'o' ∷ []) 0 busy)

hello_accepted :
    pwrite (bump 9) 12 (b'h' ∷ b'e' ∷ b'l' ∷ b'l' ∷ b'o' ∷ []) 0 busy ≡ done (pos 0) hello_put
unfolding pwrite first_free set_next
hello_accepted = refl

abbrev at_begin : Program
at_begin = Threads.started started

abbrev drop_first : List Call → List Call
drop_first [] = []
drop_first (c ∷ cs) = cs

first_call :
    at_begin.calls ≡ put (b'h' ∷ b'e' ∷ b'l' ∷ b'l' ∷ b'o' ∷ []) 0 ∷ drop_first at_begin.calls
unfolding writer_calls
first_call = refl

abbrev behind_first : Program
behind_first = record {
  system = record {
    buffer = hello_put;
    accepted = started.accepted ++ request (b'h' ∷ b'e' ∷ b'l' ∷ b'l' ∷ b'o' ∷ []) 0 ∷ [];
    delivered = started.delivered;
  };
  calls = drop_first at_begin.calls;
  flushes_left = at_begin.flushes_left;
}

Runs-proceeds_example :
    ((behind_first.calls ≡ []) ⊎ WriterProceeds (bump 9) 12 behind_first)
    × ((behind_first.flushes_left ≡ 0) ⊎ FlusherProceeds (bump 9) 12 behind_first)
Runs-proceeds_example =
    Runs-proceeds (bump 9) 12 {s = started} behind_first (omega arith) started-Conserved (
      turn start (
        puts (b'h' ∷ b'e' ∷ b'l' ∷ b'l' ∷ b'o' ∷ []) 0 (drop_first at_begin.calls) (pos 0) hello_put
          first_call hello_accepted))
